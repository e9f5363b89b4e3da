-- ===== src/ZoneGossipRouter.antt =====
-- packages/core/src/network/gossip/ZoneGossipRouter.ts: gossip packets go to every neighbour, and to
-- the screen if their zone is subscribed. A handler returns what it does, in order, and the caches.
-- `deliver` stands for the call of all listeners, `echo` for `dandelion.notifyEcho` and `originate`
-- for `circuit.send`. The neighbours, the clock and the subscriptions are arguments of each call.
pub mod Veil
pub mod Relay
pub mod Effects
pub mod Once
pub mod Tests
use aether_web_lite.Prelude.{
  ℕ, suc, ◌+◌, Bool, true, false, not, ◌&&◌, Option, none, some, List, [], ◌∷◌, ◌++◌, if◌then◌else◌,
  ◌==◌,
}
use aether_web_lite.Prelude.Text.{Text, text_eq}
use aether_web_lite.Bytes.{Bytes}
use aether_web_lite.PowPolicy.{Field, int}
use aether_web_lite.PacketValidator.{GossipPacket, validate}
use aether_web_lite.SeenCache
use aether_web_lite.SeenCache.{SeenCache}
use aether_web_lite.Network.{PeerConnection, relays_to}

pub data Effect : Type 0 where
  echo : Text → Effect
  deliver : GossipPacket → Effect
  send : Text → GossipPacket → Effect
  originate : GossipPacket → Effect

pub record GossipRouter : Type 0 where
  pub flooded : SeenCache
  pub delivered : SeenCache

-- What a call finds around it.
pub record Around : Type 0 where
  pub my_peer_id : Text
  pub peers : List PeerConnection
  pub now : ℕ

abbrev pub new_router : GossipRouter
new_router = record { flooded = []; delivered = [] }

-- The id of a packet whose id is a text.
abbrev pub id_of : GossipPacket → Text
id_of p = elim p.packet_id [ none ↦ [] | some id ↦ id ]

unfoldable pub send_all : Text → GossipPacket → List PeerConnection → List Effect
send_all exclude p [] = []
send_all exclude p (peer ∷ peers) =
    let rest = send_all exclude p peers in
    if relays_to exclude peer then send peer.peer_id p ∷ rest else rest

unfoldable pub flood : Around → GossipPacket → Text → GossipRouter → List Effect × GossipRouter
flood a p exclude s = if SeenCache.has (id_of p) s.flooded then ([], s) else (
  send_all exclude (record p { hop_count = int 0 }) a.peers,
  record s { flooded = SeenCache.add (id_of p) a.now s.flooded },
)

unfoldable pub deliver_local :
    (Field → Bool) → Around → GossipPacket → GossipRouter → List Effect × GossipRouter
deliver_local is_subscribed a p s =
    if SeenCache.has (id_of p) s.delivered
    then ([], s)
    else if not (is_subscribed p.zone_id)
    then ([], s)
    else (deliver p ∷ [], record s { delivered = SeenCache.add (id_of p) a.now s.delivered })

-- The steps that an incoming packet and an exit packet share, once it is valid.
unfoldable pub accept_packet :
    (Field → Bool) → Around → Text → GossipPacket → GossipRouter → List Effect × GossipRouter
accept_packet is_subscribed a exclude p s =
    let (shown, s1) = deliver_local is_subscribed a p s in
    let (sent, s2) = flood a p exclude s1 in (echo (id_of p) ∷ (shown ++ sent), s2)

unfoldable pub broadcast : Around → GossipPacket → GossipRouter → List Effect × GossipRouter
broadcast a p s = (
  deliver p ∷ originate p ∷ [],
  record s { delivered = SeenCache.add (id_of p) a.now s.delivered },
)

-- The last two are the timers of the caches.
pub data Event : Type 0 where
  gossip : Around → Text → Option GossipPacket → Event
  exit_fluff : Around → Option GossipPacket → Event
  own : Around → GossipPacket → Event
  cleans_flooded : ℕ → Event
  cleans_delivered : ℕ → Event

module _ (sha256 : Bytes → Bytes) where
  unfoldable pub receive :
      (Field → Bool)
      → Around
      → Text
      → Option GossipPacket
      → GossipRouter
      → List Effect × GossipRouter
  receive is_subscribed a exclude none s = ([], s)
  receive is_subscribed a exclude (some p) s =
      if validate sha256 (some p) (record { now = a.now; allow_stale = false })
      then accept_packet is_subscribed a exclude p s
      else ([], s)

  unfoldable pub handle_gossip :
      (Field → Bool)
      → Around
      → Text
      → Option GossipPacket
      → GossipRouter
      → List Effect × GossipRouter
  unfolding receive
  handle_gossip is_subscribed a sender_id packet s = receive is_subscribed a sender_id packet s

  unfoldable pub handle_exit_fluff :
      (Field → Bool) → Around → Option GossipPacket → GossipRouter → List Effect × GossipRouter
  unfolding receive
  handle_exit_fluff is_subscribed a packet s = receive is_subscribed a a.my_peer_id packet s

  unfoldable pub step : (Field → Bool) → Event → GossipRouter → List Effect × GossipRouter
  step is_subscribed (gossip a sender_id packet) s =
      handle_gossip is_subscribed a sender_id packet s
  step is_subscribed (exit_fluff a packet) s = handle_exit_fluff is_subscribed a packet s
  step is_subscribed (own a p) s = broadcast a p s
  step is_subscribed (cleans_flooded now) s =
      ([], record s { flooded = SeenCache.cleanup now s.flooded })
  step is_subscribed (cleans_delivered now) s =
      ([], record s { delivered = SeenCache.cleanup now s.delivered })

  -- A history; the subscriptions may change from one event to the next.
  unfoldable pub run : (ℕ → Field → Bool) → ℕ → List Event → GossipRouter → List Effect
  run subscriptions n [] s = []
  run subscriptions n (e ∷ es) s =
      let (done, s') = step (subscriptions n) e s in done ++ run subscriptions (suc n) es s'

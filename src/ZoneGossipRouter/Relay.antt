-- ===== src/ZoneGossipRouter/Relay.antt =====
-- Whom relayed packets reach and what they carry.
use aether_web_lite.Prelude.{
  ℕ, ◌≡◌, Bool, true, false, ◌&&◌, Option, none, some, List, [], ◌∷◌, arith, ◌==◌, eq_iff, All,
  All-append, Bool-cases, inl, inr, any_of,
}
use aether_web_lite.Prelude.Text.{Text, text_eq}
use aether_web_lite.Bytes.{Bytes}
use aether_web_lite.PowPolicy.{Field, int}
use aether_web_lite.PacketValidator.{GossipPacket, validate}
use aether_web_lite.Network.{PeerConnection, relays_to}
use aether_web_lite.ZoneGossipRouter.{
  Effect, echo, deliver, send, originate, GossipRouter, Around, send_all, flood, deliver_local,
  accept_packet, broadcast, receive, handle_gossip, handle_exit_fluff, Event, gossip, exit_fluff,
  own, cleans_flooded, cleans_delivered, step,
}

-- Some neighbour of that id is connected and verified.
abbrev pub trusted : Text → List PeerConnection → Bool
trusted q = any_of (λ peer. peer.peer_id == q && (peer.is_connected && peer.is_verified))

-- A relayed packet carries no hop count, and goes to a connected and verified neighbour other than
-- the one that is left out.
abbrev pub IsDiscreet : Text → List PeerConnection → Effect → Type 0
IsDiscreet exclude peers (send q p) =
    (p.hop_count ≡ int 0) × (trusted q peers ≡ true) × ((q == exclude) ≡ false)
IsDiscreet exclude peers _ = Unit

weaken :
    (exclude : Text) (peer : PeerConnection) (peers : List PeerConnection) (es : List Effect)
    → All (IsDiscreet exclude peers) es
    → All (IsDiscreet exclude (peer ∷ peers)) es
weaken exclude peer peers [] h = tt
weaken exclude peer peers (send q p ∷ es) h =
    ((h.0.0, ground (arith, h.0.1), h.0.2), weaken exclude peer peers es h.1)
weaken exclude peer peers (echo i ∷ es) h = (tt, weaken exclude peer peers es h.1)
weaken exclude peer peers (deliver p ∷ es) h = (tt, weaken exclude peer peers es h.1)
weaken exclude peer peers (originate p ∷ es) h = (tt, weaken exclude peer peers es h.1)

send_all-IsDiscreet :
    (exclude : Text) (p : GossipPacket) (peers : List PeerConnection)
    → p.hop_count ≡ int 0
    → All (IsDiscreet exclude peers) (send_all exclude p peers)
unfolding send_all
send_all-IsDiscreet exclude p [] h = tt
send_all-IsDiscreet exclude p (peer ∷ peers) h =
    let rest = weaken exclude peer peers _ (send_all-IsDiscreet exclude p peers h) in
    elim (Bool-cases (relays_to exclude peer)) [
      | inl yes_relay ↦
          rw yes_relay ((h, ground (arith, eq_iff peer.peer_id peer.peer_id), ground arith), rest)
      | inr no_relay ↦ rw no_relay rest
    ]

flood-IsDiscreet :
    (a : Around) (p : GossipPacket) (exclude : Text) (s : GossipRouter)
    → All (IsDiscreet exclude a.peers) (flood a p exclude s).0
unfolding flood
flood-IsDiscreet a p exclude s =
    ground (arith, send_all-IsDiscreet exclude (record p { hop_count = int 0 }) a.peers)

deliver-IsDiscreet :
    (sub : Field → Bool) (a : Around) (p : GossipPacket) (exclude : Text) (s : GossipRouter)
    → All (IsDiscreet exclude a.peers) (deliver_local sub a p s).0
unfolding deliver_local
deliver-IsDiscreet sub a p exclude s = ground arith

receive-IsDiscreet :
    (sha256 : Bytes → Bytes) (sub : Field → Bool) (a : Around) (exclude : Text)
    (o : Option GossipPacket) (s : GossipRouter)
    → All (IsDiscreet exclude a.peers) (receive sha256 sub a exclude o s).0
unfolding receive accept_packet
receive-IsDiscreet sha256 sub a exclude none s = tt
receive-IsDiscreet sha256 sub a exclude (some p) s =
    let shown = deliver-IsDiscreet sub a p exclude s in
    let sent = flood-IsDiscreet a p exclude (deliver_local sub a p s).1 in
    elim (Bool-cases (validate sha256 (some p) (record { now = a.now; allow_stale = false }))) [
      | inl good ↦ rw good (tt, All-append (IsDiscreet exclude a.peers) _ _ shown sent)
      | inr bad ↦ rw bad tt
    ]

-- The neighbours at an event, which has none if it is a timer's, and whom its packet came from (this node, if not from a neighbour).
abbrev nobody : ℕ → Around
nobody now = record { my_peer_id = []; peers = []; now = now }

abbrev pub around : Event → Around
around (gossip a sender o) = a
around (exit_fluff a o) = a
around (own a p) = a
around (cleans_flooded now) = nobody now
around (cleans_delivered now) = nobody now

abbrev pub came_from : Event → Text
came_from (gossip a sender o) = sender
came_from (exit_fluff a o) = a.my_peer_id
came_from (own a p) = a.my_peer_id
came_from (cleans_flooded now) = []
came_from (cleans_delivered now) = []

-- Every packet that any event makes the node send carries no hop count and goes to a connected and
-- verified neighbour that it did not come from.
pub step-IsDiscreet :
    (sha256 : Bytes → Bytes) (sub : Field → Bool) (e : Event) (s : GossipRouter)
    → All (IsDiscreet (came_from e) (around e).peers) (step sha256 sub e s).0
unfolding step handle_gossip handle_exit_fluff broadcast
step-IsDiscreet sha256 sub (gossip a sender o) s = receive-IsDiscreet sha256 sub a sender o s
step-IsDiscreet sha256 sub (exit_fluff a o) s = receive-IsDiscreet sha256 sub a a.my_peer_id o s
step-IsDiscreet sha256 sub (own a p) s = (tt, (tt, tt))
step-IsDiscreet sha256 sub (cleans_flooded now) s = tt
step-IsDiscreet sha256 sub (cleans_delivered now) s = tt

-- ===== src/ZoneGossipRouter/Tests.antt =====
-- Two nodes on one history: one subscribes to everything, the other to nothing.
use aether_web_lite.Prelude.{ℕ, ◌+◌, ◌≤◌, ◌≡◌, refl, Bool, true, false, some, List, [], ◌∷◌, arith}
use aether_web_lite.Prelude.Text.{text}
use aether_web_lite.PowPolicy.{Field}
use aether_web_lite.PacketValidator.Tests.{zeros, packet, packet_accepted}
use aether_web_lite.SeenCache.Bounds.{IsValid}
use aether_web_lite.Network.{PeerConnection}
use aether_web_lite.ZoneGossipRouter.{
  Effect, Around, GossipRouter, new_router, Event, gossip, own, exit_fluff, run, handle_gossip,
}
use aether_web_lite.ZoneGossipRouter.Effects.{shown, sent}
use aether_web_lite.ZoneGossipRouter.Veil.{observable, subscriptions_hidden}
use aether_web_lite.ZoneGossipRouter.Once.{Unseen, cleaned, receive_twice}
use aether_web_lite.JsMap
use aether_web_lite.SeenCache

abbrev neighbour : Bool → PeerConnection
neighbour verified = record { peer_id = text "b"; is_connected = true; is_verified = verified }

abbrev at : ℕ → Around
at now = record {
  my_peer_id = text "me";
  peers =
      neighbour true ∷ record { peer_id = text "c"; is_connected = true; is_verified = true } ∷ [];
  now = now;
}

abbrev arrival : Event
arrival = gossip (at 1000) (text "b") (some packet)

abbrev events : List Event
events = arrival ∷ exit_fluff (at 1001) (some packet) ∷ own (at 1002) packet ∷ []

abbrev everything : ℕ → Field → Bool
everything n zone = true

abbrev nothing : ℕ → Field → Bool
nothing n zone = false

subscriptions_hidden_example :
    observable (run zeros everything 0 events new_router)
    ≡ observable (run zeros nothing 0 events new_router)
subscriptions_hidden_example = subscriptions_hidden zeros everything nothing events new_router

no_ids : IsValid []
no_ids = record { bounded = omega arith; distinct = tt; named = tt }

abbrev first : List Effect × GossipRouter
first = handle_gossip zeros (everything 0) (at 1000) (text "b") (some packet) new_router

new_to_both : Unseen packet new_router
unfolding SeenCache.has JsMap.has
new_to_both = record {
  flooded_valid = no_ids;
  delivered_valid = no_ids;
  not_flooded = refl;
  not_delivered = refl;
}

receive_twice_example :
    let again =
      handle_gossip zeros
        (everything 0)
        (at 1500)
        (text "c")
        (some packet)
        (cleaned (1200 ∷ 901_000 ∷ []) (1300 ∷ []) first.1) in
    (sent again.0 ≡ 0) × (shown first.0 + shown again.0 ≤ 1)
receive_twice_example =
    receive_twice zeros (at 1000) (at 1500) packet new_router (everything 0) (everything 0)
      (text "b") (text "c") (1200 ∷ 901_000 ∷ []) (1300 ∷ []) packet_accepted new_to_both
      (omega arith, (omega arith, tt)) (omega arith, tt)

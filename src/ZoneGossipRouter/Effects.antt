-- ===== src/ZoneGossipRouter/Effects.antt =====
-- Counting what a handler does.
use aether_web_lite.Prelude.{ℕ, suc, ◌+◌, ◌≡◌, refl, List, [], ◌∷◌, ◌++◌, arith}
use aether_web_lite.Prelude.Text.{Text}
use aether_web_lite.PacketValidator.{GossipPacket}
use aether_web_lite.Network.{PeerConnection}
use aether_web_lite.ZoneGossipRouter.{Effect, echo, deliver, send, originate, send_all}

-- How often the listeners are called, and how many messages are sent.
unfoldable pub shown : List Effect → ℕ
shown [] = 0
shown (deliver p ∷ es) = suc (shown es)
shown (echo i ∷ es) = shown es
shown (send q p ∷ es) = shown es
shown (originate p ∷ es) = shown es

unfoldable pub sent : List Effect → ℕ
sent [] = 0
sent (send q p ∷ es) = suc (sent es)
sent (deliver p ∷ es) = sent es
sent (echo i ∷ es) = sent es
sent (originate p ∷ es) = sent es

pub shown-append : (xs ys : List Effect) → shown (xs ++ ys) ≡ shown xs + shown ys
unfolding shown
shown-append [] ys = omega arith
shown-append (deliver p ∷ xs) ys = omega (arith, shown-append xs ys)
shown-append (echo i ∷ xs) ys = shown-append xs ys
shown-append (send q p ∷ xs) ys = shown-append xs ys
shown-append (originate p ∷ xs) ys = shown-append xs ys

pub sent-append : (xs ys : List Effect) → sent (xs ++ ys) ≡ sent xs + sent ys
unfolding sent
sent-append [] ys = omega arith
sent-append (send q p ∷ xs) ys = omega (arith, sent-append xs ys)
sent-append (deliver p ∷ xs) ys = sent-append xs ys
sent-append (echo i ∷ xs) ys = sent-append xs ys
sent-append (originate p ∷ xs) ys = sent-append xs ys

pub shown-send_all :
    (exclude : Text) (p : GossipPacket) (peers : List PeerConnection)
    → shown (send_all exclude p peers) ≡ 0
unfolding shown send_all
shown-send_all exclude p [] = refl
shown-send_all exclude p (peer ∷ peers) = ground (arith, shown-send_all exclude p peers)

-- ===== src/ZoneGossipRouter/Veil.antt =====
-- Broadcast Veil: what leaves the node does not depend on what it subscribes to.
use aether_web_lite.Prelude.{
  ℕ, suc, ◌≡◌, refl, ap, Bool, false, Option, none, some, List, [], ◌∷◌, ◌++◌, arith, Bool-cases,
  inl, inr,
}
use aether_web_lite.Prelude.Text.{Text}
use aether_web_lite.Bytes.{Bytes}
use aether_web_lite.PowPolicy.{Field}
use aether_web_lite.PacketValidator.{GossipPacket, validate}
use aether_web_lite.SeenCache
use aether_web_lite.ZoneGossipRouter.{
  Effect, echo, deliver, send, originate, GossipRouter, Around, flood, deliver_local, accept_packet,
  broadcast, receive, handle_gossip, handle_exit_fluff, Event, gossip, exit_fluff, own,
  cleans_flooded, cleans_delivered, step, run,
}

-- What the neighbours and the circuit can observe: all but the calls of the listeners.
unfoldable pub observable : List Effect → List Effect
observable [] = []
observable (deliver p ∷ es) = observable es
observable (echo id ∷ es) = echo id ∷ observable es
observable (send q p ∷ es) = send q p ∷ observable es
observable (originate p ∷ es) = originate p ∷ observable es

observable-append : (xs ys : List Effect) → observable (xs ++ ys) ≡ observable xs ++ observable ys
unfolding observable
observable-append [] ys = refl
observable-append (deliver p ∷ xs) ys = observable-append xs ys
observable-append (echo id ∷ xs) ys = ap (◌∷◌ (echo id)) (observable-append xs ys)
observable-append (send q p ∷ xs) ys = ap (◌∷◌ (send q p)) (observable-append xs ys)
observable-append (originate p ∷ xs) ys = ap (◌∷◌ (originate p)) (observable-append xs ys)

-- Two routers that have relayed the same packets.
abbrev SameRelayed : GossipRouter → GossipRouter → Type 0
SameRelayed s t = s.flooded ≡ t.flooded

-- Whether it delivers or not, local delivery shows nothing and relays nothing.
deliver_hidden :
    (sub : Field → Bool) (a : Around) (p : GossipPacket) (s : GossipRouter)
    → (observable (deliver_local sub a p s).0 ≡ [])
      × ((deliver_local sub a p s).1.flooded ≡ s.flooded)
unfolding deliver_local observable
deliver_hidden sub a p s = ground arith

flood_same :
    (a : Around) (p : GossipPacket) (exclude : Text) (s t : GossipRouter)
    → SameRelayed s t
    → ((flood a p exclude s).0 ≡ (flood a p exclude t).0)
      × SameRelayed (flood a p exclude s).1 (flood a p exclude t).1
unfolding flood
flood_same a p exclude s t same = ground arith

abbrev SameOutside : List Effect × GossipRouter → List Effect × GossipRouter → Type 0
SameOutside x y = (observable (x.0) ≡ observable (y.0)) × SameRelayed (x.1) (y.1)

accept_same :
    (sub sub' : Field → Bool) (a : Around) (exclude : Text) (p : GossipPacket) (s t : GossipRouter)
    → SameRelayed s t
    → SameOutside (accept_packet sub a exclude p s) (accept_packet sub' a exclude p t)
unfolding accept_packet observable
accept_same sub sub' a exclude p s t same =
    let (quiet, kept) = deliver_hidden sub a p s in
    let (quiet', kept') = deliver_hidden sub' a p t in
    let (sent, relayed) =
      flood_same a p exclude (deliver_local sub a p s).1 (deliver_local sub' a p t).1
        (cc (kept, kept', same)) in
    (rw (observable-append, observable-append, quiet, quiet', sent) refl, relayed)

module _ (sha256 : Bytes → Bytes) where
  receive_same :
      (sub sub' : Field → Bool) (a : Around) (exclude : Text) (o : Option GossipPacket)
      (s t : GossipRouter)
      → SameRelayed s t
      → SameOutside (receive sha256 sub a exclude o s) (receive sha256 sub' a exclude o t)
  unfolding receive
  receive_same sub sub' a exclude none s t same = (refl, same)
  receive_same sub sub' a exclude (some p) s t same =
      elim (Bool-cases (validate sha256 (some p) (record { now = a.now; allow_stale = false }))) [
        | inl good ↦ rw good (accept_same sub sub' a exclude p s t same)
        | inr bad ↦ rw bad (refl, same)
      ]

  step_same :
      (sub sub' : Field → Bool) (e : Event) (s t : GossipRouter)
      → SameRelayed s t
      → SameOutside (step sha256 sub e s) (step sha256 sub' e t)
  unfolding step handle_gossip handle_exit_fluff broadcast
  step_same sub sub' (gossip a sender o) s t same = receive_same sub sub' a sender o s t same
  step_same sub sub' (exit_fluff a o) s t same = receive_same sub sub' a a.my_peer_id o s t same
  step_same sub sub' (own a p) s t same = (refl, same)
  step_same sub sub' (cleans_flooded now) s t same = (refl, ap (SeenCache.cleanup now) same)
  step_same sub sub' (cleans_delivered now) s t same = (refl, same)

  run_same :
      (subs subs' : ℕ → Field → Bool) (n : ℕ) (es : List Event) (s t : GossipRouter)
      → SameRelayed s t
      → observable (run sha256 subs n es s) ≡ observable (run sha256 subs' n es t)
  unfolding run
  run_same subs subs' n [] s t same = refl
  run_same subs subs' n (e ∷ es) s t same =
      let (seen, same') = step_same (subs n) (subs' n) e s t same in
      rw
        (
          observable-append (step sha256 (subs n) e s).0,
          observable-append (step sha256 (subs' n) e t).0,
          seen,
          run_same subs subs' (suc n) es (step sha256 (subs n) e s).1 (step sha256 (subs' n) e t).1
              same',
        )
        refl

  -- Whatever arrives, and however the subscriptions of two nodes differ and change over time, the
  -- two nodes make the same observable actions (echoes, relayed messages with their contents, and
  -- originations) in the same order.
  pub subscriptions_hidden :
      (subs subs' : ℕ → Field → Bool) (es : List Event) (s : GossipRouter)
      → observable (run sha256 subs 0 es s) ≡ observable (run sha256 subs' 0 es s)
  subscriptions_hidden subs subs' es s = run_same subs subs' 0 es s s refl

-- ===== src/DandelionRouter/Guard.antt =====
-- A guard that is pinned stays the guard.
use aether_web_lite.Prelude.{
  ℕ, ◌≡◌, ◌≢◌, refl, subst, sym, Bool, true, false, Option, none, some, List, [], ◌∷◌, arith, All,
  ◌==◌, eq_iff, Option-cases, Bool-cases, inl, inr, map, get_elem?, nat_beq, length, ◌∷◌,
}
use aether_web_lite.Prelude.Text.{Text, text_eq}
use aether_web_lite.JsMap
use aether_web_lite.JsMap.{JsMap}
use aether_web_lite.DandelionRouter.{
  at, infinity, new_dandelion_router, set_guard, pin, gone, reset_pinned_guard, guard_weight,
  secure_weighted_index, OnionHop, GuardPeer, DandelionRouter, GuardEffect, find_hop, live_guard,
  get_pinned_guard,
}

-- The guard is pinned for ever.
abbrev pub Pinned : Text → DandelionRouter → Type 0
Pinned id s = (s.pinned_guard_id ≡ some id) × (s.pinned_guard_expiry ≡ infinity)

-- A question for the guard, with what the node sees at that time.
pub record Asking : Type 0 where
  pub random_index : ℕ → ℕ
  pub word : ℕ
  pub peers : JsMap Text GuardPeer
  pub candidates : List OnionHop
  pub now : ℕ

abbrev pub ask : DandelionRouter → Asking → Option OnionHop × (List GuardEffect × DandelionRouter)
ask s a = get_pinned_guard a.random_index a.word a.peers a.candidates a.now s

abbrev pub answers : DandelionRouter → List Asking → List (Option OnionHop)
answers s [] = []
answers s (a ∷ later) = (ask s a).0 ∷ answers (ask s a).1.1 later

-- The guard is a neighbour, and among the candidates.
abbrev pub Stands : Text → Asking → Type 0
Stands id a = (JsMap.has id a.peers ≡ true) × (find_hop id a.candidates ≢ none)

abbrev pub is_hop : Text → Option OnionHop → Bool
is_hop id none = false
is_hop id (some hop) = hop.peer_id == id

find_hop-is_hop :
    (id : Text) (cs : List OnionHop) → find_hop id cs ≢ none → is_hop id (find_hop id cs) ≡ true
unfolding find_hop
find_hop-is_hop id [] h = absurd (h refl)
find_hop-is_hop id (c ∷ cs) h = ground (arith, h, find_hop-is_hop id cs)

ask_again :
    (id : Text) (s : DandelionRouter) (a : Asking)
    → Pinned id s
    → Stands id a
    → (is_hop id (ask s a).0 ≡ true) × ((ask s a).1 ≡ ([], s))
unfolding get_pinned_guard live_guard
ask_again id s a p st = ground (arith, p.0, p.1, st.0, st.1, find_hop-is_hop id a.candidates)

answers-Pinned :
    (id : Text) (s : DandelionRouter) (later : List Asking)
    → Pinned id s
    → All (Stands id) later
    → All (λ hop. is_hop id hop ≡ true) (answers s later)
answers-Pinned id s [] p st = tt
answers-Pinned id s (a ∷ later) p st =
    let again = ask_again id s a p st.0 in
    (
      again.0,
      subst (λ r. All (λ hop. is_hop id hop ≡ true) (answers r.1 later)) (sym again.1)
          (answers-Pinned id s later p st.1),
    )

find_hop-same :
    (id : Text) (cs : List OnionHop) (hop : OnionHop) → find_hop id cs ≡ some hop → hop.peer_id ≡ id
unfolding find_hop
find_hop-same id [] hop h = cc
find_hop-same id (c ∷ cs) hop h = ground (arith, find_hop-same id cs hop, eq_iff c.peer_id id)

-- Whoever is pinned is pinned for ever.
abbrev Lasting : DandelionRouter → Type 0
Lasting s = (id : Text) → s.pinned_guard_id ≡ some id → s.pinned_guard_expiry ≡ infinity

-- An answer leaves its guard pinned.
record Leaves (r : Option OnionHop × (List GuardEffect × DandelionRouter)) : Type 0 where
  lasting : Lasting r.1.1
  named : (hop : OnionHop) → r.0 ≡ some hop → r.1.1.pinned_guard_id ≡ some hop.peer_id

live_guard-named :
    (peers : JsMap Text GuardPeer) (cs : List OnionHop) (now : ℕ) (s : DandelionRouter)
    (hop : OnionHop)
    → live_guard peers cs now s ≡ some hop
    → s.pinned_guard_id ≡ some hop.peer_id
unfolding live_guard
live_guard-named peers cs now s hop h = elim (Option-cases s.pinned_guard_id) [
  | inl e ↦ ground (arith, h, e)
  | inr (id, e) ↦ ground (arith, h, e, find_hop-same id cs hop)
]

set_guard-none : (s : DandelionRouter) → Lasting (set_guard none (at 0) s).1
unfolding set_guard
set_guard-none s = λ id e. ground arith

pin-Leaves :
    (now : ℕ) (selected : Option OnionHop) (s : DandelionRouter)
    → Lasting s
    → Leaves (pin now selected s)
unfolding set_guard
pin-Leaves now none s l = record { lasting = l; named = λ hop e. cc }
pin-Leaves now (some hop) s l = ground arith

ask-Leaves : (s : DandelionRouter) (a : Asking) → Lasting s → Leaves (ask s a)
unfolding get_pinned_guard
ask-Leaves s a l = elim (Option-cases (live_guard a.peers a.candidates a.now s)) [
  | inr (hop, e) ↦ rw (get_pinned_guard, e) (stays hop e)
  | inl e ↦
      let weights = map (λ c. guard_weight a.peers a.now c.peer_id) a.candidates in
      let selected = get_elem? a.candidates (secure_weighted_index a.random_index a.word weights) in
      elim (Bool-cases (nat_beq (length a.candidates) 0)) [
        | inr some_there ↦ rw (get_pinned_guard, e, some_there) (pin-Leaves a.now selected s l)
        | inl none_there ↦ elim (Bool-cases (gone a.peers s.pinned_guard_id)) [
          | inl left ↦
              rw (get_pinned_guard, e, none_there, left)
                (record { lasting = set_guard-none s; named = λ hop h. cc })
          | inr there ↦
              rw (get_pinned_guard, e, none_there, there)
                (record { lasting = l; named = λ hop h. cc })
        ]
      ]
]
  where
    stays :
        (hop : OnionHop)
        → live_guard a.peers a.candidates a.now s ≡ some hop
        → Leaves (some hop, ([], s))
    stays hop e = record {
      lasting = l;
      named = λ other h. ground (arith, h, live_guard-named a.peers a.candidates a.now s hop e);
    }

-- What may happen to the guard: a question for it, or its reset.
pub data GuardOp : Type 0 where
  asks : Asking → GuardOp
  resets : GuardOp

abbrev pub guard_run : DandelionRouter → List GuardOp → DandelionRouter
guard_run s [] = s
guard_run s (asks a ∷ ops) = guard_run (ask s a).1.1 ops
guard_run s (resets ∷ ops) = guard_run (reset_pinned_guard s).1 ops

guard_run-Lasting :
    (s : DandelionRouter) (ops : List GuardOp) → Lasting s → Lasting (guard_run s ops)
guard_run-Lasting s [] l = l
guard_run-Lasting s (asks a ∷ ops) l =
    guard_run-Lasting (ask s a).1.1 ops (ask-Leaves s a l).lasting
guard_run-Lasting s (resets ∷ ops) l =
    guard_run-Lasting (reset_pinned_guard s).1 ops (set_guard-none s)

-- Whatever a new router was asked before, and however often it was reset: the guard that it answers
-- a question with is its answer to every later question, at any time, whatever random numbers are
-- drawn and whoever else stands for the choice, while that guard is a neighbour and among the
-- candidates.
pub guard_stays :
    (earlier : List GuardOp) (first : Asking) (hop : OnionHop) (later : List Asking)
    → (ask (guard_run new_dandelion_router earlier) first).0 ≡ some hop
    → All (Stands hop.peer_id) later
    → All
        (λ answer. is_hop hop.peer_id answer ≡ true)
        (answers (ask (guard_run new_dandelion_router earlier) first).1.1 later)
guard_stays earlier first hop later h st =
    let s = guard_run new_dandelion_router earlier in
    let left = ask-Leaves s first (guard_run-Lasting new_dandelion_router earlier (λ id e. cc)) in
    let pinned = left.named hop h in
    answers-Pinned hop.peer_id (ask s first).1.1 later (pinned, left.lasting hop.peer_id pinned) st

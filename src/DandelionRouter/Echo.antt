-- ===== src/DandelionRouter/Echo.antt =====
-- An echo reaches everyone who still waits for it.
use aether_web_lite.Prelude.{
  ℕ, ◌≡◌, refl, Bool, true, false, not, ◌||◌, ◌&&◌, List, [], ◌∷◌, ◌++◌, arith, length, All,
  includes, keep_if, map, ltb, number_key, Option-cases, inl, inr, ◌==◌, eq_iff,
}
use aether_web_lite.Prelude.Text.{Text, text_eq}
use aether_web_lite.JsMap
use aether_web_lite.JsMap.{JsMap}
use aether_web_lite.JsMap.Laws.{get-set, get-delete}
use aether_web_lite.DandelionRouter.{
  DandelionRouter, GuardEffect, guard_changed, echo_resolved, echo_key, list_of, notify_echo,
  await_echo, echo_timeout,
}

pub data EchoOp : Type 0 where
  notifies : Text → EchoOp
  awaits expires : Text → ℕ → EchoOp

unfoldable pub echo_step : DandelionRouter → EchoOp → DandelionRouter
echo_step s (notifies id) = (notify_echo id s).1
echo_step s (awaits id callback) = await_echo id callback s
echo_step s (expires id callback) = (echo_timeout id callback s).1

unfoldable pub echo_run : DandelionRouter → List EchoOp → DandelionRouter
echo_run s [] = s
echo_run s (op ∷ ops) = echo_run (echo_step s op) ops

abbrev pub waits : Text → ℕ → DandelionRouter → Bool
waits id callback s = includes callback (list_of (JsMap.get (echo_key id) s.listeners))

-- Neither the echo itself nor the waiter's own timer.
abbrev pub passes_by : Text → ℕ → EchoOp → Bool
passes_by id callback (notifies other) = not (other == id)
passes_by id callback (awaits other c) = true
passes_by id callback (expires other c) = not (c == callback)

abbrev pub is_resolved : ℕ → List GuardEffect → Bool
is_resolved callback [] = false
is_resolved callback (guard_changed id ∷ es) = is_resolved callback es
is_resolved callback (echo_resolved c heard ∷ es) =
    (c == callback && heard) || is_resolved callback es

includes-snoc : (x y : ℕ) (xs : List ℕ) → includes x xs ≡ true → includes x (xs ++ y ∷ []) ≡ true
includes-snoc x y [] h = ground arith
includes-snoc x y (z ∷ xs) h = ground (arith, includes-snoc x y xs)

includes-keep_if :
    (x y : ℕ) (xs : List ℕ)
    → (y == x) ≡ false
    → includes x xs ≡ true
    → includes x (keep_if (λ c. not (c == y)) xs) ≡ true
includes-keep_if x y [] n h = cc
includes-keep_if x y (z ∷ xs) n h =
    ground (arith, h, n, includes-keep_if x y xs n, eq_iff z x, eq_iff z y, eq_iff y x)

not_empty : (x : ℕ) (xs : List ℕ) → includes x xs ≡ true → ltb 0 (length xs) ≡ true
not_empty x [] h = cc
not_empty x (y ∷ xs) h = ground arith

key_apart : (a b : Text) → (echo_key a == echo_key b) ≡ (a == b)
key_apart a b = refl

resolved_all :
    (callback : ℕ) (cs : List ℕ)
    → includes callback cs ≡ true
    → is_resolved callback (map (λ c. echo_resolved c true) cs) ≡ true
resolved_all callback [] h = cc
resolved_all callback (c ∷ cs) h = ground (arith, h, resolved_all callback cs)

echo_step-waits :
    (id : Text) (callback : ℕ) (s : DandelionRouter) (op : EchoOp)
    → passes_by id callback op ≡ true
    → waits id callback s ≡ true
    → waits id callback (echo_step s op) ≡ true
unfolding echo_step notify_echo await_echo echo_timeout
echo_step-waits id callback s (notifies other) p w =
    ground (arith, p, w, get-delete (echo_key other) (echo_key id) s.listeners, key_apart other id)
echo_step-waits id callback s (awaits other c) p w =
    let old = list_of (JsMap.get (echo_key other) s.listeners) in
    ground (
      arith,
      w,
      get-set (echo_key other) (echo_key id) (old ++ c ∷ []) s.listeners,
      includes-snoc callback c old,
      eq_iff (echo_key other) (echo_key id),
    )
echo_step-waits id callback s (expires other c) p w =
    let old = list_of (JsMap.get (echo_key other) s.listeners) in
    let remaining = keep_if (λ cb. not (cb == c)) old in
    ground (
      arith,
      p,
      w,
      get-set (echo_key other) (echo_key id) remaining s.listeners,
      get-delete (echo_key other) (echo_key id) s.listeners,
      includes-keep_if callback c old,
      not_empty callback remaining,
      eq_iff (echo_key other) (echo_key id),
    )

answered_now :
    (id : Text) (callback : ℕ) (s : DandelionRouter)
    → waits id callback s ≡ true
    → is_resolved callback (notify_echo id s).0 ≡ true
unfolding notify_echo
answered_now id callback s w = elim (Option-cases (JsMap.get (echo_key id) s.listeners)) [
  | inl e ↦ absurd (ground (arith, e, w))
  | inr (cs, e) ↦ ground (arith, e, w, resolved_all callback cs)
]

-- Someone who waits for an echo is answered by it, whatever others wait for and whichever other
-- timers fire in between.
pub echo_reaches :
    (id : Text) (callback : ℕ) (s : DandelionRouter) (ops : List EchoOp)
    → All (λ op. passes_by id callback op ≡ true) ops
    → waits id callback s ≡ true
    → is_resolved callback (notify_echo id (echo_run s ops)).0 ≡ true
unfolding echo_run
echo_reaches id callback s [] p w = answered_now id callback s w
echo_reaches id callback s (op ∷ ops) p w =
    echo_reaches id callback (echo_step s op) ops p.1 (echo_step-waits id callback s op p.0 w)

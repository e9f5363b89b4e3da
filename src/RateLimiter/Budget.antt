-- ===== src/RateLimiter/Budget.antt =====
-- The budget of a token bucket: over any span of time a peer is granted no more than the burst and
-- what the rate refills in that span.
use aether_web_lite.Prelude.{
  ℕ, ◌+◌, ◌-◌, ◌*◌, ◌≤◌, ◌≡◌, refl, ap, inl, inr, Bool, true, false, some, List, [], ◌∷◌, arith,
  ◌&&◌, ◌==◌, eq_iff, if◌then◌else◌, Bool-cases, All,
}
use aether_web_lite.Prelude.Text.{Text, text_eq}
use aether_web_lite.JsMap
use aether_web_lite.JsMap.{JsMap}
use aether_web_lite.RateLimiter.{one, RateLimitConfig, RateLimiter, key, note_drop, spend, allow}
use aether_web_lite.RateLimiter.Keys.{Plain}
use aether_web_lite.RateLimiter.Forget.{allow_isolated}
use aether_web_lite.RateLimiter.Level.{level, worth, current-le-burst, current-later, allow-level}

pub record Request : Type 0 where
  pub peer : Text
  pub category : Text
  pub time : ℕ

unfoldable pub serve : Request → RateLimiter → Bool × RateLimiter
serve r s = allow r.peer r.category r.time s

-- The requests of one peer and category that a history grants.
unfoldable pub granted : Text → Text → RateLimiter → List Request → ℕ
granted peer category s [] = 0
granted peer category s (r ∷ rs) =
    let (done, s') = serve r s in
    let rest = granted peer category s' rs in
    if done && (r.category == category && r.peer == peer) then rest + 1 else rest

-- The clock of a history does not go back from `start` to `end`.
abbrev pub Rising : ℕ → List Request → ℕ → Type 0
Rising start [] end = start ≤ end
Rising start (r ∷ rs) end = (start ≤ r.time) × Rising r.time rs end

Rising-span : (start end : ℕ) (rs : List Request) → Rising start rs end → start ≤ end
Rising-span start end [] h = h
Rising-span start end (r ∷ rs) h = omega (arith, Rising-span r.time end rs h.1)

configs-allow :
    (peer category : Text) (now : ℕ) (s : RateLimiter)
    → (allow peer category now s).1.configs ≡ s.configs
unfolding allow spend note_drop
configs-allow peer category now s = ground arith

and_true : (b : Bool) → (b && true) ≡ b
and_true true = refl
and_true false = refl

and_false : (b : Bool) → (b && false) ≡ false
and_false true = refl
and_false false = refl

level_same :
    (config : RateLimitConfig) (now : ℕ) (k : Text) (s s' : RateLimiter)
    → JsMap.get k s'.buckets ≡ JsMap.get k s.buckets
    → level config now k s' + 0 ≡ level config now k s
unfolding level
level_same config now k s s' h = rw (h, level) (omega arith)

-- One decision, whoever asks, lowers the level of a pair by what that pair is granted.
serve-level :
    (peer category : Text) (config : RateLimitConfig) (r : Request) (s : RateLimiter)
    → Plain category
    → Plain r.category
    → JsMap.get category s.configs ≡ some config
    → level config r.time (key category peer) (serve r s).1
        + worth ((serve r s).0 && (r.category == category && r.peer == peer))
      ≡ level config r.time (key category peer) s
unfolding serve
serve-level peer category config r s hc hr known =
    elim (Bool-cases (r.category == category && r.peer == peer)) [
      | inl same ↦
          let ec : r.category ≡ category = ground (arith, eq_iff r.category category) in
          let ep : r.peer ≡ peer = ground (arith, eq_iff r.peer peer) in
          rw (same, and_true, ← ec, ← ep)
            (allow-level r.peer r.category config r.time s (rw ec known))
      | inr other ↦
          rw (other, and_false)
            (level_same config r.time (key category peer) s (allow r.peer r.category r.time s).1
              (allow_isolated r.peer r.category peer category r.time s hr hc other))
    ]

level-later :
    (config : RateLimitConfig) (t t' : ℕ) (k : Text) (s : RateLimiter)
    → t ≤ t'
    → level config t' k s ≤ level config t k s + (t' - t) * config.rate_milli
unfolding level
level-later config t t' k s h = current-later config t t' (JsMap.get k s.buckets) h

mul_join : (a b c r : ℕ) → a + b ≡ c → a * r + b * r ≡ c * r
mul_join a b c r h = omega (arith, ap (λ (n : ℕ). n * r) h)

grant_step :
    (b : Bool) (n start now after x y z : ℕ)
    → n * one ≤ after + x
    → after + worth b ≡ now
    → now ≤ start + y
    → x + y ≡ z
    → (if b then n + 1 else n) * one ≤ start + z
grant_step true n start now after x y z p q r e = omega arith
grant_step false n start now after x y z p q r e = omega arith

configs-serve : (r : Request) (s : RateLimiter) → (serve r s).1.configs ≡ s.configs
unfolding serve
configs-serve r s = configs-allow r.peer r.category r.time s

granted-le-level :
    (peer category : Text) (config : RateLimitConfig) (start end : ℕ) (s : RateLimiter)
    (rs : List Request)
    → Plain category
    → All (λ r. Plain (r.category)) rs
    → JsMap.get category s.configs ≡ some config
    → Rising start rs end
    → granted peer category s rs * one
      ≤ level config start (key category peer) s + (end - start) * config.rate_milli
unfolding granted
granted-le-level peer category config start end s [] hc hrs known rise = omega arith
granted-le-level peer category config start end s (r ∷ rs) hc hrs known rise =
    let before = level-later config start r.time (key category peer) s rise.0 in
    let step = serve-level peer category config r s hc hrs.0 known in
    let rest =
      granted-le-level peer category config r.time end (serve r s).1 rs hc hrs.1
        (rw (configs-serve r s) known) rise.1 in
    let span =
      mul_join (end - r.time) (r.time - start) (end - start) config.rate_milli
        (omega (arith, Rising-span r.time end rs rise.1)) in
    grant_step ((serve r s).0 && (r.category == category && r.peer == peer))
      (granted peer category (serve r s).1 rs) _ _ _ _ _ _ rest step before span

-- Over any history of requests of any peers in any categories (none of them holding the separator),
-- on a clock that does not go back, what a peer is granted in a configured category is at most the
-- burst and what the rate refills between the start and the end.
pub granted-le-budget :
    (peer category : Text) (config : RateLimitConfig) (start end : ℕ) (s : RateLimiter)
    (rs : List Request)
    → Plain category
    → All (λ r. Plain (r.category)) rs
    → JsMap.get category s.configs ≡ some config
    → Rising start rs end
    → granted peer category s rs * one ≤ config.burst * one + (end - start) * config.rate_milli
unfolding level
granted-le-budget peer category config start end s rs hc hrs known rise = omega (
  arith,
  granted-le-level peer category config start end s rs hc hrs known rise,
  current-le-burst config start (JsMap.get (key category peer) s.buckets),
)

-- ===== src/RateLimiter/Tests.antt =====
-- Runs of the rate limiter.
use aether_web_lite.Prelude.{ℕ, ◌+◌, ◌-◌, ◌*◌, ◌≤◌, ◌≡◌, refl, false, List, [], ◌∷◌, arith}
use aether_web_lite.Prelude.Text.{text, text_eq}
use aether_web_lite.JsMap
use aether_web_lite.RateLimiter.{one, rate_limits, new_limiter, RateLimiter, key, current, allow}
use aether_web_lite.RateLimiter.Budget.{Request, granted, serve, granted-le-budget}
use aether_web_lite.RateLimiter.Forget.{allow_isolated}

abbrev start : RateLimiter
start = new_limiter rate_limits

-- A category that the table does not name is refused, `constructor` too.
unknown_refused : (allow (text "a1") (text "constructor") 0 start).0 ≡ false
unfolding allow JsMap.get
unknown_refused = refl

-- Three handshakes pass, the fourth does not, and five seconds later one more does.
abbrev shake : ℕ → Request
shake t = record { peer = text "a1"; category = text "handshake"; time = t }

abbrev shakes : List Request
shakes = shake 0 ∷ shake 0 ∷ shake 0 ∷ shake 0 ∷ shake 5000 ∷ shake 5000 ∷ []

four_granted : granted (text "a1") (text "handshake") start shakes ≡ 4
unfolding granted serve allow current JsMap.get JsMap.set key
four_granted = refl

-- 3 + 6 * 0.2 tokens.
granted-le-budget_example :
    granted (text "a1") (text "handshake") start shakes * one ≤ 3 * one + (6000 - 0) * 200
unfolding JsMap.get
granted-le-budget_example =
    granted-le-budget (text "a1") (text "handshake") (record { rate_milli = 200; burst = 3 }) 0 6000
      start shakes (omega arith) (omega arith) refl (omega arith)

abbrev busy : RateLimiter
busy = record start {
  buckets =
      (key (text "pex") (text "a1"), record { tokens = 7; last_refill = 0 })
      ∷ (key (text "pex") (text "b1"), record { tokens = 8; last_refill = 0 })
      ∷ [];
}

allow_isolated_example :
    JsMap.get (key (text "pex") (text "b1")) (allow (text "a1") (text "pex") 1 busy).1.buckets
    ≡ JsMap.get (key (text "pex") (text "b1")) busy.buckets
allow_isolated_example =
    allow_isolated (text "a1") (text "pex") (text "b1") (text "pex") 1 busy (omega arith)
      (omega arith) refl

-- ===== src/RateLimiter.antt =====
-- packages/core/src/network/RateLimiter.ts: a token bucket for each category and peer.
-- Tokens are counted in millionths and rates in thousandths per second, so that the refill
-- `elapsedMs / 1000 * ratePerSec` is the whole number `elapsed * rate_milli`; the source computes
-- in floating point. Time is an argument.
pub mod Keys
pub mod Level
pub mod Budget
pub mod Forget
pub mod Tests
use aether_web_lite.Prelude.{
  ℕ, ◌+◌, ◌-◌, ◌*◌, ◌≤◌, min, Bool, true, false, ◌||◌, not, Option, none, some, List, [], ◌∷◌, ◌++◌,
  ltb, if◌then◌else◌, keep_if, ◌==◌,
}
use aether_web_lite.Prelude.Text.{Text, text, text_eq}
use aether_web_lite.JsMap
use aether_web_lite.JsMap.{JsMap}

pub record RateLimitConfig : Type 0 where
  pub rate_milli : ℕ
  pub burst : ℕ

pub record Bucket : Type 0 where
  pub tokens : ℕ
  pub last_refill : ℕ

pub record RateLimiter : Type 0 where
  pub configs : JsMap Text RateLimitConfig
  pub buckets : JsMap Text Bucket
  pub dropped : JsMap Text ℕ

-- One token.
abbrev pub one : ℕ
one = 1_000_000

abbrev pub rate_limits : JsMap Text RateLimitConfig
rate_limits =
    (text "gossip", record { rate_milli = 20_000; burst = 60 })
    ∷ (text "dhtPut", record { rate_milli = 5_000; burst = 30 })
    ∷ (text "dhtGet", record { rate_milli = 5_000; burst = 20 })
    ∷ (text "pex", record { rate_milli = 1_000; burst = 5 })
    ∷ (text "handshake", record { rate_milli = 200; burst = 3 })
    ∷ (text "signaling", record { rate_milli = 10_000; burst = 40 })
    ∷ (text "onion", record { rate_milli = 20_000; burst = 60 })
    ∷ (text "control", record { rate_milli = 2_000; burst = 10 })
    ∷ []

abbrev pub new_limiter : JsMap Text RateLimitConfig → RateLimiter
new_limiter configs = record { configs = configs; buckets = []; dropped = [] }

-- `${category}\u0000${peerId}`
unfoldable pub key : Text → Text → Text
key category peer = category ++ 0 ∷ peer

unfoldable pub count_of : Text → JsMap Text ℕ → ℕ
count_of category m = elim (JsMap.get category m) [ none ↦ 0 | some n ↦ n ]

unfoldable pub note_drop : Text → RateLimiter → RateLimiter
unfolding count_of
note_drop category s = record s {
  dropped = JsMap.set category (count_of category s.dropped + 1) s.dropped;
}

-- The bucket as it stands at `now`: a new one is full, an old one is refilled.
unfoldable pub current : RateLimitConfig → ℕ → Option Bucket → Bucket
current config now none = record { tokens = config.burst * one; last_refill = now }
current config now (some b) = record {
  tokens = min (config.burst * one) (b.tokens + (now - b.last_refill) * config.rate_milli);
  last_refill = now;
}

unfoldable pub spend : Text → Text → Bucket → RateLimiter → Bool × RateLimiter
unfolding note_drop
spend category peer b s =
    if ltb b.tokens one
    then (
      false,
      note_drop category (record s { buckets = JsMap.set (key category peer) b s.buckets }),
    )
    else (
      true,
      record s {
        buckets = JsMap.set (key category peer) (record b { tokens = b.tokens - one }) s.buckets;
      },
    )

unfoldable pub allow : Text → Text → ℕ → RateLimiter → Bool × RateLimiter
unfolding spend note_drop
allow peer category now s = elim (JsMap.get category s.configs) [
  | none ↦ (false, note_drop category s)
  | some config ↦
      spend category peer (current config now (JsMap.get (key category peer) s.buckets)) s
]

unfoldable pub ends_with : Text → Text → Bool
ends_with suffix [] = suffix == []
ends_with suffix (c ∷ t) = suffix == c ∷ t || ends_with suffix t

pub forget_loop : Text → List Text → JsMap Text Bucket → JsMap Text Bucket
forget_loop peer [] m = m
forget_loop peer (k ∷ ks) m =
    forget_loop peer ks (if ends_with (0 ∷ peer) k then JsMap.delete k m else m)

unfoldable pub forget : Text → RateLimiter → RateLimiter
unfolding forget_loop
forget peer s = record s { buckets = forget_loop peer (JsMap.keys s.buckets) s.buckets }

-- `none` is `Infinity`.
pub tokens_for : Text → Text → RateLimiter → Option ℕ
tokens_for peer category s = elim (JsMap.get (key category peer) s.buckets) [
  | some b ↦ some b.tokens
  | none ↦ elim (JsMap.get category s.configs) [
    | some config ↦ some (config.burst * one)
    | none ↦ none
  ]
]

pub reset : RateLimiter → RateLimiter
reset s = record s { buckets = []; dropped = [] }

-- ===== src/RateLimiter/Level.antt =====
-- The tokens that a decision would find in a bucket, and how time and decisions change them.
use aether_web_lite.Prelude.{
  ℕ, ◌+◌, ◌-◌, ◌*◌, ◌≤◌, ◌≡◌, refl, sym, subst, Bool, true, false, Option, none, some, arith,
}
use aether_web_lite.Prelude.Text.{Text, text_eq}
use native.Mathlib.Nat.{mul-le-mul_right}
use aether_web_lite.JsMap
use aether_web_lite.JsMap.{JsMap}
use aether_web_lite.JsMap.Laws.{get-set_self}
use aether_web_lite.RateLimiter.{
  one, RateLimitConfig, Bucket, RateLimiter, key, note_drop, current, spend, allow,
}

-- The tokens that a decision at `now` would find.
unfoldable pub level : RateLimitConfig → ℕ → Text → RateLimiter → ℕ
level config now k s = (current config now (JsMap.get k s.buckets)).tokens

pub current-le-burst :
    (config : RateLimitConfig) (now : ℕ) (o : Option Bucket)
    → (current config now o).tokens ≤ config.burst * one
unfolding current
current-le-burst config now none = omega arith
current-le-burst config now (some b) = omega arith

mul_split : (a b c r : ℕ) → a ≤ b + c → a * r ≤ b * r + c * r
mul_split a b c r h = omega (arith, mul-le-mul_right r h)

-- Time adds at most the refill.
refill_rate : (l t t' r : ℕ) → t ≤ t' → (t' - l) * r ≤ (t - l) * r + (t' - t) * r
refill_rate l t t' r h = mul_split (t' - l) (t - l) (t' - t) r (omega arith)

pub current-later :
    (config : RateLimitConfig) (t t' : ℕ) (o : Option Bucket)
    → t ≤ t'
    → (current config t' o).tokens ≤ (current config t o).tokens + (t' - t) * config.rate_milli
unfolding current
current-later config t t' none h = omega arith
current-later config t t' (some b) h =
    omega (arith, refill_rate b.last_refill t t' config.rate_milli h)

abbrev stamp : ℕ → ℕ → Bucket
stamp n now = record { tokens = n; last_refill = now }

sub_self : (n : ℕ) → n - n ≡ 0
sub_self n = omega arith

-- A bucket that was just looked at is found as it was left.
current_again :
    (config : RateLimitConfig) (now n : ℕ)
    → n ≤ config.burst * one
    → (current config now (some (stamp n now))).tokens ≡ n
unfolding current
current_again config now n h = rw (sub_self now) (omega arith)

abbrev pub worth : Bool → ℕ
worth true = one
worth false = 0

spend-level :
    (peer category : Text) (config : RateLimitConfig) (now n : ℕ) (s : RateLimiter)
    → n ≤ config.burst * one
    → let r = spend category peer (stamp n now) s in
      level config now (key category peer) r.1 + worth r.0 ≡ n
unfolding level spend note_drop
spend-level peer category config now n s h = ground (
  arith,
  get-set_self (key category peer) (stamp n now) s.buckets,
  get-set_self (key category peer) (stamp (n - one) now) s.buckets,
  current_again config now n h,
  current_again config now (n - one),
)

current-stamp :
    (config : RateLimitConfig) (now : ℕ) (o : Option Bucket)
    → current config now o ≡ stamp (current config now o).tokens now
unfolding current
current-stamp config now none = refl
current-stamp config now (some b) = refl

allow_known :
    (peer category : Text) (config : RateLimitConfig) (now : ℕ) (s : RateLimiter)
    → JsMap.get category s.configs ≡ some config
    → allow peer category now s
      ≡ spend category peer (current config now (JsMap.get (key category peer) s.buckets)) s
unfolding allow
allow_known peer category config now s known = rw (known, allow)

-- A decision takes what it grants from the level.
pub allow-level :
    (peer category : Text) (config : RateLimitConfig) (now : ℕ) (s : RateLimiter)
    → JsMap.get category s.configs ≡ some config
    → level config now (key category peer) (allow peer category now s).1
        + worth (allow peer category now s).0
      ≡ level config now (key category peer) s
unfolding level
allow-level peer category config now s known =
    let o = JsMap.get (key category peer) s.buckets in
    let exact =
      spend-level peer category config now (current config now o).tokens s
        (current-le-burst config now o) in
    rw (allow_known peer category config now s known) (
      subst
        (λ b.
          level config now (key category peer) (spend category peer b s).1
            + worth (spend category peer b s).0
          ≡ (current config now o).tokens)
        (sym (current-stamp config now o)) exact)

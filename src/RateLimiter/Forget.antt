-- ===== src/RateLimiter/Forget.antt =====
-- What a decision changes: its own bucket and its own counter; and what forgetting a peer removes.
use aether_web_lite.Prelude.{
  ℕ, ◌+◌, ◌≡◌, false, none, List, [], ◌∷◌, arith, ◌==◌, eq_iff, if◌then◌else◌, not, includes, ◌&&◌,
  Bool-cases, Option-cases, ltb, inl, inr,
}
use aether_web_lite.Prelude.Text.{Text, text_eq}
use aether_web_lite.JsMap
use aether_web_lite.JsMap.{JsMap}
use aether_web_lite.JsMap.Laws.{get-set, get-delete, has-get, includes-keys}
use aether_web_lite.RateLimiter.{
  one, Bucket, RateLimiter, key, count_of, note_drop, current, spend, allow, ends_with, forget,
  forget_loop,
}
use aether_web_lite.RateLimiter.Keys.{Plain, key-injective, ends_with-key}

-- The loop deletes the keys that end in the separator and the peer, and nothing else.
get-forget_loop :
    (peer k : Text) (ks : List Text) (m : JsMap Text Bucket)
    → JsMap.get k (forget_loop peer ks m)
      ≡ (if ends_with (0 ∷ peer) k && includes k ks then none else JsMap.get k m)
unfolding forget_loop
get-forget_loop peer k [] m = ground arith
get-forget_loop peer k (j ∷ ks) m = ground (
  arith,
  get-forget_loop peer k ks m,
  get-forget_loop peer k ks (JsMap.delete j m),
  get-delete j k m,
  eq_iff j k,
)

-- `forget` removes every bucket of the peer, and keeps every bucket of another peer, if neither
-- name holds the separator.
pub get-forget :
    (peer category q : Text) (s : RateLimiter)
    → Plain peer
    → Plain q
    → JsMap.get (key category q) (forget peer s).buckets
      ≡ (if peer == q then none else JsMap.get (key category q) s.buckets)
unfolding forget
get-forget peer category q s hp hq =
    rw
      (
        get-forget_loop peer (key category q) (JsMap.keys s.buckets) s.buckets,
        ends_with-key category peer q hp hq,
        includes-keys (key category q) s.buckets,
      )
      (ground (arith, has-get (key category q) s.buckets))

count_of-note_drop :
    (c category : Text) (s : RateLimiter)
    → count_of c (note_drop category s).dropped
      ≡ (if category == c then count_of c s.dropped + 1 else count_of c s.dropped)
unfolding count_of note_drop
count_of-note_drop c category s =
    ground
      (arith, get-set category c (count_of category s.dropped + 1) s.dropped, eq_iff category c)

-- A refusal is counted once, in its own category; an acceptance is not counted.
pub allow_counts :
    (peer category c : Text) (now : ℕ) (s : RateLimiter)
    → count_of c (allow peer category now s).1.dropped ≡ (
        if category == c && not (allow peer category now s).0
        then count_of c s.dropped + 1
        else count_of c s.dropped)
unfolding allow
allow_counts peer category c now s =
    ground (arith, count_of-note_drop c category s, eq_iff category c)

get-spend :
    (peer category k : Text) (b : Bucket) (s : RateLimiter)
    → (key category peer == k) ≡ false
    → JsMap.get k (spend category peer b s).1.buckets ≡ JsMap.get k s.buckets
unfolding spend note_drop
get-spend peer category k b s apart = elim (Bool-cases (ltb b.tokens one)) [
  | inl few ↦ rw (few, get-set, apart)
  | inr enough ↦ rw (enough, get-set, apart)
]

pub keys_apart :
    (peer category q d : Text)
    → Plain category
    → Plain d
    → (category == d && peer == q) ≡ false
    → (key category peer == key d q) ≡ false
keys_apart peer category q d hc hd apart = ground (
  arith,
  key-injective category d peer q hc hd,
  eq_iff category d,
  eq_iff peer q,
  eq_iff (key category peer) (key d q),
)

-- A decision for one peer and category leaves the bucket of any other pair as it was, if no
-- category holds the separator.
pub allow_isolated :
    (peer category q d : Text) (now : ℕ) (s : RateLimiter)
    → Plain category
    → Plain d
    → (category == d && peer == q) ≡ false
    → JsMap.get (key d q) (allow peer category now s).1.buckets ≡ JsMap.get (key d q) s.buckets
unfolding allow note_drop
allow_isolated peer category q d now s hc hd apart =
    elim (Option-cases (JsMap.get category s.configs)) [
      | inl unknown ↦ rw (unknown, allow)
      | inr (config, known) ↦
          rw (known, allow)
            (get-spend peer category (key d q)
              (current config now (JsMap.get (key category peer) s.buckets)) s
              (keys_apart peer category q d hc hd apart))
    ]

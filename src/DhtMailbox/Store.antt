-- ===== src/DhtMailbox/Store.antt =====
-- What the store holds of a topic after a write.
use aether_web_lite.Prelude.{
  ℕ, zero, suc, ◌≡◌, refl, subst, false, List, [], ◌∷◌, ◌++◌, arith, length, take, includes, ◌==◌,
  eq_iff, if◌then◌else◌, Bool-cases, Option-cases, inl, inr, nat_beq,
}
use mathlib.Core.List.{append-nil}
use aether_web_lite.Prelude.Text.{Text, text_eq}
use aether_web_lite.JsMap
use aether_web_lite.JsMap.{JsMap}
use aether_web_lite.JsMap.Laws.{get-set}
use aether_web_lite.Bytes.{Bytes}
use aether_web_lite.PowPolicy.{to_hex}
use aether_web_lite.DhtMailbox.{StoredTopic, entries_of, keys_of, absent, store_put, fresh}

-- No entry is among the first ones, and none is repeated.
abbrev pub New : List Text → List Bytes → Type 0
New have [] = Unit
New have (e ∷ es) = (includes (to_hex e) have ≡ false) × New (to_hex e ∷ have) es

pub fresh-New : (have : List Text) (es : List Bytes) → New have (fresh have es)
unfolding fresh
fresh-New have [] = tt
fresh-New have (e ∷ es) = ground (arith, fresh-New have es, fresh-New (to_hex e ∷ have) es)

pub take-New : (n : ℕ) (have : List Text) (es : List Bytes) → New have es → New have (take n es)
take-New zero have es h = tt
take-New (suc n) have [] h = tt
take-New (suc n) have (e ∷ es) h = (h.0, take-New n (to_hex e ∷ have) es h.1)

-- Fewer keys are had.
pub weaken-New :
    (have more : List Text) (es : List Bytes)
    → ((k : Text) → includes k more ≡ false → includes k have ≡ false)
    → New more es
    → New have es
weaken-New have more [] w h = tt
weaken-New have more (e ∷ es) w h = (
  w (to_hex e) h.0,
  weaken-New (to_hex e ∷ have) (to_hex e ∷ more) es (λ k n. ground (arith, n, w k)) h.1,
)

pub absent_all : (have : List Text) (es : List Bytes) → New have es → absent have es ≡ es
unfolding absent
absent_all have [] h = refl
absent_all have (e ∷ es) h = ground (
  arith,
  h.0,
  absent_all have es (weaken-New have (to_hex e ∷ have) es (λ k n. ground (arith, n)) h.1),
)

append_none : (xs ys : List Bytes) → length ys ≡ 0 → xs ++ ys ≡ xs
append_none xs [] h = append-nil xs
append_none xs (y ∷ ys) h = absurd (omega arith)

-- After entries that are new are written, the topic holds them behind those that it held, and no
-- other topic has changed.
pub get-store_put :
    (topic other : Text) (new : List Bytes) (now : ℕ) (store : JsMap Text StoredTopic)
    → New (keys_of (entries_of (JsMap.get topic store))) new
    → entries_of (JsMap.get other (store_put topic new now store)) ≡ (
        if topic == other
        then entries_of (JsMap.get topic store) ++ new
        else entries_of (JsMap.get other store))
unfolding store_put
get-store_put topic other new now store h = elim (Option-cases (JsMap.get topic store)) [
  | inl e ↦
      let written : StoredTopic = record { entries = new; last_updated = now } in
      ground (arith, get-set topic other written store, eq_iff topic other)
  | inr (old, e) ↦
      let all : absent (keys_of old.entries) new ≡ new =
        absent_all (keys_of old.entries) new (subst (λ o. New (keys_of (entries_of o)) new) e h) in
      let written : StoredTopic = record { entries = old.entries ++ new; last_updated = now } in
      elim (Bool-cases (nat_beq (length new) 0)) [
        | inl none_new ↦
            rw (store_put, e, all, none_new)
              (ground (arith, e, eq_iff topic other, append_none old.entries new (ground arith)))
        | inr some_new ↦
            rw (store_put, e, all, some_new)
              (ground (arith, e, get-set topic other written store, eq_iff topic other))
      ]
]

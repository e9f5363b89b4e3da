-- ===== src/SeenCache/Remembered.antt =====
-- An id stays in the cache until its time is over, however often the timer cleans it.
use aether_web_lite.Prelude.{
  ℕ, ◌+◌, ◌≤◌, ◌≡◌, refl, ◌∙◌, true, false, some, List, [], ◌∷◌, arith, ◌==◌, eq_iff, Bool-cases,
  inl, inr, All,
}
use aether_web_lite.Prelude.Text.{Text, text_eq}
use aether_web_lite.JsMap
use aether_web_lite.JsMap.{Distinct}
use aether_web_lite.JsMap.Laws.{get-delete, get-set_self, Distinct-delete}
use aether_web_lite.SeenCache.{SeenCache, ttl_ms, expired, add, cleanup, cleanup_loop}
use aether_web_lite.SeenCache.Bounds.{IsValid, set_head, keys_apart, evict-first}

-- The timer fires at these times.
abbrev pub cleanups : List ℕ → SeenCache → SeenCache
cleanups [] c = c
cleanups (now ∷ times) c = cleanups times (cleanup now c)

-- No entry under the id is expired.
abbrev Fresh : Text → ℕ → SeenCache → Type 0
Fresh id now [] = Unit
Fresh id now ((k, t) ∷ c) = (((k == id) ≡ true) → expired now t ≡ false) × Fresh id now c

absent-Fresh : (id : Text) (now : ℕ) (c : SeenCache) → JsMap.has id c ≡ false → Fresh id now c
unfolding JsMap.has
absent-Fresh id now [] h = tt
absent-Fresh id now ((k, t) ∷ c) h = (λ e. ground arith, absent-Fresh id now c (ground arith))

found-Fresh :
    (id : Text) (now t : ℕ) (c : SeenCache)
    → Distinct c
    → JsMap.get id c ≡ some t
    → expired now t ≡ false
    → Fresh id now c
unfolding JsMap.get
found-Fresh id now t [] d h f = tt
found-Fresh id now t ((k, u) ∷ c) d h f = elim (Bool-cases (k == id)) [
  | inl same ↦ (λ e. ground arith, absent-Fresh id now c (ground (arith, d.0, eq_iff k id)))
  | inr other ↦ (λ e. cc, found-Fresh id now t c d.1 (ground arith) f)
]

get-cleanup_loop :
    (id : Text) (now : ℕ) (es c : SeenCache)
    → Fresh id now es
    → JsMap.get id (cleanup_loop now es c) ≡ JsMap.get id c
unfolding cleanup_loop
get-cleanup_loop id now [] c f = refl
get-cleanup_loop id now ((k, t) ∷ es) c f =
    ground (arith, f.0, get-cleanup_loop id now es (JsMap.delete k c) f.1, get-delete k id c)

Distinct-cleanup_loop : (now : ℕ) (es c : SeenCache) → Distinct c → Distinct (cleanup_loop now es c)
unfolding cleanup_loop
Distinct-cleanup_loop now [] c d = d
Distinct-cleanup_loop now ((k, t) ∷ es) c d =
    ground (arith, d, Distinct-cleanup_loop now es (JsMap.delete k c) (Distinct-delete k c d))

-- The timer does not forget an id before its time is over.
pub get-cleanups :
    (id : Text) (t : ℕ) (times : List ℕ) (c : SeenCache)
    → All (λ now. now ≤ t + ttl_ms) times
    → Distinct c
    → JsMap.get id c ≡ some t
    → JsMap.get id (cleanups times c) ≡ some t
unfolding cleanup
get-cleanups id t [] c early d h = h
get-cleanups id t (now ∷ times) c early d h =
    get-cleanups id t times (cleanup_loop now c c) early.1 (Distinct-cleanup_loop now c c d)
      (get-cleanup_loop id now c c (found-Fresh id now t c d h (ground arith)) ∙ h)

get_behind :
    (id k : Text) (now u : ℕ) (c : SeenCache)
    → JsMap.has id ((k, u) ∷ c) ≡ false
    → JsMap.get id ((k, u) ∷ JsMap.set id now c) ≡ some now
unfolding JsMap.get JsMap.has
get_behind id k now u c h = ground (arith, get-set_self id now c)

-- An id that is new is recorded with the time, even when the oldest one makes room for it.
pub get-add :
    (id : Text) (now : ℕ) (c : SeenCache)
    → IsValid c
    → JsMap.has id c ≡ false
    → JsMap.get id (add id now c) ≡ some now
unfolding add
get-add id now [] v h = unfold JsMap.has JsMap.set JsMap.get in ground (arith, eq_iff id id)
get-add id now ((k, u) ∷ c) v h =
    rw (h, set_head id k now u c h)
      (ground (
        arith,
        evict-first k u (JsMap.set id now c) (keys_apart id k now u c h v) v.named.0,
        get-set_self id now c,
        get_behind id k now u c h,
      ))

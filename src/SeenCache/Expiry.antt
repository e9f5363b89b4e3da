-- ===== src/SeenCache/Expiry.antt =====
-- `cleanup` stops at the first fresh entry. While the clock does not go back, the entries stand
-- in the order of their times, and what it leaves is what a full scan would leave.
use aether_web_lite.Prelude.{
  ℕ, ◌≤◌, ◌≡◌, refl, inl, inr, false, List, [], ◌∷◌, ◌++◌, arith, not, Bool-cases, keep_if,
}
use aether_web_lite.Prelude.Text.{Text, text_eq}
use aether_web_lite.JsMap
use aether_web_lite.JsMap.{Distinct}
use aether_web_lite.JsMap.Order.{set_new, delete_first}
use aether_web_lite.SeenCache.Bounds.{Names, run_bounded}
use aether_web_lite.SeenCache.{
  SeenCache, empty, add, expired, cleanup, cleanup_loop, evict_oldest, Op, adds, cleans, step, run,
}

-- The times do not fall along the map and lie between `lo` and `now`.
abbrev pub Ordered : ℕ → ℕ → SeenCache → Type 0
Ordered lo now [] = lo ≤ now
Ordered lo now ((k, t) ∷ c) = (lo ≤ t) × Ordered t now c

pub Ordered-span : (lo now : ℕ) (c : SeenCache) → Ordered lo now c → lo ≤ now
Ordered-span lo now [] o = o
Ordered-span lo now ((k, t) ∷ c) o = omega (arith, Ordered-span t now c o.1)

Ordered-later :
    (lo now later : ℕ) (c : SeenCache) → now ≤ later → Ordered lo now c → Ordered lo later c
Ordered-later lo now later [] h o = omega arith
Ordered-later lo now later ((k, t) ∷ c) h o = (o.0, Ordered-later t now later c h o.1)

Ordered-lower :
    (lo lower now : ℕ) (c : SeenCache) → lower ≤ lo → Ordered lo now c → Ordered lower now c
Ordered-lower lo lower now [] h o = omega arith
Ordered-lower lo lower now ((k, t) ∷ c) h o = (omega arith, o.1)

Ordered-append :
    (lo now : ℕ) (id : Text) (c : SeenCache)
    → Ordered lo now c
    → Ordered lo now (c ++ (id, now) ∷ [])
Ordered-append lo now id [] o = (o, omega arith)
Ordered-append lo now id ((k, t) ∷ c) o = (o.0, Ordered-append t now id c o.1)

Ordered-delete :
    (lo now : ℕ) (id : Text) (c : SeenCache) → Ordered lo now c → Ordered lo now (JsMap.delete id c)
unfolding JsMap.delete
Ordered-delete lo now id [] o = o
Ordered-delete lo now id ((k, t) ∷ c) o =
    ground (arith, Ordered-delete t now id c o.1, Ordered-lower t lo now (JsMap.delete id c) o.0)

Ordered-evict : (lo now : ℕ) (c : SeenCache) → Ordered lo now c → Ordered lo now (evict_oldest c)
unfolding evict_oldest
Ordered-evict lo now [] o = o
Ordered-evict lo now ((k, t) ∷ c) o = ground (arith, Ordered-delete lo now k ((k, t) ∷ c) o)

-- Entries behind a fresh one are fresh.
fresh_behind :
    (lo now : ℕ) (c : SeenCache)
    → Ordered lo now c
    → expired now lo ≡ false
    → keep_if (λ e. not (expired now (e.1))) c ≡ c
fresh_behind lo now [] o h = refl
fresh_behind lo now ((k, t) ∷ c) o h =
    let still : expired now t ≡ false = ground arith in rw (still, fresh_behind t now c o.1 still)

cleanup-eq-scan :
    (lo now : ℕ) (c : SeenCache)
    → Distinct c
    → Ordered lo now c
    → cleanup now c ≡ keep_if (λ e. not (expired now (e.1))) c
unfolding cleanup cleanup_loop
cleanup-eq-scan lo now [] d o = refl
cleanup-eq-scan lo now ((k, t) ∷ c) d o = elim (Bool-cases (expired now t)) [
  | inl old ↦ rw (old, delete_first k t c d) (cleanup-eq-scan t now c d.1 o.1)
  | inr fresh ↦ rw (fresh, fresh_behind t now c o.1 fresh)
]

Ordered-loop :
    (lo now clock : ℕ) (es c : SeenCache)
    → Ordered lo clock c
    → Ordered lo clock (cleanup_loop now es c)
unfolding cleanup_loop
Ordered-loop lo now clock [] c o = o
Ordered-loop lo now clock ((k, t) ∷ es) c o = ground (
  arith,
  Ordered-delete lo clock k c o,
  Ordered-loop lo now clock es (JsMap.delete k c) (Ordered-delete lo clock k c o),
)

Ordered-add :
    (lo now : ℕ) (id : Text) (c : SeenCache) → Ordered lo now c → Ordered lo now (add id now c)
unfolding add
Ordered-add lo now id c o = elim (Bool-cases (JsMap.has id c)) [
  | inl old ↦ rw old o
  | inr fresh ↦
      rw (fresh, set_new id now c fresh)
        (ground (
          arith,
          Ordered-append lo now id c o,
          Ordered-evict lo now (c ++ (id, now) ∷ []) (Ordered-append lo now id c o),
        ))
]

-- The times of a history, and the present, do not go back.
abbrev pub Rising : ℕ → List Op → ℕ → Type 0
Rising clock [] now = clock ≤ now
Rising clock (adds id t ∷ ops) now = (clock ≤ t) × Rising t ops now
Rising clock (cleans t ∷ ops) now = (clock ≤ t) × Rising t ops now

Ordered-run :
    (clock now : ℕ) (c : SeenCache) (ops : List Op)
    → Rising clock ops now
    → Ordered 0 clock c
    → Ordered 0 now (run c ops)
unfolding run step cleanup
Ordered-run clock now c [] r o = Ordered-later 0 clock now c r o
Ordered-run clock now c (adds id t ∷ ops) r o =
    Ordered-run t now (add id t c) ops r.1 (Ordered-add 0 t id c (Ordered-later 0 clock t c r.0 o))
Ordered-run clock now c (cleans t ∷ ops) r o =
    Ordered-run t now (cleanup_loop t c c) ops r.1
      (Ordered-loop 0 t t c c (Ordered-later 0 clock t c r.0 o))

-- After any history of additions of non-empty ids and cleanups on a clock that does not go back,
-- the cleanup that stops at the first fresh entry leaves what a scan of all entries would leave:
-- those, in order, that are not older than the limit.
pub cleanup_complete :
    (ops : List Op) (now : ℕ)
    → Names ops
    → Rising 0 ops now
    → cleanup now (run empty ops) ≡ keep_if (λ e. not (expired now (e.1))) (run empty ops)
cleanup_complete ops now names rising =
    cleanup-eq-scan 0 now (run empty ops) (run_bounded ops names).1
      (Ordered-run 0 now empty ops rising (omega arith))

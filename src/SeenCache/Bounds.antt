-- ===== src/SeenCache/Bounds.antt =====
-- The cache never grows past its limit, and `add` forgets at most the oldest id.
use aether_web_lite.Prelude.{
  ℕ, ◌+◌, ◌≤◌, ◌≡◌, refl, inl, inr, Bool, true, false, List, [], ◌∷◌, arith, ◌==◌, ◌&&◌, not, leb,
  eq_iff, if◌then◌else◌, Bool-cases, All,
}
use aether_web_lite.Prelude.Text.{Text, text_eq, truthy}
use aether_web_lite.JsMap
use aether_web_lite.JsMap.{Distinct}
use aether_web_lite.JsMap.Laws.{size-set, has-set, Distinct-set, Distinct-delete, size-delete-le}
use aether_web_lite.JsMap.Order.{delete_first}
use aether_web_lite.SeenCache.{
  SeenCache, max_size, empty, has, add, cleanup, cleanup_loop, evict_oldest, Op, adds, cleans, step,
  run,
}

-- No id is the empty string.
abbrev pub Named : SeenCache → Type 0
Named = All (λ e. truthy (e.0) ≡ true)

pub record IsValid (c : SeenCache) : Type 0 where
  pub bounded : JsMap.size c ≤ max_size
  pub distinct : Distinct c
  pub named : Named c

Named-set :
    (id : Text) (now : ℕ) (c : SeenCache) → truthy id ≡ true → Named c → Named (JsMap.set id now c)
unfolding JsMap.set
Named-set id now [] t n = (t, tt)
Named-set id now ((k, v) ∷ c) t n = ground (arith, Named-set id now c t n.1)

Named-delete : (id : Text) (c : SeenCache) → Named c → Named (JsMap.delete id c)
unfolding JsMap.delete
Named-delete id [] n = tt
Named-delete id ((k, v) ∷ c) n = ground (arith, Named-delete id c n.1)

pub evict-first :
    (id : Text) (v : ℕ) (c : SeenCache)
    → Distinct ((id, v) ∷ c)
    → truthy id ≡ true
    → evict_oldest ((id, v) ∷ c) ≡ c
unfolding evict_oldest
evict-first id v c d t = rw t (delete_first id v c d)

evict-IsValid :
    (c : SeenCache) → Distinct c → Named c → JsMap.size c ≤ max_size + 1 → IsValid (evict_oldest c)
unfolding evict_oldest
evict-IsValid [] d n b = record { bounded = omega arith; distinct = tt; named = tt }
evict-IsValid ((id, v) ∷ c) d n b =
    rw (evict-first id v c d n.0) (record { bounded = omega arith; distinct = d.1; named = n.1 })

pub add-IsValid :
    (id : Text) (now : ℕ) (c : SeenCache) → truthy id ≡ true → IsValid c → IsValid (add id now c)
unfolding add
add-IsValid id now c t v = ground (
  arith,
  size-set id now c,
  evict-IsValid (JsMap.set id now c) (Distinct-set id now c v.distinct)
      (Named-set id now c t v.named),
  Distinct-set id now c v.distinct,
  Named-set id now c t v.named,
)

loop-IsValid : (now : ℕ) (es c : SeenCache) → IsValid c → IsValid (cleanup_loop now es c)
unfolding cleanup_loop
loop-IsValid now [] c v = v
loop-IsValid now ((id, t) ∷ es) c v =
    let smaller : IsValid (JsMap.delete id c) = record {
      bounded = omega (arith, size-delete-le id c);
      distinct = Distinct-delete id c v.distinct;
      named = Named-delete id c v.named;
    } in
    let rest = loop-IsValid now es (JsMap.delete id c) smaller in ground arith

-- The ids that a history adds are not empty.
abbrev pub Names : List Op → Type 0
Names [] = Unit
Names (adds id now ∷ ops) = (truthy id ≡ true) × Names ops
Names (cleans now ∷ ops) = Names ops

run-IsValid : (c : SeenCache) (ops : List Op) → Names ops → IsValid c → IsValid (run c ops)
unfolding run step cleanup
run-IsValid c [] n v = v
run-IsValid c (adds id now ∷ ops) n v =
    run-IsValid (add id now c) ops n.1 (add-IsValid id now c n.0 v)
run-IsValid c (cleans now ∷ ops) n v =
    run-IsValid (cleanup_loop now c c) ops n (loop-IsValid now c c v)

pub empty-IsValid : IsValid empty
empty-IsValid = record { bounded = omega arith; distinct = tt; named = tt }

-- From the empty cache, any history of additions of non-empty ids and of cleanups, at any times,
-- leaves at most 50,000 ids, each recorded once.
pub run_bounded :
    (ops : List Op) → Names ops → (JsMap.size (run empty ops) ≤ max_size) × Distinct (run empty ops)
run_bounded ops n = let v = run-IsValid empty ops n empty-IsValid in (v.bounded, v.distinct)

has-get_key : (k j : Text) (c : SeenCache) → JsMap.has k c ≡ false → k ≡ j → JsMap.has j c ≡ false
has-get_key k j c h e = rw (← e) h

pub set_head :
    (id k : Text) (now u : ℕ) (c : SeenCache)
    → JsMap.has id ((k, u) ∷ c) ≡ false
    → JsMap.set id now ((k, u) ∷ c) ≡ (k, u) ∷ JsMap.set id now c
unfolding JsMap.has JsMap.set
set_head id k now u c h = ground arith

has-cons :
    (id k : Text) (u : ℕ) (c : SeenCache)
    → JsMap.has id ((k, u) ∷ c) ≡ (if k == id then true else JsMap.has id c)
unfolding JsMap.has
has-cons id k u c = refl

has-tail :
    (id k : Text) (u : ℕ) (c : SeenCache)
    → JsMap.has id ((k, u) ∷ c) ≡ false
    → JsMap.has id c ≡ false
unfolding JsMap.has
has-tail id k u c h = ground arith

pub keys_apart :
    (id k : Text) (now u : ℕ) (c : SeenCache)
    → JsMap.has id ((k, u) ∷ c) ≡ false
    → IsValid ((k, u) ∷ c)
    → Distinct ((k, u) ∷ JsMap.set id now c)
keys_apart id k now u c h v = ground (
  arith,
  has-cons id k u c,
  has-set id k now c,
  Distinct-set id now c v.distinct.1,
  eq_iff id k,
  eq_iff k id,
)

-- The first id of the map is the oldest.
abbrev pub is_oldest : Text → SeenCache → Bool
is_oldest j [] = false
is_oldest j ((k, t) ∷ c) = k == j

-- With no empty id in the cache: after `add` the added id is present, and another id is present
-- exactly if it was before, unless the added id was new, the cache full and that other id its oldest.
pub has-add :
    (id j : Text) (now : ℕ) (c : SeenCache)
    → truthy id ≡ true
    → IsValid c
    → has j (add id now c) ≡ (
        if id == j
        then true
        else if not (JsMap.has id c) && leb max_size (JsMap.size c) && is_oldest j c
        then false
        else has j c)
unfolding has add
has-add id j now [] t v = unfold JsMap.has JsMap.set in ground (arith, eq_iff id j)
has-add id j now ((k, u) ∷ c) t v = elim (Bool-cases (JsMap.has id ((k, u) ∷ c))) [
  | inl old ↦ rw old (unfold JsMap.has in ground (arith, eq_iff id j))
  | inr fresh ↦
      rw (fresh, set_head id k now u c fresh)
        (ground (
          arith,
          size-set id now c,
          has-tail id k u c,
          evict-first k u (JsMap.set id now c) (keys_apart id k now u c fresh v) v.named.0,
          has-set id j now c,
          has-cons j k u c,
          has-cons j k u (JsMap.set id now c),
          eq_iff k j,
          eq_iff id j,
          has-get_key k j c v.distinct.0,
        ))
]

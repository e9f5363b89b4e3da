-- ===== src/SeenCache.antt =====
-- packages/core/src/network/gossip/SeenCache.ts: which ids were seen, and when. Time is an
-- argument. `now - insertedAt` stops at 0 here; below 0 the source's test fails in the same way.
pub mod Bounds
pub mod Expiry
pub mod Remembered
pub mod Tests
use aether_web_lite.Prelude.{
  ℕ, ◌+◌, ◌-◌, ◌*◌, ◌≡◌, Bool, Option, none, some, List, [], ◌∷◌, ltb, if◌then◌else◌,
}
use aether_web_lite.Prelude.Text.{Text, text_eq, truthy}
use aether_web_lite.JsMap
use aether_web_lite.JsMap.{JsMap}

abbrev pub SeenCache : Type 0
SeenCache = JsMap Text ℕ

abbrev pub max_size : ℕ
max_size = 50000

abbrev pub ttl_ms : ℕ
ttl_ms = 15 * 60 * 1000

abbrev pub empty : SeenCache
empty = []

unfoldable pub has : Text → SeenCache → Bool
has id c = JsMap.has id c

-- `if (oldestKey) delete`: an empty key is not removed.
unfoldable pub evict_oldest : SeenCache → SeenCache
evict_oldest c = elim (JsMap.first_key? c) [
  | none ↦ c
  | some oldest ↦ if truthy oldest then JsMap.delete oldest c else c
]

unfoldable pub add : Text → ℕ → SeenCache → SeenCache
unfolding evict_oldest
add id now c =
    let added = JsMap.set id now c in
    if JsMap.has id c
    then c
    else if ltb max_size (JsMap.size added)
    then evict_oldest added
    else added

abbrev pub expired : ℕ → ℕ → Bool
expired now inserted_at = ltb ttl_ms (now - inserted_at)

-- The loop over the entries; `break` at the first that is still fresh.
cleanup_loop : ℕ → SeenCache → SeenCache → SeenCache
cleanup_loop now [] c = c
cleanup_loop now ((id, inserted_at) ∷ rest) c =
    let next = cleanup_loop now rest (JsMap.delete id c) in
    if expired now inserted_at then next else c

unfoldable pub cleanup : ℕ → SeenCache → SeenCache
unfolding cleanup_loop
cleanup now c = cleanup_loop now c c

pub data Op : Type 0 where
  adds : Text → ℕ → Op
  cleans : ℕ → Op

pub step : SeenCache → Op → SeenCache
step c (adds id now) = add id now c
step c (cleans now) = cleanup now c

pub run : SeenCache → List Op → SeenCache
run c [] = c
run c (op ∷ ops) = run (step c op) ops

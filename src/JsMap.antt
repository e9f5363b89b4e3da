-- ===== src/JsMap.antt =====
-- JavaScript's `Map` and `Set`: entries in the order of insertion, one for each key. Replacing
-- the value of a key keeps its place; iteration and `keys().next()` see the oldest entry first.
pub mod Laws
pub mod Order
use aether_web_lite.Prelude.{
  ℕ, ◌≡◌, Bool, false, ◌&&◌, Option, none, some, List, [], ◌∷◌, Key, ◌==◌, if◌then◌else◌, is_some,
  length, any_of, not,
}

abbrev pub JsMap {ℓ} : Type ℓ → Type ℓ → Type ℓ
JsMap K V = List (K × V)

module _ {ℓ} {K V : Type ℓ} where
  abbrev pub empty : JsMap K V
  empty = []

  abbrev pub size : JsMap K V → ℕ
  size m = length m

  abbrev pub keys : JsMap K V → List K
  keys [] = []
  keys ((k, v) ∷ m) = k ∷ keys m

  abbrev pub values : JsMap K V → List V
  values [] = []
  values ((k, v) ∷ m) = v ∷ values m

  -- m.keys().next().value
  abbrev pub first_key? : JsMap K V → Option K
  first_key? [] = none
  first_key? ((k, v) ∷ m) = some k

module _ {ℓ} {K V : Type ℓ} ⦃eq : Key K⦄ where
  unfoldable pub get : K → JsMap K V → Option V
  get k [] = none
  get k ((j, v) ∷ m) = if j == k then some v else get k m

  unfoldable pub has : K → JsMap K V → Bool
  has k [] = false
  has k ((j, v) ∷ m) = if j == k then Bool.true else has k m

  unfoldable pub set : K → V → JsMap K V → JsMap K V
  set k v [] = (k, v) ∷ []
  set k v ((j, w) ∷ m) = if j == k then (j, v) ∷ m else (j, w) ∷ set k v m

  unfoldable pub delete : K → JsMap K V → JsMap K V
  delete k [] = []
  delete k ((j, v) ∷ m) = let rest = delete k m in if j == k then rest else (j, v) ∷ rest

  -- One entry for each key.
  abbrev pub Distinct : JsMap K V → Type 0
  Distinct [] = Unit
  Distinct ((k, v) ∷ m) = (has k m ≡ false) × Distinct m

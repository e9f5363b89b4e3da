-- ===== src/JsMap/Laws.antt =====
-- What `get` and `has` see after `set` and `delete`, and how the size changes.
use aether_web_lite.Prelude.{
  ◌+◌, ◌≤◌, ◌≡◌, refl, true, false, none, some, [], ◌∷◌, arith, Key, ◌==◌, eq_iff, eq_self,
  if◌then◌else◌, is_some, includes,
}
use aether_web_lite.JsMap.{JsMap, keys, get, has, set, delete, size, Distinct}

module _ {ℓ} {K V : Type ℓ} ⦃eq : Key K⦄ where
  pub has-get : (k : K) (m : JsMap K V) → has k m ≡ is_some (get k m)
  unfolding has get
  has-get k [] = refl
  has-get k ((j, v) ∷ m) = ground (arith, has-get k m)

  pub includes-keys : (k : K) (m : JsMap K V) → includes k (keys m) ≡ has k m
  unfolding has
  includes-keys k [] = refl
  includes-keys k ((j, v) ∷ m) = ground (arith, includes-keys k m)

  pub get-set :
      (k j : K) (v : V) (m : JsMap K V) → get j (set k v m) ≡ (if k == j then some v else get j m)
  unfolding get set
  get-set k j v [] = refl
  get-set k j v ((i, w) ∷ m) = ground (arith, get-set k j v m, eq_iff k j, eq_iff i k, eq_iff i j)

  pub has-set :
      (k j : K) (v : V) (m : JsMap K V) → has j (set k v m) ≡ (if k == j then true else has j m)
  unfolding has set
  has-set k j v [] = refl
  has-set k j v ((i, w) ∷ m) = ground (arith, has-set k j v m, eq_iff k j, eq_iff i k, eq_iff i j)

  pub get-delete :
      (k j : K) (m : JsMap K V) → get j (delete k m) ≡ (if k == j then none else get j m)
  unfolding get delete
  get-delete k j [] = ground arith
  get-delete k j ((i, w) ∷ m) = ground (arith, get-delete k j m, eq_iff k j, eq_iff i k, eq_iff i j)

  pub has-delete :
      (k j : K) (m : JsMap K V) → has j (delete k m) ≡ (if k == j then false else has j m)
  unfolding has delete
  has-delete k j [] = ground arith
  has-delete k j ((i, w) ∷ m) = ground (arith, has-delete k j m, eq_iff k j, eq_iff i k, eq_iff i j)

  pub size-set :
      (k : K) (v : V) (m : JsMap K V) → size (set k v m) ≡ (if has k m then size m else size m + 1)
  unfolding has set
  size-set k v [] = omega arith
  size-set k v ((i, w) ∷ m) = ground (arith, size-set k v m)

  pub size-delete-le : (k : K) (m : JsMap K V) → size (delete k m) ≤ size m
  unfolding delete
  size-delete-le k [] = omega arith
  size-delete-le k ((i, w) ∷ m) = ground (arith, size-delete-le k m)

  pub delete_absent : (k : K) (m : JsMap K V) → has k m ≡ false → delete k m ≡ m
  unfolding has delete
  delete_absent k [] h = refl
  delete_absent k ((i, w) ∷ m) h = ground (arith, delete_absent k m)

  pub Distinct-set : (k : K) (v : V) (m : JsMap K V) → Distinct m → Distinct (set k v m)
  unfolding has set
  Distinct-set k v [] d = (refl, tt)
  Distinct-set k v ((i, w) ∷ m) d =
      ground (arith, Distinct-set k v m d.1, has-set k i v m, eq_iff k i, eq_iff i k)

  pub Distinct-delete : (k : K) (m : JsMap K V) → Distinct m → Distinct (delete k m)
  unfolding delete
  Distinct-delete k [] d = tt
  Distinct-delete k ((i, w) ∷ m) d = ground (arith, Distinct-delete k m d.1, has-delete k i m)

  -- A present key is one entry.
  pub size-delete :
      (k : K) (m : JsMap K V) → Distinct m → has k m ≡ true → size (delete k m) + 1 ≡ size m
  unfolding has delete
  size-delete k [] d h = cc
  size-delete k ((i, w) ∷ m) d h =
      ground (arith, size-delete k m d.1, delete_absent k m, eq_iff i k)

module _ {ℓ} {K V : Type ℓ} ⦃eq : Key K⦄ where
  pub get-set_self : (k : K) (v : V) (m : JsMap K V) → get k (set k v m) ≡ some v
  get-set_self k v m = rw (get-set, eq_self k)

  pub get-set_ne :
      (k j : K) (v : V) (m : JsMap K V) → (k == j) ≡ false → get j (set k v m) ≡ get j m
  get-set_ne k j v m h = rw (get-set, h)

pub ruleset map_laws = (get-set, has-set, get-delete, has-delete)

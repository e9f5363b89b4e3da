-- ===== src/JsMap/Order.antt =====
-- The order of the entries: a new key goes to the end, and the first key is the oldest.
use aether_web_lite.Prelude.{◌≡◌, refl, false, [], ◌∷◌, ◌++◌, arith, Key, eq_self}
use aether_web_lite.JsMap.{JsMap, has, set, delete, Distinct}
use aether_web_lite.JsMap.Laws.{delete_absent}

module _ {ℓ} {K V : Type ℓ} ⦃eq : Key K⦄ where
  pub set_new : (k : K) (v : V) (m : JsMap K V) → has k m ≡ false → set k v m ≡ m ++ (k, v) ∷ []
  unfolding has set
  set_new k v [] h = refl
  set_new k v ((i, w) ∷ m) h = ground (arith, set_new k v m)

  pub delete_first :
      (k : K) (v : V) (m : JsMap K V) → Distinct ((k, v) ∷ m) → delete k ((k, v) ∷ m) ≡ m
  unfolding delete
  delete_first k v m d = ground (arith, eq_self k, delete_absent k m d.0)

-- ===== src/Prelude/Chains.antt =====
-- Chains of results that may fail, written with `do`.
use mathlib.Core.Path.{◌≡◌, refl}
use mathlib.Core.Option.{Option, none, some}

infixl 5 ◌>>=◌
abbrev pub ◌>>=◌ {ℓ κ} : {A : Type ℓ} {B : Type κ} → Option A → (A → Option B) → Option B
none >>= f = none
some a >>= f = f a

-- A chain that ends well went through its first part.
pub >>=-eq-some {ℓ κ} :
    {A : Type ℓ} {B : Type κ} (m : Option A) (f : A → Option B) {b : B}
    → (m >>= f) ≡ some b
    → (a : A) × (m ≡ some a) × (f a ≡ some b)
>>=-eq-some none f h = cc
>>=-eq-some (some a) f h = (a, refl, h)

-- The rest of a chain is reached with the value of its first part.
pub bind_cases {ℓ κ} :
    {A : Type ℓ} {B : Type κ} (P : Option B → Type 0) (m : Option A) (f : A → Option B)
    → P none
    → ((a : A) → m ≡ some a → P (f a))
    → P (m >>= f)
bind_cases P none f n s = n
bind_cases P (some a) f n s = s a refl

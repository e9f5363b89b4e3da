-- ===== src/Bytes/Cut.antt =====
-- Cutting a part out of bytes that were put together.
use aether_web_lite.Prelude.{
  ℕ, zero, suc, ◌+◌, ◌≡◌, refl, ap, ◌∙◌, [], ◌∷◌, ◌++◌, arith, length, take, drop,
}
use aether_web_lite.Bytes.{Bytes, slice}

pub take-append : (n : ℕ) (a b : Bytes) → length a ≡ n → take n (a ++ b) ≡ a
take-append zero [] b h = refl
take-append zero (x ∷ a) b h = absurd (omega arith)
take-append (suc n) [] b h = absurd (omega arith)
take-append (suc n) (x ∷ a) b h = ap (λ l. x ∷ l) (take-append n a b (omega arith))

pub drop-append : (n : ℕ) (a b : Bytes) → length a ≡ n → drop n (a ++ b) ≡ b
drop-append zero [] b h = refl
drop-append zero (x ∷ a) b h = absurd (omega arith)
drop-append (suc n) [] b h = absurd (omega arith)
drop-append (suc n) (x ∷ a) b h = drop-append n a b (omega arith)

-- The parts are cut where they were written.
pub slice-middle :
    (o n : ℕ) (a b c : Bytes) → length a ≡ o → length b ≡ n → slice o n (a ++ (b ++ c)) ≡ b
slice-middle o n a b c ha hb = ap (take n) (drop-append o a (b ++ c) ha) ∙ take-append n b c hb

-- What lies behind a part.
pub drop_past : (m n t : ℕ) (a b : Bytes) → length a ≡ m → m + n ≡ t → drop t (a ++ b) ≡ drop n b
drop_past m n t [] b h k = ap (λ j. drop j b) (omega arith)
drop_past m n zero (x ∷ a) b h k = absurd (omega arith)
drop_past zero n (suc t) (x ∷ a) b h k = absurd (omega arith)
drop_past (suc m) n (suc t) (x ∷ a) b h k = drop_past m n t a b (omega arith) (omega arith)

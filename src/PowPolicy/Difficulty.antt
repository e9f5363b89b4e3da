-- ===== src/PowPolicy/Difficulty.antt =====
-- The test of a hash against a difficulty counts the leading zero bits.
use aether_web_lite.Prelude.{
  ℕ, zero, suc, ◌+◌, ◌*◌, ◌/◌, ◌%◌, ◌≤◌, ◌<◌, ◌≡◌, refl, ◌∙◌, Bool, true, false, not, ◌&&◌, none,
  some, [], ◌∷◌, arith, leb, nat_beq, if◌then◌else◌, length, get_elem?, All, Bool-cases, inl, inr,
}
use native.Mathlib.Nat.{zero-add}
use mathlib.Core.Bool.{and_assoc}
use aether_web_lite.Bytes.{Bytes, IsByte}
use aether_web_lite.PowPolicy.{zero_bytes, masked, meets_difficulty}

-- The zero bits before the first one bit of a byte.
abbrev pub byte_zeros : ℕ → ℕ
byte_zeros b =
    if leb 128 b
    then 0
    else if leb 64 b
    then 1
    else if leb 32 b
    then 2
    else if leb 16 b
    then 3
    else if leb 8 b
    then 4
    else if leb 4 b
    then 5
    else if leb 2 b
    then 6
    else if leb 1 b
    then 7
    else 8

-- The zero bits before the first one bit of a string.
unfoldable pub leading_zeros : Bytes → ℕ
leading_zeros [] = 0
leading_zeros (b ∷ bs) = if nat_beq b 0 then 8 + leading_zeros bs else byte_zeros b

same : Bool → Bool → Bool
same true b = b
same false b = not b

all_below : ℕ → (ℕ → Bool) → Bool
all_below zero p = true
all_below (suc n) p = p n && all_below n p

all_below_lem : (n : ℕ) (p : ℕ → Bool) (x : ℕ) → all_below n p ≡ true → x < n → p x ≡ true
unfolding all_below
all_below_lem zero p x h lt = absurd (omega arith)
all_below_lem (suc n) p x h lt = ground (arith, all_below_lem n p x)

mask_table :
    all_below 256 (λ b. all_below 8 (λ r. same (masked r (some b)) (leb r (byte_zeros b)))) ≡ true
unfolding all_below same masked
mask_table = refl

-- Masking a byte tests its leading zero bits.
masked-byte : (b r : ℕ) → b < 256 → r < 8 → masked r (some b) ≡ leb r (byte_zeros b)
unfolding same
masked-byte b r hb hr =
    let row = all_below_lem 256 _ b mask_table hb in
    let cell = all_below_lem 8 _ r row hr in same-eq _ _ cell
  where
    same-eq : (x y : Bool) → same x y ≡ true → x ≡ y
    same-eq true true e = refl
    same-eq true false e = cc
    same-eq false true e = cc
    same-eq false false e = refl

byte_zeros-lt : (b : ℕ) → nat_beq b 0 ≡ false → byte_zeros b < 8
byte_zeros-lt b h = ground arith

masked-none : (r : ℕ) → masked r none ≡ true
unfolding masked
masked-none r = refl

first-byte :
    (b r rest : ℕ)
    → r < 8
    → leb r (byte_zeros b) ≡ leb r (if nat_beq b 0 then 8 + rest else byte_zeros b)
first-byte b r rest h = ground arith

next-byte :
    (x : Bool) (b n rest : ℕ)
    → x ≡ leb n rest
    → (nat_beq b 0 && x) ≡ leb (8 + n) (if nat_beq b 0 then 8 + rest else byte_zeros b)
next-byte x b n rest e = elim (Bool-cases (nat_beq b 0)) [
  | inl zero_byte ↦ rw (zero_byte, e) (ground arith)
  | inr one_bit ↦ rw one_bit (ground (arith, byte_zeros-lt b one_bit))
]

prefix-zeros :
    (q r : ℕ) (hash : Bytes)
    → All IsByte hash
    → r < 8
    → q * 8 + r ≤ length hash * 8
    → (zero_bytes q hash && masked r (get_elem? hash q)) ≡ leb (q * 8 + r) (leading_zeros hash)
unfolding zero_bytes leading_zeros
prefix-zeros zero r [] hb hr h = rw (masked-none r) (ground arith)
prefix-zeros zero r (b ∷ hash) hb hr h =
    masked-byte b r hb.0 hr ∙ rw zero-add (first-byte b r (leading_zeros hash) hr)
prefix-zeros (suc q) r [] hb hr h = absurd (omega arith)
prefix-zeros (suc q) r (b ∷ hash) hb hr h =
    let rest = prefix-zeros q r hash hb.1 hr (omega arith) in
    let n : suc q * 8 + r ≡ 8 + (q * 8 + r) = omega arith in
    rw (n, and_assoc)
      (next-byte (zero_bytes q hash && masked r (get_elem? hash q)) b (q * 8 + r)
        (leading_zeros hash) rest)

leading_zeros-le : (hash : Bytes) → leading_zeros hash ≤ length hash * 8
unfolding leading_zeros
leading_zeros-le [] = omega arith
leading_zeros-le (b ∷ hash) = ground (arith, leading_zeros-le hash, byte_zeros-lt b)

masked_zero : (hash : Bytes) (q : ℕ) → All IsByte hash → masked 0 (get_elem? hash q) ≡ true
masked_zero [] q hb = masked-none 0
masked_zero (b ∷ hash) zero hb = masked-byte b 0 hb.0 (omega arith) ∙ ground arith
masked_zero (b ∷ hash) (suc q) hb = masked_zero hash q hb.1

-- Of a string of bytes: it meets a difficulty exactly if it has at least so many leading zero bits.
pub meets_difficulty_iff :
    (hash : Bytes) (difficulty : ℕ)
    → All IsByte hash
    → meets_difficulty hash difficulty ≡ leb difficulty (leading_zeros hash)
unfolding meets_difficulty
meets_difficulty_iff hash difficulty hb =
    let q = difficulty / 8 in
    let r = difficulty % 8 in
    let n : q * 8 + r ≡ difficulty = omega arith in
    let small : r < 8 = omega arith in
    ground (
      arith,
      prefix-zeros q r hash hb small,
      n,
      small,
      masked_zero hash q hb,
      leading_zeros-le hash,
    )

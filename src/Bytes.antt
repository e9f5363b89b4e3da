-- ===== src/Bytes.antt =====
-- Byte strings as lists of numbers, and the big-endian encodings of
-- packages/core/src/crypto/PowPolicy.ts.
pub mod Cut
use aether_web_lite.Prelude.{
  take, drop, ℕ, zero, suc, ◌+◌, ◌*◌, ◌/◌, ◌%◌, ◌^◌, ◌<◌, ◌≡◌, refl, sym, ◌∙◌, List, [], ◌∷◌, ◌++◌,
  arith, length, length-append, All, All-append,
}
use native.Mathlib.Nat.{pow-suc}

abbrev pub Bytes : Type 0
Bytes = List ℕ

abbrev pub IsByte : ℕ → Type 0
IsByte b = b < 256

-- The low `8 * width` bits of a number, most significant byte first.
unfoldable pub big_endian : ℕ → ℕ → Bytes
big_endian zero v = []
big_endian (suc n) v = big_endian n (v / 256) ++ (v % 256) ∷ []

abbrev pub u64be : ℕ → Bytes
u64be v = big_endian 8 v

abbrev pub u32be : ℕ → Bytes
u32be v = big_endian 4 v

abbrev pub u16be : ℕ → Bytes
u16be v = big_endian 2 v

-- DataView.getUint32, getBigUint64: the number that big-endian bytes stand for.
unfoldable pub read_be : ℕ → Bytes → ℕ
read_be acc [] = acc
read_be acc (b ∷ bs) = read_be (acc * 256 + b) bs

-- `bytes.slice(o, o + n)`, of an ArrayBuffer too.
abbrev pub slice : ℕ → ℕ → Bytes → Bytes
slice o n bs = take n (drop o bs)

pub length-big_endian : (n v : ℕ) → length (big_endian n v) ≡ n
unfolding big_endian
length-big_endian zero v = refl
length-big_endian (suc n) v =
    omega (
      arith,
      length-append (big_endian n (v / 256)) ((v % 256) ∷ []),
      length-big_endian n (v / 256),
    )

pub All-big_endian : (n v : ℕ) → All IsByte (big_endian n v)
unfolding big_endian
All-big_endian zero v = tt
All-big_endian (suc n) v =
    All-append IsByte (big_endian n (v / 256)) _ (All-big_endian n (v / 256)) (omega arith)

-- Two strings whose heads have one length are equal only part by part.
pub append-cancel {ℓ} :
    {A : Type ℓ} (a b c d : List A) → length a ≡ length b → a ++ c ≡ b ++ d → (a ≡ b) × (c ≡ d)
append-cancel [] [] c d h e = (refl, e)
append-cancel [] (y ∷ b) c d h e = absurd (omega arith)
append-cancel (x ∷ a) [] c d h e = absurd (omega arith)
append-cancel (x ∷ a) (y ∷ b) c d h e =
    let rest = append-cancel a b c d (omega arith) (ground arith) in
    let heads : x ≡ y = ground arith in (cc, rest.1)

div_bound : (v k : ℕ) → v < k * 256 → v / 256 < k
div_bound v k h = omega arith

pub big_endian-injective :
    (n v w : ℕ) → v < 256 ^ n → w < 256 ^ n → big_endian n v ≡ big_endian n w → v ≡ w
unfolding big_endian
big_endian-injective zero v w hv hw e = omega arith
big_endian-injective (suc n) v w hv hw e =
    let both =
      append-cancel (big_endian n (v / 256)) (big_endian n (w / 256)) ((v % 256) ∷ [])
        ((w % 256) ∷ []) (length-big_endian n (v / 256) ∙ sym (length-big_endian n (w / 256))) e in
    let low : v % 256 ≡ w % 256 = ground arith in
    let high =
      big_endian-injective n (v / 256) (w / 256) (div_bound v (256 ^ n) (rw pow-suc at hv))
        (div_bound w (256 ^ n) (rw pow-suc at hw)) both.0 in
    omega (arith, low, high)

read_be-append : (acc : ℕ) (bs cs : Bytes) → read_be acc (bs ++ cs) ≡ read_be (read_be acc bs) cs
unfolding read_be
read_be-append acc [] cs = refl
read_be-append acc (b ∷ bs) cs = read_be-append (acc * 256 + b) bs cs

-- Reading back what was written, within the width.
pub read_be-big_endian : (n v : ℕ) → v < 256 ^ n → read_be 0 (big_endian n v) ≡ v
unfolding big_endian read_be
read_be-big_endian zero v h = omega arith
read_be-big_endian (suc n) v h =
    rw (read_be-append 0 (big_endian n (v / 256)) ((v % 256) ∷ []))
      (omega (arith, read_be-big_endian n (v / 256) (div_bound v (256 ^ n) (rw pow-suc at h))))

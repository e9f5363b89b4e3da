-- ===== src/HintPacket/Buffer.antt =====
-- Writing the parts of a buffer one after the other, and cutting them out again.
use aether_web_lite.Prelude.{
  ℕ, zero, suc, ◌+◌, ◌≤◌, ◌≡◌, refl, ap, ◌∙◌, some, ◌++◌, arith, length, length-append, take, drop,
}
use mathlib.Core.List.{append_assoc}
use aether_web_lite.Bytes.{Bytes}
use aether_web_lite.Bytes.Cut.{take-append, drop_past}
use aether_web_lite.HintPacket.{zeros, set_bytes}

pub length-zeros : (n : ℕ) → length (zeros n) ≡ n
unfolding zeros
length-zeros zero = refl
length-zeros (suc n) = omega (arith, length-zeros n)

drop-zeros : (n k j : ℕ) → n + k ≡ j → drop n (zeros j) ≡ zeros k
unfolding zeros
drop-zeros zero k j h = ap zeros (omega arith)
drop-zeros (suc n) k zero h = absurd (omega arith)
drop-zeros (suc n) k (suc j) h = drop-zeros n k j (omega arith)

set_bytes-fits :
    (o : ℕ) (bs out : Bytes)
    → o + length bs ≤ length out
    → set_bytes o bs out ≡ some (take o out ++ (bs ++ drop (o + length bs) out))
unfolding set_bytes
set_bytes-fits o bs out h = ground arith

-- A part that is written at the end of what is written already.
pub set_bytes_next :
    (o k r : ℕ) (done bs : Bytes)
    → length done ≡ o
    → length bs + r ≡ k
    → set_bytes o bs (done ++ zeros k) ≡ some ((done ++ bs) ++ zeros r)
set_bytes_next o k r done bs ho hk =
    let cut : drop (o + length bs) (done ++ zeros k) ≡ zeros r =
      drop_past o (length bs) (o + length bs) done (zeros k) ho refl
      ∙ drop-zeros (length bs) r k hk in
    set_bytes-fits o bs (done ++ zeros k)
      (omega (arith, length-append done (zeros k), length-zeros k))
    ∙ rw (take-append o done (zeros k) ho, cut, append_assoc) refl

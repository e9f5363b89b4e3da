-- ===== src/DandelionRouter/Choice.antt =====
-- Which random words choose which candidate.
use aether_web_lite.Prelude.{
  ℕ, suc, ◌+◌, ◌*◌, ◌^◌, ◌≤◌, ◌<◌, ◌≡◌, List, [], ◌∷◌, arith, length, take, ltb, Bool-cases, inl,
  inr,
}
use native.Mathlib.Nat.{mul-lt-mul_of_pos_right}
use aether_web_lite.DandelionRouter.{total_weight, pick, secure_weighted_index}

-- The share of the random words that stands before a candidate.
abbrev pub weight_before : ℕ → List ℕ → ℕ
weight_before n ws = total_weight (take n ws)

-- The index `j` that the loop finds: the sum passes the random value with its weight.
record Picked (scaled acc i : ℕ) (ws : List ℕ) : Type 0 where
  place : ℕ
  found : pick scaled acc i ws ≡ i + place
  in_range : place < length ws
  low : (acc + weight_before place ws) * 2 ^ 32 ≤ scaled
  high : scaled < (acc + weight_before (suc place) ws) * 2 ^ 32

pick-Picked :
    (scaled acc i : ℕ) (ws : List ℕ)
    → acc * 2 ^ 32 ≤ scaled
    → scaled < (acc + total_weight ws) * 2 ^ 32
    → Picked scaled acc i ws
unfolding pick
pick-Picked scaled acc i [] lo hi = absurd (omega arith)
pick-Picked scaled acc i (w ∷ ws) lo hi = elim (Bool-cases (ltb scaled ((acc + w) * 2 ^ 32))) [
  | inl here ↦ record {
    place = 0;
    found = rw (pick, here) (omega arith);
    in_range = omega arith;
    low = omega arith;
    high = ground (arith, here);
  }
  | inr later ↦
      let next = pick-Picked scaled (acc + w) (i + 1) ws (ground (arith, later)) (omega arith) in
      record {
        place = suc next.place;
        found = rw (pick, later) (omega (arith, next.found));
        in_range = omega (arith, next.in_range);
        low = omega (arith, next.low);
        high = omega (arith, next.high);
      }
]

-- With a random word of 32 bits and weights that are not all zero, the candidate that is chosen is the
-- one whose share of the words holds it: of the 2 ^ 32 words, scaled to the sum of the weights, a
-- candidate is given those from the weights before it up to those with its own.
pub secure_weighted_index_share :
    (random_index : ℕ → ℕ) (word : ℕ) (ws : List ℕ)
    → word < 2 ^ 32
    → 0 < total_weight ws
    → let i = secure_weighted_index random_index word ws in
      (i < length ws)
      × (weight_before i ws * 2 ^ 32 ≤ word * total_weight ws)
      × (word * total_weight ws < weight_before (suc i) ws * 2 ^ 32)
unfolding secure_weighted_index
secure_weighted_index_share random_index word ws small some_weight =
    let total = total_weight ws in
    let scaled_small : word * total < 2 ^ 32 * total = mul-lt-mul_of_pos_right small some_weight in
    let p = pick-Picked (word * total) 0 0 ws (omega arith) (omega (arith, scaled_small)) in
    ground (arith, p.found, p.in_range, p.low, p.high)

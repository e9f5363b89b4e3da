-- ===== src/NodeIdentity/Bound.antt =====
-- A node's id is bound to its key and to paid work, and the search for that work ends with the
-- first number that will do.
use aether_web_lite.Prelude.{
  All, List, eq_self, subst, ◌/◌, ◌%◌, take, length-take, [], ◌∷◌, ℕ, zero, suc, ◌+◌, ◌*◌, ◌^◌, ◌≤◌,
  ◌<◌, ◌≡◌, refl, true, false, some, arith, nat_beq, length, all_of, ltb, if◌then◌else◌, ◌⊎◌, inl,
  inr, Bool-cases,
}
use aether_web_lite.Prelude.Text.{text_eq}
use aether_web_lite.Bytes.{Bytes, IsByte}
use aether_web_lite.PowPolicy.{to_hex, hex_digit, concat}
use aether_web_lite.TrackerProtocol.{is_hex}
use aether_web_lite.NodeIdentity.{
  Sodium, NodeIdPowParams, derive_peer_id, verify_claim, meets_node_id_pow, solve_id_loop,
  solve_node_id_pow, claim_of, peer_id_domain,
}

hex_digit-IsHex : (n : ℕ) → n < 16 → is_hex (hex_digit n) ≡ true
hex_digit-IsHex n h = ground arith

to_hex-IsHex : (bs : Bytes) → All IsByte bs → all_of is_hex (to_hex bs) ≡ true
unfolding to_hex
to_hex-IsHex [] a = refl
to_hex-IsHex (b ∷ bs) a =
    ground (arith, to_hex-IsHex bs a.1, hex_digit-IsHex (b / 16), hex_digit-IsHex (b % 16))

length-to_hex : (bs : Bytes) → length (to_hex bs) ≡ length bs * 2
unfolding to_hex
length-to_hex [] = refl
length-to_hex (b ∷ bs) = omega (arith, length-to_hex bs)

least_or : (start k : ℕ) → start ≤ k → (start ≡ k) ⊎ (start + 1 ≤ k)
least_or start k h = ground arith

All-take {ℓ κ} : {A : Type ℓ} (P : A → Type κ) (n : ℕ) (xs : List A) → All P xs → All P (take n xs)
All-take P zero xs a = tt
All-take P (suc n) [] a = tt
All-take P (suc n) (x ∷ xs) a = (a.0, All-take P n xs a.1)

module _ (sodium : Sodium) where
  -- A counter that the search finds is accepted, and no lower one meets the difficulty.
  solve_id_loop-least :
      (pubkey : Bytes) (params : NodeIdPowParams) (left start n : ℕ)
      → solve_id_loop sodium pubkey params left start ≡ some n
      → (meets_node_id_pow sodium pubkey n params ≡ true)
        × (start ≤ n)
        × (n < start + left)
        × ((k : ℕ) → start ≤ k → k < n → meets_node_id_pow sodium pubkey k params ≡ false)
  unfolding solve_id_loop
  solve_id_loop-least pubkey params zero start n h = cc
  solve_id_loop-least pubkey params (suc left) start n h =
      elim (Bool-cases (meets_node_id_pow sodium pubkey start params)) [
        | inl yes_now ↦
            let same : start ≡ n = ground arith in
            (
              subst (λ k. meets_node_id_pow sodium pubkey k params ≡ true) same yes_now,
              omega arith,
              omega arith,
              λ k low high. absurd (omega arith),
            )
        | inr not_now ↦
            let (met, low, high, least) =
              solve_id_loop-least pubkey params left (start + 1) n (ground arith) in
            (
              met,
              omega arith,
              omega arith,
              λ k from below. elim (least_or start k from) [
                | inl e ↦ subst (λ i. meets_node_id_pow sodium pubkey i params ≡ false) e not_now
                | inr above ↦ least k above below
              ],
            )
      ]

  derive_peer_id-IsHex :
      (pubkey : Bytes)
      → ((b : Bytes) → (length (sodium.sha256 b) ≡ 32) × All IsByte (sodium.sha256 b))
      → (length (derive_peer_id sodium pubkey) ≡ 32)
        × (all_of is_hex (derive_peer_id sodium pubkey) ≡ true)
  unfolding derive_peer_id
  derive_peer_id-IsHex pubkey hash =
      let input = concat (peer_id_domain ∷ pubkey ∷ []) in
      let out = hash input in
      (
        omega (
          arith,
          length-to_hex (take 16 (sodium.sha256 input)),
          length-take 16 (sodium.sha256 input),
          out.0,
        ),
        to_hex-IsHex (take 16 (sodium.sha256 input))
            (All-take IsByte 16 (sodium.sha256 input) out.1),
      )

  solve_node_id_pow-paid :
      (limit : ℕ) (pubkey : Bytes) (params : NodeIdPowParams) (n : ℕ)
      → limit ≤ 2 ^ 53
      → solve_node_id_pow sodium limit pubkey params ≡ some n
      → (n < 2 ^ 53)
        × ((if ltb 0 params.difficulty then meets_node_id_pow sodium pubkey n params else true)
            ≡ true)
  unfolding solve_node_id_pow
  solve_node_id_pow-paid limit pubkey params n few found =
      elim (Bool-cases (nat_beq params.difficulty 0)) [
        | inl free ↦ ground arith
        | inr paid ↦
            let (met, low, high, rest) =
              solve_id_loop-least pubkey params limit 0 n (ground arith) in
            (omega arith, ground (arith, met))
      ]

  -- The id that a node derives for itself, the counter that it searches and its key pass the
  -- verification, for a key of 32 bytes, a search below the range of exact numbers and a hash that
  -- gives 32 bytes.
  pub verify_claim-claim_of :
      (limit : ℕ) (pubkey : Bytes) (params : NodeIdPowParams) (n : ℕ)
      → ((b : Bytes) → (length (sodium.sha256 b) ≡ 32) × All IsByte (sodium.sha256 b))
      → length pubkey ≡ 32
      → limit ≤ 2 ^ 53
      → solve_node_id_pow sodium limit pubkey params ≡ some n
      → verify_claim sodium (claim_of sodium pubkey n) params ≡ true
  unfolding verify_claim claim_of
  verify_claim-claim_of limit pubkey params n hash size few found =
      let (size_ok, hex_ok) = derive_peer_id-IsHex pubkey hash in
      let (fits, paid) = solve_node_id_pow-paid limit pubkey params n few found in
      ground (arith, eq_self (derive_peer_id sodium pubkey))

-- ===== src/PacketValidator/Identity.antt =====
-- The id of an accepted packet fixes its committed header, up to collisions of the hash.
use aether_web_lite.Prelude.{
  ℕ, ◌/◌, ◌%◌, ◌<◌, ◌≡◌, ◌≢◌, refl, sym, ap, ◌∙◌, ◌⊎◌, inl, inr, some, List, [], ◌∷◌, arith, All,
  Option-cases, Bool-cases,
}
use aether_web_lite.Prelude.Text.{text_beq, text_beq_iff}
use aether_web_lite.Bytes.{Bytes, IsByte}
use aether_web_lite.PowPolicy.{
  PowCommittedHeader, pow_preimage, hex_digit, to_hex, derive_packet_id,
}
use aether_web_lite.PowPolicy.Preimage.{pow_preimage-injective}
use aether_web_lite.PacketValidator.{
  GossipPacket, ValidateOptions, accept, check, committed_header_of,
}
use aether_web_lite.PacketValidator.Accepted.{check_iff}

hex_digit-injective : (m n : ℕ) → m < 16 → n < 16 → hex_digit m ≡ hex_digit n → m ≡ n
hex_digit-injective m n hm hn e = ground arith

to_hex-injective : (bs cs : Bytes) → All IsByte bs → All IsByte cs → to_hex bs ≡ to_hex cs → bs ≡ cs
unfolding to_hex
to_hex-injective [] [] hb hc e = refl
to_hex-injective [] (c ∷ cs) hb hc e = cc
to_hex-injective (b ∷ bs) [] hb hc e = cc
to_hex-injective (b ∷ bs) (c ∷ cs) hb hc e =
    let high = hex_digit-injective (b / 16) (c / 16) (omega arith) (omega arith) (cc) in
    let low = hex_digit-injective (b % 16) (c % 16) (omega arith) (omega arith) (cc) in
    let rest = to_hex-injective bs cs hb.1 hc.1 (cc) in
    let heads : b ≡ c = omega (arith, high, low) in cc

module _ (sha256 : Bytes → Bytes) where
  derived_from :
      (h : PowCommittedHeader) (id : List ℕ)
      → derive_packet_id sha256 h ≡ some id
      → (b : Bytes) × (pow_preimage h ≡ some b) × (to_hex (sha256 b) ≡ id)
  unfolding derive_packet_id
  derived_from h id e = elim (Option-cases (pow_preimage h)) [
    | inl p ↦ absurd (ground arith)
    | inr (b, p) ↦ (b, p, ground arith)
  ]

  -- Two accepted packets under one id, at any times and under any options, commit to the same
  -- header, unless two different byte strings with one hash are at hand. The hash is only assumed
  -- to return bytes.
  pub same_id_same_header :
      (sha256_bytes : (b : Bytes) → All IsByte (sha256 b)) (p q : GossipPacket)
      (here there : ValidateOptions)
      → check sha256 (some p) here ≡ accept
      → check sha256 (some q) there ≡ accept
      → p.packet_id ≡ q.packet_id
      → (committed_header_of p ≡ committed_header_of q)
        ⊎ ((b : Bytes) × (c : Bytes) × (b ≢ c) × (sha256 b ≡ sha256 c))
  same_id_same_header out p q here there hp hq same =
      let lp = (check_iff sha256 here p).0 hp in
      let lq = (check_iff sha256 there q).0 hq in
      let (b, eb, ib) = derived_from (committed_header_of p) lp.packet_id lp.id_derived in
      let (c, ec, ic) = derived_from (committed_header_of q) lq.packet_id lq.id_derived in
      let ids : lp.packet_id ≡ lq.packet_id = cc (lp.id_is, lq.id_is, same) in
      let hashes = to_hex-injective (sha256 b) (sha256 c) (out b) (out c) (ib ∙ ids ∙ sym ic) in
      elim (Bool-cases (text_beq b c)) [
        | inl equal ↦ inl (
            pow_preimage-injective (committed_header_of p) (committed_header_of q) b eb
              (ec ∙ ap some (sym ((text_beq_iff b c).0 equal))))
        | inr apart ↦ inr (b, c, (λ e. cc (apart, (text_beq_iff b c).1 e)), hashes)
      ]

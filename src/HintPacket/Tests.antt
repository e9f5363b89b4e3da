-- ===== src/HintPacket/Tests.antt =====
-- A packet, its bytes and its work, under a stand-in for the hash.
use aether_web_lite.Prelude.{◌>>=◌, ◌≡◌, refl, true, none, some, [], ◌∷◌, arith}
use aether_web_lite.Bytes.{Bytes, read_be}
use aether_web_lite.PowPolicy.{meets_difficulty, zero_bytes, masked}
use aether_web_lite.HintPacket.{
  HintPacket, zeros, encode_hint, decode_hint, encode_slot_blob, decode_slot_blob, verify_hint_pow,
  seal_hint_pow, seal_loop, hint_id, hint_preimage,
}
use aether_web_lite.HintPacket.Coding.{
  IsHint, decode_hint-encode_hint, decode_slot_blob-encode_slot_blob,
}
use aether_web_lite.HintPacket.Work.{verify_hint_pow-seal_hint_pow}

abbrev sample : HintPacket
sample = record {
  version = 1;
  ttl = 8;
  blind_tag = 1 ∷ 2 ∷ 3 ∷ 4 ∷ [];
  nonce = zeros 12;
  pow_nonce = 258;
  ciphertext = zeros 64;
}

sample-IsHint : IsHint sample
unfolding zeros
sample-IsHint = record {
  version_is = refl;
  ttl_fits = omega arith;
  pow_nonce_fits = omega arith;
  tag_size = refl;
  nonce_size = refl;
  ciphertext_size = refl;
}

decode_hint-encode_hint_example : (encode_hint sample >>= decode_hint) ≡ some sample
decode_hint-encode_hint_example = decode_hint-encode_hint sample sample-IsHint

decode_slot_blob-encode_slot_blob_example :
    (encode_slot_blob sample (9 ∷ 8 ∷ []) >>= decode_slot_blob)
    ≡ some (record { hint = sample; body = 9 ∷ 8 ∷ [] })
decode_slot_blob-encode_slot_blob_example =
    decode_slot_blob-encode_slot_blob sample (9 ∷ 8 ∷ []) sample-IsHint

-- Seven bytes of body are no slot.
short_refused : decode_slot_blob (1 ∷ 2 ∷ 3 ∷ 4 ∷ 5 ∷ 6 ∷ 7 ∷ []) ≡ none
unfolding decode_slot_blob read_be
short_refused = refl

-- A hash of 32 zero bytes: every difficulty is met.
abbrev zero_hash : Bytes → Bytes
zero_hash bs = zeros 32

verify_hint_pow-seal_hint_pow_example :
    (verify_hint_pow zero_hash 12 (record sample { pow_nonce = 0 }) ≡ true)
    × (hint_id zero_hash (record sample { pow_nonce = 0 }) ≡ hint_id zero_hash sample)
unfolding seal_hint_pow seal_loop hint_preimage meets_difficulty zero_bytes masked zeros
verify_hint_pow-seal_hint_pow_example =
    verify_hint_pow-seal_hint_pow zero_hash 5 12 sample (record sample { pow_nonce = 0 })
      (omega arith) refl

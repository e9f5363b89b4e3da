-- ===== src/PowPolicy/Tests.antt =====
-- Headers, their bytes and the test of the work.
use aether_web_lite.Prelude.{◌≡◌, refl, ◌++◌, true, false, none, some, [], ◌∷◌, arith, leb}
use aether_web_lite.Bytes.{Bytes, big_endian}
use aether_web_lite.PowPolicy.{
  int, other, PowCommittedHeader, gossip_domain, pow_preimage, meets_difficulty, zero_bytes, masked,
}
use aether_web_lite.PowPolicy.Difficulty.{leading_zeros, meets_difficulty_iff}

abbrev header : PowCommittedHeader
header = record {
  timestamp = int 258;
  zone_id = int 3;
  pow_difficulty = int 12;
  nonce = 9 ∷ 8 ∷ [];
  payload = 7 ∷ [];
}

abbrev header_bytes : Bytes
header_bytes =
    gossip_domain
    ++ 0 ∷ 0 ∷ 0 ∷ 0 ∷ 0 ∷ 0 ∷ 1 ∷ 2 ∷ 0 ∷ 0 ∷ 0 ∷ 3 ∷ 12 ∷ 0 ∷ 2 ∷ 9 ∷ 8 ∷ 0 ∷ 0 ∷ 0 ∷ 1 ∷ 7 ∷ []

preimage_bytes : pow_preimage header ≡ some header_bytes
unfolding pow_preimage big_endian
preimage_bytes = refl

bad_zone_throws : pow_preimage (record header { zone_id = other }) ≡ none
unfolding pow_preimage
bad_zone_throws = refl

meets_difficulty_iff_example :
    meets_difficulty (0 ∷ 0x0f ∷ 255 ∷ []) 12 ≡ leb 12 (leading_zeros (0 ∷ 0x0f ∷ 255 ∷ []))
meets_difficulty_iff_example = meets_difficulty_iff (0 ∷ 0x0f ∷ 255 ∷ []) 12 (omega arith)

twelve_bits : meets_difficulty (0 ∷ 0x0f ∷ 255 ∷ []) 12 ≡ true
unfolding meets_difficulty zero_bytes masked
twelve_bits = refl

not_thirteen : meets_difficulty (0 ∷ 0x0f ∷ 255 ∷ []) 13 ≡ false
unfolding meets_difficulty zero_bytes masked
not_thirteen = refl

-- ===== src/PacketValidator/Tests.antt =====
-- Packets on both sides of the checks, under a stand-in for the hash.
use aether_web_lite.Prelude.{◌≡◌, ◌≢◌, refl, ◌⊎◌, false, some, [], ◌∷◌, arith, All}
use aether_web_lite.Bytes.{Bytes, IsByte, big_endian}
use aether_web_lite.PowPolicy.{
  int, pow_preimage, derive_packet_id, verify_pow, pow_hash, meets_difficulty, zero_bytes, masked,
  to_hex,
}
use aether_web_lite.PacketValidator.{
  GossipPacket, accept, fail, bad_hop_count, time_drift, ValidateOptions, check,
  committed_header_of,
}
use aether_web_lite.PacketValidator.Accepted.{Lawful, check_iff}
use aether_web_lite.PacketValidator.Identity.{same_id_same_header}

-- A hash of 32 zero bytes: every difficulty is met.
abbrev pub zeros : Bytes → Bytes
zeros b =
    0 ∷ 0 ∷ 0 ∷ 0 ∷ 0 ∷ 0 ∷ 0 ∷ 0 ∷ 0 ∷ 0 ∷ 0 ∷ 0 ∷ 0 ∷ 0 ∷ 0 ∷ 0 ∷ 0 ∷ 0 ∷ 0 ∷ 0 ∷ 0 ∷ 0 ∷ 0 ∷ 0
    ∷ 0 ∷ 0 ∷ 0 ∷ 0 ∷ 0 ∷ 0 ∷ 0 ∷ 0 ∷ []

zeros_bytes : (b : Bytes) → All IsByte (zeros b)
zeros_bytes b = omega arith

abbrev pub packet : GossipPacket
packet = record {
  packet_id = some (to_hex (zeros []));
  hop_count = int 0;
  pow_nonce = int 5;
  pow_difficulty = int 12;
  timestamp = int 1000;
  zone_id = int 3;
  nonce = 1 ∷ 2 ∷ 3 ∷ 4 ∷ 5 ∷ 6 ∷ 7 ∷ 8 ∷ 9 ∷ 10 ∷ 11 ∷ 12 ∷ [];
  payload = 7 ∷ [];
}

abbrev pub at_once : ValidateOptions
at_once = record { now = 1000; allow_stale = false }

pub packet_accepted : check zeros (some packet) at_once ≡ accept
unfolding check committed_header_of derive_packet_id pow_preimage big_endian verify_pow pow_hash
    meets_difficulty zero_bytes masked
packet_accepted = refl

late_rejected :
    check zeros (some packet) (record { now = 901_001; allow_stale = false }) ≡ fail time_drift
unfolding check to_hex
late_rejected = refl

bad_hops_rejected :
    check zeros (some (record packet { hop_count = int 31 })) at_once ≡ fail bad_hop_count
unfolding check to_hex
bad_hops_rejected = refl

check_iff_example :
    (check zeros (some packet) at_once ≡ accept → Lawful zeros at_once packet)
    × (Lawful zeros at_once packet → check zeros (some packet) at_once ≡ accept)
check_iff_example = check_iff zeros at_once packet

same_id_same_header_example :
    (committed_header_of packet ≡ committed_header_of packet)
    ⊎ ((b : Bytes) × (c : Bytes) × (b ≢ c) × (zeros b ≡ zeros c))
same_id_same_header_example =
    same_id_same_header zeros zeros_bytes packet packet at_once at_once packet_accepted
      packet_accepted refl

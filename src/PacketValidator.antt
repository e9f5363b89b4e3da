-- ===== src/PacketValidator.antt =====
-- packages/core/src/network/gossip/PacketValidator.ts: the checks of a relay that holds no keys.
-- A packet is what came from the network; `none` is a value that is no object. Its byte fields are
-- what `PacketBuilder.committedHeaderOf` (packages/core/src/crypto/PacketBuilder.ts) makes of them.
pub mod Accepted
pub mod Identity
pub mod Tests
use aether_web_lite.Prelude.{
  ℕ, ◌+◌, ◌-◌, ◌^◌, Bool, true, false, not, ◌&&◌, ◌||◌, Option, none, some, List, [], ltb, leb,
  nat_beq, if◌then◌else◌, length, ◌==◌,
}
use aether_web_lite.Prelude.Text.{Text, text_eq}
use aether_web_lite.Bytes.{Bytes}
use aether_web_lite.PowPolicy.{
  Field, int, other, int_below, safe_limit, max_payload_size, nonce_size, max_time_drift,
  max_hop_count, PowCommittedHeader, derive_packet_id, verify_pow,
}

-- `packet_id` is `none` if it is no string.
pub record GossipPacket : Type 0 where
  pub packet_id : Option Text
  pub hop_count : Field
  pub pow_nonce : Field
  pub pow_difficulty : Field
  pub timestamp : Field
  pub zone_id : Field
  pub nonce : Bytes
  pub payload : Bytes

pub data RejectReason : Type 0 where
  malformed bad_packet_id_type bad_timestamp bad_payload_size bad_nonce_size : RejectReason
  bad_hop_count bad_pow_nonce time_drift packet_id_mismatch insufficient_pow : RejectReason

pub data ValidationResult : Type 0 where
  accept : ValidationResult
  fail : RejectReason → ValidationResult

pub record ValidateOptions : Type 0 where
  pub now : ℕ
  pub allow_stale : Bool

unfoldable pub committed_header_of : GossipPacket → PowCommittedHeader
committed_header_of p = record {
  timestamp = p.timestamp;
  zone_id = p.zone_id;
  pow_difficulty = p.pow_difficulty;
  nonce = p.nonce;
  payload = p.payload;
}

module _ (sha256 : Bytes → Bytes) where
  -- The checks from the identifier on: 5. and 6.
  unfoldable pub check_hash : GossipPacket → Text → ℕ → ValidationResult
  check_hash p packet_id pow_nonce = elim (derive_packet_id sha256 (committed_header_of p)) [
    | none ↦ fail malformed
    | some expected_id ↦
        if not (expected_id == packet_id)
        then fail packet_id_mismatch
        else if not (verify_pow sha256 (committed_header_of p) pow_nonce)
        then fail insufficient_pow
        else accept
  ]

  -- 4. A clock value on both sides; the differences are compared without going below 0.
  unfoldable pub check_time : ValidateOptions → GossipPacket → Text → ℕ → ℕ → ValidationResult
  check_time opts p packet_id timestamp pow_nonce =
      if ltb (opts.now + max_time_drift) timestamp
      then fail time_drift
      else if not opts.allow_stale && ltb (timestamp + max_time_drift) opts.now
      then fail time_drift
      else check_hash p packet_id pow_nonce

  -- 1. to 3.
  unfoldable pub check_fields : ValidateOptions → GossipPacket → Text → ℕ → ValidationResult
  check_fields opts p packet_id timestamp =
      if nat_beq (length p.payload) 0 || ltb max_payload_size (length p.payload)
      then fail bad_payload_size
      else if not (nat_beq (length p.nonce) nonce_size)
      then fail bad_nonce_size
      else elim (int_below (max_hop_count + 1) p.hop_count) [
        | none ↦ fail bad_hop_count
        | some _ ↦ elim (int_below safe_limit p.pow_nonce) [
          | none ↦ fail bad_pow_nonce
          | some pow_nonce ↦ check_time opts p packet_id timestamp pow_nonce
        ]
      ]

  unfoldable pub check_types : ValidateOptions → GossipPacket → Option Text → ValidationResult
  check_types opts p none = fail bad_packet_id_type
  check_types opts p (some packet_id) =
      if not (nat_beq (length packet_id) 64)
      then fail bad_packet_id_type
      else elim (int_below safe_limit p.timestamp) [
        | none ↦ fail bad_timestamp
        | some timestamp ↦ check_fields opts p packet_id timestamp
      ]

  unfoldable pub check : Option GossipPacket → ValidateOptions → ValidationResult
  unfolding check_types check_fields check_time check_hash
  check none opts = fail malformed
  check (some p) opts = check_types opts p p.packet_id

  unfoldable pub validate : Option GossipPacket → ValidateOptions → Bool
  validate packet opts = elim (check packet opts) [ accept ↦ true | fail reason ↦ false ]

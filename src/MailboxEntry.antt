-- ===== src/MailboxEntry.antt =====
-- packages/core/src/network/mailbox/MailboxEntry.ts: which entries a keeper of the mailbox takes.
-- The reading of a packet from its JSON is the parameter `parse_packet`.
pub mod Filter
use aether_web_lite.Prelude.{
  ℕ, ◌+◌, ◌*◌, Bool, true, false, not, ◌&&◌, ◌||◌, Option, none, some, List, [], ◌∷◌, ◌++◌, ltb,
  nat_beq, if◌then◌else◌, length, take, includes, all_of,
}
use aether_web_lite.Prelude.Text.{Text, text, text_eq}
use aether_web_lite.JsMap
use aether_web_lite.JsMap.{JsMap}
use aether_web_lite.Bytes.{Bytes}
use aether_web_lite.TrackerProtocol.{hex_text}
use aether_web_lite.HintPacket.{decode_slot_blob, verify_hint_pow, hint_pow_difficulty}
use aether_web_lite.PacketValidator.{
  GossipPacket, RejectReason, malformed, bad_packet_id_type, bad_timestamp, bad_payload_size,
  bad_nonce_size, bad_hop_count, bad_pow_nonce, time_drift, packet_id_mismatch, insufficient_pow,
  accept, fail, check,
}

abbrev pub max_entry_bytes : ℕ
max_entry_bytes = 16 * 1024

abbrev pub max_entries_per_message : ℕ
max_entries_per_message = 64

abbrev pub max_entries_per_topic : ℕ
max_entries_per_topic = 4

abbrev pub max_topics : ℕ
max_topics = 4096

abbrev pub max_total_bytes : ℕ
max_total_bytes = 64 * 1024 * 1024

abbrev pub max_bytes_per_peer : ℕ
max_bytes_per_peer = 8 * 1024 * 1024

abbrev pub retention_ms : ℕ
retention_ms = 30 * 24 * 60 * 60 * 1000

pub data EntryRejectReason : Type 0 where
  packet_refused : RejectReason → EntryRejectReason
  entry_too_large not_json not_a_packet bad_hint_pow : EntryRejectReason

abbrev pub reason_name : EntryRejectReason → Text
reason_name (packet_refused malformed) = text "malformed"
reason_name (packet_refused bad_packet_id_type) = text "bad-packet-id-type"
reason_name (packet_refused bad_timestamp) = text "bad-timestamp"
reason_name (packet_refused bad_payload_size) = text "bad-payload-size"
reason_name (packet_refused bad_nonce_size) = text "bad-nonce-size"
reason_name (packet_refused bad_hop_count) = text "bad-hop-count"
reason_name (packet_refused bad_pow_nonce) = text "bad-pow-nonce"
reason_name (packet_refused time_drift) = text "time-drift"
reason_name (packet_refused packet_id_mismatch) = text "packet-id-mismatch"
reason_name (packet_refused insufficient_pow) = text "insufficient-pow"
reason_name entry_too_large = text "too-large"
reason_name not_json = text "not-json"
reason_name not_a_packet = text "not-a-packet"
reason_name bad_hint_pow = text "bad-hint-pow"

pub data EntryCheck : Type 0 where
  entry_ok : GossipPacket → EntryCheck
  entry_fail : EntryRejectReason → EntryCheck

-- What JsonBinary.parse makes of bytes: an error, no object, or a packet.
pub data Parsed : Type 0 where
  parse_error no_object : Parsed
  parsed_packet : GossipPacket → Parsed

-- TOPIC_HASH_RE
abbrev pub is_valid_topic_hash : Text → Bool
is_valid_topic_hash t = hex_text 64 t || hex_text 128 t

pub record Filtered : Type 0 where
  pub accepted : List Bytes
  pub rejected : JsMap Text ℕ

abbrev pub count_in : Option ℕ → ℕ
count_in none = 0
count_in (some n) = n

abbrev pub note : EntryRejectReason → Filtered → Filtered
note reason f = record f {
  rejected =
      JsMap.set (reason_name reason) (count_in (JsMap.get (reason_name reason) f.rejected) + 1)
        f.rejected;
}

-- The id of a packet that was checked, which is a text.
abbrev pub packet_id_of : GossipPacket → Text
packet_id_of p = elim p.packet_id [ none ↦ [] | some id ↦ id ]

module _ (sha256 : Bytes → Bytes) (parse_packet : Bytes → Parsed) where
  unfoldable pub check_parsed : ℕ → Parsed → EntryCheck
  check_parsed now parse_error = entry_fail not_json
  check_parsed now no_object = entry_fail not_a_packet
  check_parsed now (parsed_packet p) =
      elim (check sha256 (some p) (record { now = now; allow_stale = true })) [
        | accept ↦ entry_ok p
        | fail reason ↦ entry_fail (packet_refused reason)
      ]

  abbrev pub check_packet_bytes : Bytes → ℕ → EntryCheck
  check_packet_bytes bytes now = check_parsed now (parse_packet bytes)

  unfoldable pub check_entry : Bytes → ℕ → EntryCheck
  check_entry entry now =
      if nat_beq (length entry) 0 || ltb max_entry_bytes (length entry)
      then entry_fail entry_too_large
      else elim (decode_slot_blob entry) [
        | none ↦ check_packet_bytes entry now
        | some slot ↦
            if not (verify_hint_pow sha256 hint_pow_difficulty slot.hint)
            then entry_fail bad_hint_pow
            else check_packet_bytes slot.body now
      ]

  -- The loop over the entries; `none` is one that is no bytes.
  unfoldable pub filter_loop : ℕ → List Text → Filtered → List (Option Bytes) → Filtered
  filter_loop now seen f [] = f
  filter_loop now seen f (none ∷ rest) = filter_loop now seen (note not_a_packet f) rest
  filter_loop now seen f (some entry ∷ rest) = elim (check_entry entry now) [
    | entry_fail reason ↦ filter_loop now seen (note reason f) rest
    | entry_ok p ↦
        let again = filter_loop now seen f rest in
        let taken =
          filter_loop now (packet_id_of p ∷ seen) (record f { accepted = f.accepted ++ entry ∷ [] })
            rest in
        if includes (packet_id_of p) seen then again else taken
  ]

  -- `none` is no array.
  unfoldable pub filter_valid_entries : Option (List (Option Bytes)) → ℕ → Filtered
  filter_valid_entries none now = record { accepted = []; rejected = [] }
  filter_valid_entries (some entries) now =
      filter_loop now [] (record { accepted = []; rejected = [] })
        (take max_entries_per_message entries)

-- ===== src/DhtMailbox/Tests.antt =====
-- A mailbox that a peer puts an entry into.
use aether_web_lite.Prelude.{ℕ, ◌≡◌, ◌≢◌, refl, none, some, List, [], ◌∷◌, arith}
use aether_web_lite.Prelude.Text.{Text, text, text_eq}
use aether_web_lite.JsMap
use aether_web_lite.Bytes.{Bytes, big_endian}
use aether_web_lite.PowPolicy.{
  derive_packet_id, pow_preimage, verify_pow, pow_hash, meets_difficulty, zero_bytes, masked,
  to_hex,
}
use aether_web_lite.PacketValidator.{check, committed_header_of}
use aether_web_lite.PacketValidator.Tests.{zeros, packet}
use aether_web_lite.HintPacket.{decode_slot_blob}
use aether_web_lite.MailboxEntry.{
  Parsed, parsed_packet, filter_valid_entries, filter_loop, check_entry, check_parsed,
  max_entries_per_message,
}
use aether_web_lite.MailboxEntry.Filter.{Sound, filter_valid_entries-Sound}
use aether_web_lite.DhtMailbox.{
  StoredTopic, DhtMailbox, accept_for_storage, admit, charge_peer_quota, fresh, store_put,
}
use aether_web_lite.DhtMailbox.Handlers.{
  Ring, MailboxOp, puts, prunes, run, handle_put, store_and_tell, find_k_nearest, parse_hex,
  slot_stored,
}
use aether_web_lite.DhtMailbox.Limits.{WithinLimits}
use aether_web_lite.DhtMailbox.History.{run-WithinLimits}
use aether_web_lite.DhtMailbox.Replay.{accept_for_storage_again}
use aether_web_lite.DhtMailbox.Usage.{Counts, Fits, offered, accept_for_storage-Counts}

-- Every entry holds the packet of PacketValidator's tests.
abbrev parse : Bytes → Parsed
parse b = parsed_packet packet

abbrev plain_size : StoredTopic → ℕ
plain_size topic = 100

abbrev topic_a : Text
topic_a = text "0123456789abcdef0123456789abcdef0123456789abcdef0123456789abcdef"

abbrev alone : Ring
alone = record { my_position = 5; peers = [] }

abbrev empty_mailbox : DhtMailbox
empty_mailbox = record {
  store = [];
  usage_bytes = none;
  peer_quota = [];
  pending_requests = [];
  my_peer_id = text "me";
}

duplicates_dropped :
    (filter_valid_entries zeros parse
      (some (some (1 ∷ []) ∷ none ∷ some (2 ∷ []) ∷ []))
      1000).accepted
    ≡ (1 ∷ []) ∷ []
unfolding filter_valid_entries filter_loop check_entry check_parsed decode_slot_blob check
    committed_header_of derive_packet_id pow_preimage big_endian verify_pow pow_hash
    meets_difficulty zero_bytes masked to_hex
duplicates_dropped = refl

filter_valid_entries-Sound_example :
    Sound zeros parse 1000 max_entries_per_message
      (filter_valid_entries zeros parse (some (some (1 ∷ []) ∷ none ∷ some (2 ∷ []) ∷ [])) 1000)
filter_valid_entries-Sound_example =
    filter_valid_entries-Sound zeros parse 1000 (some (some (1 ∷ []) ∷ none ∷ some (2 ∷ []) ∷ []))

empty-WithinLimits : WithinLimits empty_mailbox
unfolding JsMap.get
empty-WithinLimits = record {
  distinct = tt;
  topics = omega arith;
  entries = λ t. omega arith;
  once = λ t. tt;
}

abbrev history : List MailboxOp
history =
    puts (text "peer") (some topic_a) (some (some (1 ∷ []) ∷ [])) 1000 alone
    ∷ prunes 5_000_000_000
    ∷ []

run-WithinLimits_example : WithinLimits (run zeros parse plain_size empty_mailbox history)
run-WithinLimits_example =
    run-WithinLimits zeros parse plain_size empty_mailbox history empty-WithinLimits

told :
    (handle_put zeros parse plain_size
      (text "peer")
      (some topic_a)
      (some (some (1 ∷ []) ∷ []))
      1000
      alone
      empty_mailbox).0
    ≡ slot_stored (1 ∷ []) topic_a ∷ []
unfolding handle_put store_and_tell find_k_nearest parse_hex accept_for_storage admit
    charge_peer_quota fresh store_put filter_valid_entries filter_loop check_entry check_parsed
    decode_slot_blob check committed_header_of derive_packet_id pow_preimage big_endian verify_pow
    pow_hash meets_difficulty zero_bytes masked to_hex JsMap.get JsMap.set
told = refl

abbrev two : List Bytes
two = (1 ∷ []) ∷ (2 ∷ []) ∷ []

stored : (accept_for_storage plain_size topic_a two (text "peer") 1000 empty_mailbox).0 ≢ []
unfolding accept_for_storage admit charge_peer_quota fresh store_put to_hex JsMap.get JsMap.set
stored e = cc

accept_for_storage_again_example :
    accept_for_storage plain_size topic_a two
      (text "other")
      2000
      (accept_for_storage plain_size topic_a two (text "peer") 1000 empty_mailbox).1
    ≡ ([], (accept_for_storage plain_size topic_a two (text "peer") 1000 empty_mailbox).1)
accept_for_storage_again_example =
    accept_for_storage_again plain_size topic_a two (text "peer") (text "other") 1000 2000
      empty_mailbox stored

accept_for_storage-Counts_example :
    Counts plain_size topic_a
      (text "peer")
      1000
      empty_mailbox
      (accept_for_storage plain_size topic_a two (text "peer") 1000 empty_mailbox)
    × (Fits plain_size topic_a
          (text "peer")
          1000
          (offered plain_size topic_a (text "peer") 1000 two empty_mailbox)
          empty_mailbox
        → (accept_for_storage plain_size topic_a two (text "peer") 1000 empty_mailbox).0
          ≡ offered plain_size topic_a (text "peer") 1000 two empty_mailbox)
accept_for_storage-Counts_example =
    accept_for_storage-Counts plain_size topic_a (text "peer") 1000 two empty_mailbox

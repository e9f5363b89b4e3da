-- ===== src/DhtMailbox/History.antt =====
-- Whatever happens to a mailbox, it stays within its limits.
use aether_web_lite.Prelude.{
  nat_beq, ℕ, Option, none, some, List, [], ◌∷◌, arith, length, Bool-cases, Option-cases, inl, inr,
}
use aether_web_lite.Prelude.Text.{Text, text_eq}
use aether_web_lite.JsMap
use aether_web_lite.Bytes.{Bytes}
use aether_web_lite.HintPacket.{decode_hint}
use aether_web_lite.MailboxEntry.{Parsed, filter_valid_entries, is_valid_topic_hash}
use aether_web_lite.DhtMailbox.{StoredTopic, PendingRequest, DhtMailbox}
use aether_web_lite.DhtMailbox.Handlers.{
  Ring, is_responsible_for, handle_put, handle_res, store_and_tell, answered, put_to_k_nearest,
  put_checked, store_slot_as_exit, slot_of, MailboxOp, puts, responds, exits, prunes, step, run,
}
use aether_web_lite.DhtMailbox.Limits.{WithinLimits, accept_for_storage-WithinLimits}
use aether_web_lite.DhtMailbox.Pruning.{prune_expired-WithinLimits}

module _ (sha256 : Bytes → Bytes) (parse_packet : Bytes → Parsed) (sealed : StoredTopic → ℕ) where
  handle_put-WithinLimits :
      (peer : Text) (topic : Option Text) (entries : Option (List (Option Bytes))) (now : ℕ)
      (ring : Ring) (m : DhtMailbox)
      → WithinLimits m
      → WithinLimits (handle_put sha256 parse_packet sealed peer topic entries now ring m).1
  unfolding handle_put store_and_tell
  handle_put-WithinLimits peer none entries now ring m h = h
  handle_put-WithinLimits peer (some topic) entries now ring m h =
      let accepted = (filter_valid_entries sha256 parse_packet entries now).accepted in
      elim (Bool-cases (is_valid_topic_hash topic)) [
        | inr a ↦ rw (handle_put, a) h
        | inl a ↦ elim (Bool-cases (is_responsible_for topic m.my_peer_id ring)) [
          | inr b ↦ rw (handle_put, a, b) h
          | inl b ↦ elim (Bool-cases (nat_beq (length accepted) 0)) [
            | inl c ↦ rw (handle_put, a, b, c) h
            | inr c ↦
                rw (handle_put, a, b, c)
                  (accept_for_storage-WithinLimits sealed topic accepted peer now m h)
          ]
        ]
      ]

  answered-WithinLimits :
      (peer req_id : Text) (request : PendingRequest) (entries : Option (List (Option Bytes)))
      (now : ℕ) (ring : Ring) (m : DhtMailbox)
      → WithinLimits m
      → WithinLimits (answered sha256 parse_packet sealed peer req_id request entries now ring m).1
  unfolding answered store_and_tell
  answered-WithinLimits peer req_id request entries now ring before h =
      let m : DhtMailbox = record before {
        pending_requests = JsMap.delete req_id before.pending_requests;
      } in
      let accepted = (filter_valid_entries sha256 parse_packet entries now).accepted in
      let stored =
        accept_for_storage-WithinLimits sealed request.topic_hash accepted peer now m h in
      ground (arith, h, stored)

  handle_res-WithinLimits :
      (peer : Text) (req_id topic : Option Text) (entries : Option (List (Option Bytes))) (now : ℕ)
      (ring : Ring) (m : DhtMailbox)
      → WithinLimits m
      → WithinLimits (handle_res sha256 parse_packet sealed peer req_id topic entries now ring m).1
  unfolding handle_res
  handle_res-WithinLimits peer none topic entries now ring m h = h
  handle_res-WithinLimits peer (some req_id) topic entries now ring m h =
      elim (Option-cases (JsMap.get req_id m.pending_requests)) [
        | inl e ↦ rw (handle_res, e) h
        | inr (request, e) ↦
            let done = answered-WithinLimits peer req_id request entries now ring m h in
            ground (arith, e, h, done)
      ]

  put_to_k_nearest-WithinLimits :
      (topic : Text) (entry : Bytes) (now : ℕ) (ring : Ring) (m : DhtMailbox)
      → WithinLimits m
      → WithinLimits (put_to_k_nearest sha256 parse_packet sealed topic entry now ring m).1
  unfolding put_to_k_nearest
  put_to_k_nearest-WithinLimits topic entry now ring m h =
      let kept = accept_for_storage-WithinLimits sealed topic (entry ∷ []) m.my_peer_id now m h in
      ground (arith, h, kept)

  put_checked-WithinLimits :
      (topic : Text) (entry : Option Bytes) (now : ℕ) (ring : Ring) (m : DhtMailbox)
      → WithinLimits m
      → WithinLimits (put_checked sha256 parse_packet sealed topic entry now ring m).1
  put_checked-WithinLimits topic none now ring m h = h
  put_checked-WithinLimits topic (some entry) now ring m h =
      let kept = put_to_k_nearest-WithinLimits topic entry now ring m h in ground (arith, h, kept)

  store_slot_as_exit-WithinLimits :
      (topic : Text) (hint_bytes body : Bytes) (now : ℕ) (ring : Ring) (m : DhtMailbox)
      → WithinLimits m
      → WithinLimits
          (store_slot_as_exit sha256 parse_packet sealed topic hint_bytes body now ring m).1
  unfolding store_slot_as_exit
  store_slot_as_exit-WithinLimits topic hint_bytes body now ring m h =
      let slot = slot_of (decode_hint hint_bytes) body in
      let kept = put_checked-WithinLimits topic slot now ring m h in ground (arith, h, kept)

  step-WithinLimits :
      (m : DhtMailbox) (op : MailboxOp)
      → WithinLimits m
      → WithinLimits (step sha256 parse_packet sealed m op)
  unfolding step
  step-WithinLimits m (puts peer topic entries now ring) h =
      handle_put-WithinLimits peer topic entries now ring m h
  step-WithinLimits m (responds peer req_id topic entries now ring) h =
      handle_res-WithinLimits peer req_id topic entries now ring m h
  step-WithinLimits m (exits topic hint_bytes body now ring) h =
      store_slot_as_exit-WithinLimits topic hint_bytes body now ring m h
  step-WithinLimits m (prunes now) h = prune_expired-WithinLimits now m h

  -- Whatever peers put and answer, in whatever order, and however often it is pruned, a mailbox within
  -- its limits stays within them: at most 4096 topics, each once, of at most four entries that are
  -- all different.
  pub run-WithinLimits :
      (m : DhtMailbox) (ops : List MailboxOp)
      → WithinLimits m
      → WithinLimits (run sha256 parse_packet sealed m ops)
  unfolding run
  run-WithinLimits m [] h = h
  run-WithinLimits m (op ∷ ops) h =
      run-WithinLimits (step sha256 parse_packet sealed m op) ops (step-WithinLimits m op h)

-- ===== src/DhtMailbox/Handlers.antt =====
-- packages/core/src/network/mailbox/DHTMailbox.ts: the messages of the mailbox. A position on the
-- ring is a number of parts of which the ring has `ring_size`; the source computes in floating
-- point. A handler returns its effects in their order with the new state.
use aether_web_lite.Prelude.{
  ℕ, zero, suc, ◌+◌, ◌-◌, ◌*◌, ◌^◌, Bool, false, not, ◌&&◌, Option, none, some, List, [], ◌∷◌, ◌++◌,
  ltb, leb, nat_beq, if◌then◌else◌, ◌==◌, length, take, drop, includes, min, sort,
}
use aether_web_lite.Prelude.Text.{Text, text_eq}
use aether_web_lite.JsMap
use aether_web_lite.JsMap.{JsMap}
use aether_web_lite.Bytes.{Bytes}
use aether_web_lite.HintPacket.{HintPacket, decode_hint, encode_slot_blob}
use aether_web_lite.MailboxEntry.{
  Parsed, entry_ok, entry_fail, check_entry, filter_valid_entries, is_valid_topic_hash,
  max_entries_per_message,
}
use aether_web_lite.DhtMailbox.{
  StoredTopic, PendingRequest, DhtMailbox, entries_of, accept_for_storage, prune_expired,
}

abbrev pub k_nearest : ℕ
k_nearest = 5

abbrev pub put_accept_slack : ℕ
put_accept_slack = 3

-- A common denominator of the positions of topics and of peers.
abbrev pub ring_size : ℕ
ring_size = (2 ^ 32 - 1) * 2 ^ 53

pub record RingPeer : Type 0 where
  pub peer_id : Text
  pub is_connected : Bool
  pub is_verified : Bool
  pub position : ℕ

-- The node itself and its neighbours, as its PeerManager knows them.
pub record Ring : Type 0 where
  pub my_position : ℕ
  pub peers : List RingPeer

-- RingPosition.distance
abbrev pub distance : ℕ → ℕ → ℕ
distance a b = let d = (a - b) + (b - a) in min d (ring_size - d)

abbrev pub hex_value : ℕ → ℕ
hex_value c = if ltb c 58 then c - 48 else c - 87

-- `parseInt(prefix, 16)`, of hexadecimal digits.
unfoldable pub parse_hex : ℕ → Text → ℕ
parse_hex acc [] = acc
parse_hex acc (c ∷ t) = parse_hex (acc * 16 + hex_value c) t

abbrev pub hash_to_position : Text → ℕ
hash_to_position topic = parse_hex 0 (take 8 topic) * 2 ^ 53

abbrev pub located : List RingPeer → List (Text × ℕ)
located [] = []
located (p ∷ ps) =
    let rest = located ps in
    if p.is_connected && p.is_verified then (p.peer_id, p.position) ∷ rest else rest

abbrev pub nearer : ℕ → Text × ℕ → Text × ℕ → Bool
nearer topic a b = leb (distance topic a.1) (distance topic b.1)

abbrev pub ids : List (Text × ℕ) → List Text
ids [] = []
ids ((id, position) ∷ rest) = id ∷ ids rest

unfoldable pub find_k_nearest : ℕ → ℕ → Text → Ring → List Text
find_k_nearest topic k me ring =
    ids (take k (sort (nearer topic) (located ring.peers ++ (me, ring.my_position) ∷ [])))

abbrev pub is_responsible_for : Text → Text → Ring → Bool
is_responsible_for topic me ring =
    includes me (find_k_nearest (hash_to_position topic) (k_nearest + put_accept_slack) me ring)

pub data MailboxEffect : Type 0 where
  sends_put : Text → Text → List Bytes → MailboxEffect
  sends_res : Text → Text → Text → List Bytes → MailboxEffect
  resolves : Text → List Bytes → MailboxEffect
  slot_stored : Bytes → Text → MailboxEffect

abbrev pub notices : Text → List Bytes → List MailboxEffect
notices topic [] = []
notices topic (e ∷ es) = slot_stored e topic ∷ notices topic es

-- The loop of `replicate`, with the rounds that are left.
unfoldable pub replicate_loop : ℕ → Text → Text → List Bytes → List MailboxEffect
replicate_loop zero target topic entries = []
replicate_loop (suc left) target topic entries =
    let rest = replicate_loop left target topic (drop max_entries_per_message entries) in
    if nat_beq (length entries) 0
    then []
    else sends_put target topic (take max_entries_per_message entries) ∷ rest

abbrev pub replicate : Text → Text → List Bytes → List MailboxEffect
replicate target topic entries = replicate_loop (length entries) target topic entries

-- A topic or a request id that is no text is `none`.
unfoldable pub handle_get : Text → Option Text → Option Text → DhtMailbox → List MailboxEffect
handle_get peer (some topic) (some req_id) m =
    if not (is_valid_topic_hash topic)
    then []
    else if ltb 64 (length req_id)
    then []
    else sends_res peer topic req_id
        (take max_entries_per_message (entries_of (JsMap.get topic m.store)))
      ∷ []
handle_get peer _ _ m = []

abbrev pub names_topic : Option Text → Text → Bool
names_topic none topic = false
names_topic (some t) topic = t == topic

abbrev pub puts_to : Text → Text → Bytes → List Text → List MailboxEffect
puts_to me topic data_of [] = []
puts_to me topic data_of (id ∷ rest) =
    let others = puts_to me topic data_of rest in
    if id == me then others else sends_put id topic (data_of ∷ []) ∷ others

abbrev pub slot_of : Option HintPacket → Bytes → Option Bytes
slot_of none body = none
slot_of (some hint) body = encode_slot_blob hint body

-- What happens to the mailbox, each at its time.
pub data MailboxOp : Type 0 where
  puts : Text → Option Text → Option (List (Option Bytes)) → ℕ → Ring → MailboxOp
  responds : Text → Option Text → Option Text → Option (List (Option Bytes)) → ℕ → Ring → MailboxOp
  exits : Text → Bytes → Bytes → ℕ → Ring → MailboxOp
  prunes : ℕ → MailboxOp

module _ (sha256 : Bytes → Bytes) (parse_packet : Bytes → Parsed) (sealed : StoredTopic → ℕ) where
  -- The entries are stored, and the listeners are told of those that were.
  unfoldable pub store_and_tell :
      Text → List Bytes → Text → ℕ → DhtMailbox → List MailboxEffect × DhtMailbox
  store_and_tell topic entries source now m =
      let (stored, m1) = accept_for_storage sealed topic entries source now m in
      (notices topic stored, m1)

  unfoldable pub handle_put :
      Text
      → Option Text
      → Option (List (Option Bytes))
      → ℕ
      → Ring
      → DhtMailbox
      → List MailboxEffect × DhtMailbox
  handle_put peer none entries now ring m = ([], m)
  handle_put peer (some topic) entries now ring m =
      let accepted = (filter_valid_entries sha256 parse_packet entries now).accepted in
      if not (is_valid_topic_hash topic)
      then ([], m)
      else if not (is_responsible_for topic m.my_peer_id ring)
      then ([], m)
      else if nat_beq (length accepted) 0
      then ([], m)
      else store_and_tell topic accepted peer now m

  -- An answer to a question of one's own.
  unfoldable pub answered :
      Text
      → Text
      → PendingRequest
      → Option (List (Option Bytes))
      → ℕ
      → Ring
      → DhtMailbox
      → List MailboxEffect × DhtMailbox
  answered peer req_id request entries now ring before =
      let m : DhtMailbox = record before {
        pending_requests = JsMap.delete req_id before.pending_requests;
      } in
      let accepted = (filter_valid_entries sha256 parse_packet entries now).accepted in
      let (told, m1) = store_and_tell request.topic_hash accepted peer now m in
      if not (nat_beq (length accepted) 0)
        && is_responsible_for request.topic_hash m.my_peer_id ring
      then (resolves req_id accepted ∷ told, m1)
      else (resolves req_id accepted ∷ [], m)

  unfoldable pub handle_res :
      Text
      → Option Text
      → Option Text
      → Option (List (Option Bytes))
      → ℕ
      → Ring
      → DhtMailbox
      → List MailboxEffect × DhtMailbox
  handle_res peer none topic entries now ring m = ([], m)
  handle_res peer (some req_id) topic entries now ring m =
      elim (JsMap.get req_id m.pending_requests) [
        | none ↦ ([], m)
        | some request ↦
            if not (request.target == peer)
            then ([], m)
            else if not (names_topic topic request.topic_hash)
            then ([], m)
            else answered peer req_id request entries now ring m
      ]

  unfoldable pub put_to_k_nearest :
      Text → Bytes → ℕ → Ring → DhtMailbox → List MailboxEffect × DhtMailbox
  put_to_k_nearest topic entry now ring m =
      let nearest = find_k_nearest (hash_to_position topic) k_nearest m.my_peer_id ring in
      let sent = puts_to m.my_peer_id topic entry nearest in
      let kept = accept_for_storage sealed topic (entry ∷ []) m.my_peer_id now m in
      if includes m.my_peer_id nearest then (sent, kept.1) else (sent, m)

  abbrev pub put_checked :
      Text → Option Bytes → ℕ → Ring → DhtMailbox → List MailboxEffect × DhtMailbox
  put_checked topic none now ring m = ([], m)
  put_checked topic (some entry) now ring m = elim (check_entry sha256 parse_packet entry now) [
    | entry_fail reason ↦ ([], m)
    | entry_ok p ↦ put_to_k_nearest topic entry now ring m
  ]

  -- `body` is the packet as text in bytes.
  unfoldable pub store_slot_as_exit :
      Text → Bytes → Bytes → ℕ → Ring → DhtMailbox → List MailboxEffect × DhtMailbox
  store_slot_as_exit topic hint_bytes body now ring m =
      if not (is_valid_topic_hash topic)
      then ([], m)
      else put_checked topic (slot_of (decode_hint hint_bytes) body) now ring m

  unfoldable pub step : DhtMailbox → MailboxOp → DhtMailbox
  step m (puts peer topic entries now ring) = (handle_put peer topic entries now ring m).1
  step m (responds peer req_id topic entries now ring) =
      (handle_res peer req_id topic entries now ring m).1
  step m (exits topic hint_bytes body now ring) =
      (store_slot_as_exit topic hint_bytes body now ring m).1
  step m (prunes now) = prune_expired now m

  unfoldable pub run : DhtMailbox → List MailboxOp → DhtMailbox
  run m [] = m
  run m (op ∷ ops) = run (step m op) ops

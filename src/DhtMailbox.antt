-- ===== src/DhtMailbox.antt =====
-- packages/core/src/network/mailbox/DHTMailbox.ts, and the part of storage/IndexedDBStore.ts that
-- keeps its entries: what a node stores for others, and within which limits. The bytes that a
-- stored topic takes once it is encrypted are the parameter `sealed`.
pub mod Handlers
pub mod Store
pub mod Limits
pub mod Pruning
pub mod History
pub mod Replay
pub mod Usage
pub mod Tests
use aether_web_lite.Prelude.{
  ℕ, ◌+◌, ◌-◌, ◌*◌, ◌/◌, Bool, true, false, not, ◌&&◌, Option, none, some, List, [], ◌∷◌, ◌++◌, ltb,
  leb, nat_beq, if◌then◌else◌, ◌==◌, length, take, includes, keep_if, map,
}
use aether_web_lite.Prelude.Text.{Text, text_eq}
use aether_web_lite.JsMap
use aether_web_lite.JsMap.{JsMap}
use aether_web_lite.Bytes.{Bytes}
use aether_web_lite.PowPolicy.{to_hex}
use aether_web_lite.MailboxEntry.{
  max_entries_per_topic, max_topics, max_total_bytes, max_bytes_per_peer, retention_ms,
}

-- A record of the store.
pub record StoredTopic : Type 0 where
  pub entries : List Bytes
  pub last_updated : ℕ

pub record Quota : Type 0 where
  pub window_start : ℕ
  pub bytes : ℕ

-- A question that was sent and whom it was sent to.
pub record PendingRequest : Type 0 where
  pub topic_hash : Text
  pub target : Text

-- `usage_bytes` is `none` until it is computed.
pub record DhtMailbox : Type 0 where
  pub store : JsMap Text StoredTopic
  pub usage_bytes : Option ℕ
  pub peer_quota : JsMap Text Quota
  pub pending_requests : JsMap Text PendingRequest
  pub my_peer_id : Text

abbrev pub day_ms : ℕ
day_ms = 24 * 60 * 60 * 1000

abbrev pub hour_ms : ℕ
hour_ms = 60 * 60 * 1000

-- `?? []`
abbrev pub entries_of : Option StoredTopic → List Bytes
entries_of none = []
entries_of (some record_of) = record_of.entries

abbrev pub keys_of : List Bytes → List Text
keys_of es = map to_hex es

-- The entries that are not among the first ones.
unfoldable pub absent : List Text → List Bytes → List Bytes
absent have [] = []
absent have (e ∷ es) =
    let rest = absent have es in if includes (to_hex e) have then rest else e ∷ rest

-- IndexedDBStore.put
unfoldable pub store_put : Text → List Bytes → ℕ → JsMap Text StoredTopic → JsMap Text StoredTopic
store_put topic new now store = elim (JsMap.get topic store) [
  | none ↦ JsMap.set topic (record { entries = new; last_updated = now }) store
  | some old ↦
      let added = absent (keys_of old.entries) new in
      if nat_beq (length added) 0
      then store
      else JsMap.set topic (record { entries = old.entries ++ added; last_updated = now }) store
]

-- The entries that are not had and not repeated.
unfoldable pub fresh : List Text → List Bytes → List Bytes
fresh have [] = []
fresh have (e ∷ es) =
    let old = fresh have es in
    let new = fresh (to_hex e ∷ have) es in if includes (to_hex e) have then old else e ∷ new

abbrev pub total_bytes : List Bytes → ℕ
total_bytes [] = 0
total_bytes (e ∷ es) = length e + total_bytes es

-- The peer's window, begun anew after an hour.
abbrev pub window : ℕ → Option Quota → Quota
window now none = record { window_start = now; bytes = 0 }
window now (some q) =
    if ltb hour_ms (now - q.window_start) then record { window_start = now; bytes = 0 } else q

unfoldable pub charge_peer_quota : Text → ℕ → ℕ → JsMap Text Quota → Bool × JsMap Text Quota
charge_peer_quota peer bytes now quotas =
    let q = window now (JsMap.get peer quotas) in
    if ltb max_bytes_per_peer (q.bytes + bytes)
    then (false, JsMap.set peer q quotas)
    else (true, JsMap.set peer (record q { bytes = q.bytes + bytes }) quotas)

-- IndexedDBStore.pruneMailbox: the topics of the days before that of the cutoff.
abbrev pub is_stale : ℕ → StoredTopic → Bool
is_stale cutoff topic = ltb (topic.last_updated / day_ms) (cutoff / day_ms)

unfoldable pub prune_mailbox : ℕ → JsMap Text StoredTopic → JsMap Text StoredTopic
prune_mailbox cutoff store = keep_if (λ entry. not (is_stale cutoff entry.1)) store

abbrev pub window_over : ℕ → Quota → Bool
window_over now q = ltb hour_ms (now - q.window_start)

-- A time before the epoch's first retention is the epoch: nothing is older.
unfoldable pub prune_expired : ℕ → DhtMailbox → DhtMailbox
prune_expired now m =
    let kept = prune_mailbox (now - retention_ms) m.store in
    record m {
      store = kept;
      usage_bytes = if ltb (JsMap.size kept) (JsMap.size m.store) then none else m.usage_bytes;
      peer_quota = keep_if (λ entry. not (window_over now entry.1)) m.peer_quota;
    }

module _ (sealed : StoredTopic → ℕ) where
  abbrev pub mailbox_usage_bytes : JsMap Text StoredTopic → ℕ
  mailbox_usage_bytes [] = 0
  mailbox_usage_bytes ((k, topic) ∷ rest) = sealed topic + mailbox_usage_bytes rest

  abbrev pub current_usage : DhtMailbox → ℕ
  current_usage m = elim m.usage_bytes [ none ↦ mailbox_usage_bytes m.store | some n ↦ n ]

  -- The entries are written, and what they take is added.
  abbrev pub commit : Text → List Bytes → ℕ → ℕ → DhtMailbox → List Bytes × DhtMailbox
  commit topic candidates usage now m = (
    candidates,
    record m {
      store = store_put topic candidates now m.store;
      usage_bytes = some (usage + total_bytes candidates);
    },
  )

  -- The limits on bytes: the total, and what the sender may bring in an hour.
  unfoldable pub admit : Text → List Bytes → Text → ℕ → DhtMailbox → List Bytes × DhtMailbox
  admit topic candidates source now before =
      let usage = current_usage before in
      let m : DhtMailbox = record before { usage_bytes = some usage } in
      let bytes = total_bytes candidates in
      let (allowed, quotas) = charge_peer_quota source bytes now m.peer_quota in
      let charged : DhtMailbox = record m { peer_quota = quotas } in
      if ltb max_total_bytes (usage + bytes)
      then ([], m)
      else if source == m.my_peer_id
      then commit topic candidates usage now m
      else if not allowed
      then ([], charged)
      else commit topic candidates usage now charged

  unfoldable pub accept_for_storage :
      Text → List Bytes → Text → ℕ → DhtMailbox → List Bytes × DhtMailbox
  accept_for_storage topic entries source now m =
      let existing = entries_of (JsMap.get topic m.store) in
      let new = fresh (keys_of existing) entries in
      if leb max_entries_per_topic (length existing)
      then ([], m)
      else if nat_beq (length existing) 0 && leb max_topics (JsMap.size m.store)
      then ([], m)
      else if nat_beq (length new) 0
      then ([], m)
      else admit topic (take (max_entries_per_topic - length existing) new) source now m

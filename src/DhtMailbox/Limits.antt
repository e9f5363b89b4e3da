-- ===== src/DhtMailbox/Limits.antt =====
-- The limits of the storage, whatever arrives and from whomever.
use aether_web_lite.Prelude.{
  ℕ, ◌+◌, ◌-◌, ◌≤◌, ◌<◌, ◌≡◌, refl, sym, subst, Bool, true, false, List, [], ◌∷◌, ◌++◌, arith,
  length, take, includes, ◌==◌, ◌&&◌, if◌then◌else◌, Bool-cases, Option-cases, inl, inr, nat_beq,
  leb, length-append, length-take,
}
use aether_web_lite.Prelude.Text.{Text, text_eq}
use aether_web_lite.JsMap
use aether_web_lite.JsMap.{JsMap}
use aether_web_lite.JsMap.Laws.{has-get, size-set, Distinct-set}
use aether_web_lite.Bytes.{Bytes}
use aether_web_lite.PowPolicy.{to_hex}
use aether_web_lite.MailboxEntry.{max_entries_per_topic, max_topics}
use aether_web_lite.DhtMailbox.{
  StoredTopic, DhtMailbox, entries_of, keys_of, absent, store_put, fresh, commit, admit,
  accept_for_storage,
}
use aether_web_lite.DhtMailbox.Store.{weaken-New, New, fresh-New, take-New, get-store_put}

New-append :
    (have more : List Text) (xs ys : List Bytes)
    → ((k : Text)
        → includes k more ≡ false
        → (includes k have ≡ false) × (includes k (keys_of xs) ≡ false))
    → New have xs
    → New more ys
    → New have (xs ++ ys)
New-append have more [] ys w hx hy = weaken-New have more ys (λ k n. (w k n).0) hy
New-append have more (x ∷ xs) ys w hx hy =
    (hx.0, New-append (to_hex x ∷ have) more xs ys (λ k n. ground (arith, w k n)) hx.1 hy)

-- One record for each topic, no more topics than the limit, and for each topic no more entries
-- than its limit and none of them twice.
pub record StoreOk (store : JsMap Text StoredTopic) : Type 0 where
  pub distinct : JsMap.Distinct store
  pub topics : JsMap.size store ≤ 4096
  pub entries : (t : Text) → length (entries_of (JsMap.get t store)) ≤ 4
  pub once : (t : Text) → New [] (entries_of (JsMap.get t store))

abbrev pub WithinLimits : DhtMailbox → Type 0
WithinLimits m = StoreOk m.store

Distinct-store_put :
    (topic : Text) (new : List Bytes) (now : ℕ) (store : JsMap Text StoredTopic)
    → JsMap.Distinct store
    → JsMap.Distinct (store_put topic new now store)
unfolding store_put
Distinct-store_put topic new now store d = elim (Option-cases (JsMap.get topic store)) [
  | inl e ↦
      rw (store_put, e) (Distinct-set topic (record { entries = new; last_updated = now }) store d)
  | inr (old, e) ↦
      let added = absent (keys_of old.entries) new in
      let written : StoredTopic = record { entries = old.entries ++ added; last_updated = now } in
      ground (arith, e, d, Distinct-set topic written store d)
]

size-store_put-le :
    (topic : Text) (new : List Bytes) (now : ℕ) (store : JsMap Text StoredTopic)
    → ((length (entries_of (JsMap.get topic store)) ≡ 0) → JsMap.size store < max_topics)
    → JsMap.size store ≤ max_topics
    → JsMap.size (store_put topic new now store) ≤ max_topics
unfolding store_put
size-store_put-le topic new now store room h = elim (Option-cases (JsMap.get topic store)) [
  | inl e ↦
      let written : StoredTopic = record { entries = new; last_updated = now } in
      ground (arith, e, room, has-get topic store, size-set topic written store)
  | inr (old, e) ↦
      let added = absent (keys_of old.entries) new in
      let written : StoredTopic = record { entries = old.entries ++ added; last_updated = now } in
      ground (arith, e, has-get topic store, size-set topic written store)
]

if_New : (t : Bool) (xs ys : List Bytes) → New [] xs → New [] ys → New [] (if t then xs else ys)
if_New true xs ys h k = h
if_New false xs ys h k = k

store_put-StoreOk :
    (topic : Text) (new : List Bytes) (now : ℕ) (store : JsMap Text StoredTopic)
    → New (keys_of (entries_of (JsMap.get topic store))) new
    → length (entries_of (JsMap.get topic store)) + length new ≤ max_entries_per_topic
    → ((length (entries_of (JsMap.get topic store)) ≡ 0) → JsMap.size store < max_topics)
    → StoreOk store
    → StoreOk (store_put topic new now store)
store_put-StoreOk topic new now store n few room h = record {
  distinct = Distinct-store_put topic new now store h.distinct;
  topics = size-store_put-le topic new now store room h.topics;
  entries = λ t. ground (
    arith,
    get-store_put topic t new now store n,
    h.entries t,
    length-append (entries_of (JsMap.get topic store)) new,
  );
  once = λ t. subst (New []) (sym (get-store_put topic t new now store n)) (
      if_New (topic == t) (entries_of (JsMap.get topic store) ++ new)
        (entries_of (JsMap.get t store))
        (New-append [] (keys_of (entries_of (JsMap.get topic store)))
          (entries_of (JsMap.get topic store)) new (λ k m. (refl, m)) (h.once topic) n)
        (h.once t));
}

module _ (sealed : StoredTopic → ℕ) where
  commit-WithinLimits :
      (topic : Text) (new : List Bytes) (usage now : ℕ) (m : DhtMailbox)
      → New (keys_of (entries_of (JsMap.get topic m.store))) new
      → length (entries_of (JsMap.get topic m.store)) + length new ≤ max_entries_per_topic
      → ((length (entries_of (JsMap.get topic m.store)) ≡ 0) → JsMap.size m.store < max_topics)
      → WithinLimits m
      → WithinLimits (commit sealed topic new usage now m).1
  commit-WithinLimits topic new usage now m n few room h =
      store_put-StoreOk topic new now m.store n few room h

  admit-WithinLimits :
      (topic : Text) (new : List Bytes) (source : Text) (now : ℕ) (m : DhtMailbox)
      → New (keys_of (entries_of (JsMap.get topic m.store))) new
      → length (entries_of (JsMap.get topic m.store)) + length new ≤ max_entries_per_topic
      → ((length (entries_of (JsMap.get topic m.store)) ≡ 0) → JsMap.size m.store < max_topics)
      → WithinLimits m
      → WithinLimits (admit sealed topic new source now m).1
  unfolding admit
  admit-WithinLimits topic new source now m n few room h =
      let stored = store_put-StoreOk topic new now m.store n few room h in ground (arith, h, stored)

  pub accept_for_storage-WithinLimits :
      (topic : Text) (entries : List Bytes) (source : Text) (now : ℕ) (m : DhtMailbox)
      → WithinLimits m
      → WithinLimits (accept_for_storage sealed topic entries source now m).1
  unfolding accept_for_storage
  accept_for_storage-WithinLimits topic entries source now m h =
      let existing = entries_of (JsMap.get topic m.store) in
      let new = fresh (keys_of existing) entries in
      let some_new = take (max_entries_per_topic - length existing) new in
      elim (Bool-cases (nat_beq (length existing) 0 && leb max_topics (JsMap.size m.store))) [
        | inl full ↦ ground (arith, h, full)
        | inr room ↦
            let result =
              admit-WithinLimits topic some_new source now m
                (take-New (max_entries_per_topic - length existing) (keys_of existing) new
                  (fresh-New (keys_of existing) entries))
                (omega (
                  arith,
                  h.entries topic,
                  length-take (max_entries_per_topic - length existing) new,
                ))
                (λ none_there. ground (arith, room, none_there)) h in
            ground (arith, h, room, result)
      ]

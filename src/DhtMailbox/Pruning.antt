-- ===== src/DhtMailbox/Pruning.antt =====
-- Pruning only takes away.
use aether_web_lite.Prelude.{
  List, ℕ, ◌-◌, ◌≤◌, ◌≡◌, refl, subst, sym, Bool, false, not, some, [], ◌∷◌, arith, keep_if, length,
  length-keep_if-le, eq_iff, Option-cases, inl, inr,
}
use aether_web_lite.Prelude.Text.{Text, text_eq}
use aether_web_lite.JsMap
use aether_web_lite.JsMap.{JsMap}
use aether_web_lite.JsMap.Laws.{has-get}
use aether_web_lite.Bytes.{Bytes}
use aether_web_lite.MailboxEntry.{retention_ms, max_entries_per_topic}
use aether_web_lite.DhtMailbox.{
  StoredTopic, DhtMailbox, entries_of, prune_mailbox, prune_expired, is_stale,
}
use aether_web_lite.DhtMailbox.Store.{New}
use aether_web_lite.DhtMailbox.Limits.{StoreOk, WithinLimits}

module _ {V : Type 0} (p : Text × V → Bool) where
  has-keep_if :
      (k : Text) (m : JsMap Text V) → JsMap.has k m ≡ false → JsMap.has k (keep_if p m) ≡ false
  unfolding JsMap.has
  has-keep_if k [] h = refl
  has-keep_if k ((j, v) ∷ m) h = ground (arith, has-keep_if k m)

  Distinct-keep_if : (m : JsMap Text V) → JsMap.Distinct m → JsMap.Distinct (keep_if p m)
  Distinct-keep_if [] d = tt
  Distinct-keep_if ((j, v) ∷ m) d = ground (arith, Distinct-keep_if m d.1, has-keep_if j m d.0)

  -- What is found afterwards was there.
  get-keep_if :
      (k : Text) (v : V) (m : JsMap Text V)
      → JsMap.Distinct m
      → JsMap.get k (keep_if p m) ≡ some v
      → JsMap.get k m ≡ some v
  unfolding JsMap.get
  get-keep_if k v [] d h = h
  get-keep_if k v ((j, w) ∷ m) d h =
      ground
        (arith, h, get-keep_if k v m d.1, has-keep_if j m d.0, has-get j (keep_if p m), eq_iff j k)

abbrev stays : ℕ → Text × StoredTopic → Bool
stays cutoff entry = not (is_stale cutoff entry.1)

-- A topic keeps all its entries, or has none any more.
entries-prune :
    (P : List Bytes → Type 0) (cutoff : ℕ) (t : Text) (store : JsMap Text StoredTopic)
    → JsMap.Distinct store
    → P []
    → P (entries_of (JsMap.get t store))
    → P (entries_of (JsMap.get t (prune_mailbox cutoff store)))
unfolding prune_mailbox
entries-prune P cutoff t store d none_left h =
    elim (Option-cases (JsMap.get t (keep_if (stays cutoff) store))) [
      | inl e ↦ subst (λ o. P (entries_of o)) (sym e) none_left
      | inr (topic, e) ↦
          let old = get-keep_if (stays cutoff) t topic store d e in
          subst (λ o. P (entries_of o)) (sym e) (subst (λ o. P (entries_of o)) old h)
    ]

prune_mailbox-StoreOk :
    (cutoff : ℕ) (store : JsMap Text StoredTopic)
    → StoreOk store
    → StoreOk (prune_mailbox cutoff store)
unfolding prune_mailbox
prune_mailbox-StoreOk cutoff store h = record {
  distinct = Distinct-keep_if (stays cutoff) store h.distinct;
  topics = omega (arith, h.topics, length-keep_if-le (stays cutoff) store);
  entries = λ t.
      entries-prune (λ es. length es ≤ max_entries_per_topic) cutoff t store h.distinct
        (omega arith) (h.entries t);
  once = λ t. entries-prune (New []) cutoff t store h.distinct tt (h.once t);
}

pub prune_expired-WithinLimits :
    (now : ℕ) (m : DhtMailbox) → WithinLimits m → WithinLimits (prune_expired now m)
unfolding prune_expired
prune_expired-WithinLimits now m h = prune_mailbox-StoreOk (now - retention_ms) m.store h

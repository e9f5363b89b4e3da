-- ===== src/DhtMailbox/Usage.antt =====
-- What a call stores, what it counts for it, and whom it charges.
use aether_web_lite.Prelude.{
  zero, suc, none, ◌∷◌, Bool, Option, leb, nat_beq, ◌&&◌, ℕ, ◌+◌, ◌-◌, ◌≤◌, ◌≡◌, ◌<◌, ◌≢◌, refl, ap,
  sym, ◌∙◌, true, false, some, List, [], ◌++◌, arith, length, take, Bool-cases, inl, inr, ltb, ◌==◌,
  eq_iff, if◌then◌else◌,
}
use mathlib.Core.List.{append-nil}
use aether_web_lite.Prelude.Text.{Text, text_eq}
use aether_web_lite.JsMap
use aether_web_lite.JsMap.{JsMap}
use aether_web_lite.JsMap.Laws.{get-set_self}
use aether_web_lite.Bytes.{Bytes}
use aether_web_lite.MailboxEntry.{
  max_entries_per_topic, max_topics, max_total_bytes, max_bytes_per_peer,
}
use aether_web_lite.DhtMailbox.{
  StoredTopic, Quota, DhtMailbox, entries_of, keys_of, fresh, window, admit, accept_for_storage,
  charge_peer_quota, total_bytes, current_usage,
}
use aether_web_lite.DhtMailbox.Store.{New, fresh-New, take-New, get-store_put}

-- The bytes that a peer is charged with since its window began, if that is an hour ago at most.
abbrev pub charged_with : ℕ → Option Quota → ℕ
charged_with now none = 0
charged_with now (some q) = if leb (now - q.window_start) 3_600_000 then q.bytes else 0

abbrev pub account : ℕ → Text → JsMap Text Quota → ℕ
account now peer quotas = charged_with now (JsMap.get peer quotas)

-- The window that a charge finds or begins holds what the peer is charged with, and is open.
window-charged_with :
    (now : ℕ) (o : Option Quota)
    → ((window now o).bytes ≡ charged_with now o)
      × (leb (now - (window now o).window_start) 3_600_000 ≡ true)
window-charged_with now none = (refl, ground arith)
window-charged_with now (some q) = ground arith

account-set :
    (peer : Text) (now bytes : ℕ) (q : Quota) (quotas : JsMap Text Quota)
    → leb (now - q.window_start) 3_600_000 ≡ true
    → account now peer (JsMap.set peer (record q { bytes = bytes }) quotas) ≡ bytes
account-set peer now bytes q quotas h =
    ap (charged_with now) (get-set_self peer (record q { bytes = bytes }) quotas) ∙ rw h refl

-- A charge that is allowed is added to the account, within the quota; one that is not changes none.
record Charged (peer : Text) (bytes now : ℕ) (quotas : JsMap Text Quota)
    (result : Bool × JsMap Text Quota) : Type 0 where
  added :
      account now peer result.1
      ≡ (if result.0 then account now peer quotas + bytes else account now peer quotas)
  fits : result.0 ≡ true → account now peer result.1 ≤ max_bytes_per_peer
  enough : account now peer quotas + bytes ≤ max_bytes_per_peer → result.0 ≡ true

charge_peer_quota-Charged :
    (peer : Text) (bytes now : ℕ) (quotas : JsMap Text Quota)
    → Charged peer bytes now quotas (charge_peer_quota peer bytes now quotas)
unfolding charge_peer_quota
charge_peer_quota-Charged peer bytes now quotas =
    let q = window now (JsMap.get peer quotas) in
    let (held, still) = window-charged_with now (JsMap.get peer quotas) in
    elim (Bool-cases (ltb max_bytes_per_peer (q.bytes + bytes))) [
      | inl over ↦
          rw (charge_peer_quota, over)
            (record {
              added = account-set peer now q.bytes q quotas still ∙ held;
              fits = λ h. cc;
              enough = λ h. ground (arith, held, over);
            })
      | inr room ↦
          let now_there = account-set peer now (q.bytes + bytes) q quotas still in
          rw (charge_peer_quota, room)
            (record {
              added = now_there ∙ ap (λ n. n + bytes) held;
              fits = λ h. ground (arith, now_there, room);
              enough = λ h. refl;
            })
    ]

append_nothing :
    (b : Bool) (xs ys : List Bytes) → (if b then xs ++ [] else ys) ≡ (if b then xs else ys)
append_nothing true xs ys = append-nil xs
append_nothing false xs ys = refl

same_topic :
    (topic t : Text) (store : JsMap Text StoredTopic)
    → entries_of (JsMap.get t store)
      ≡ (if topic == t then entries_of (JsMap.get topic store) else entries_of (JsMap.get t store))
same_topic topic t store = elim (Bool-cases (topic == t)) [
  | inl e ↦ rw e (ap (λ k. entries_of (JsMap.get k store)) (sym ((eq_iff topic t).0 e)))
  | inr e ↦ rw e refl
]

module _ (sealed : StoredTopic → ℕ) (topic source : Text) (now : ℕ) where
  -- What the topic has room for, of the entries that are new.
  abbrev pub offered : List Bytes → DhtMailbox → List Bytes
  offered entries m =
      let existing = entries_of (JsMap.get topic m.store) in
      take (max_entries_per_topic - length existing) (fresh (keys_of existing) entries)

  -- There is room for a topic, and for the bytes in all and from the sender.
  pub record Fits (candidates : List Bytes) (m : DhtMailbox) : Type 0 where
    pub topics : length (entries_of (JsMap.get topic m.store)) ≡ 0 → JsMap.size m.store < max_topics
    pub total : current_usage sealed m + total_bytes candidates ≤ max_total_bytes
    pub quota :
        (source == m.my_peer_id) ≡ false
        → account now source m.peer_quota + total_bytes candidates ≤ max_bytes_per_peer

  pub record Counts (m : DhtMailbox) (result : List Bytes × DhtMailbox) : Type 0 where
    -- What is stored is new and not repeated.
    pub new : New (keys_of (entries_of (JsMap.get topic m.store))) result.0
    -- The topic holds it behind what it held, and the other topics are as they were.
    pub held :
        (t : Text)
        → entries_of (JsMap.get t result.1.store) ≡ (
            if topic == t
            then entries_of (JsMap.get topic m.store) ++ result.0
            else entries_of (JsMap.get t m.store))
    -- The count grows by it, and to no more than the limit if there is any.
    pub grown : current_usage sealed result.1 ≡ current_usage sealed m + total_bytes result.0
    pub limited : result.0 ≢ [] → current_usage sealed result.1 ≤ max_total_bytes
    -- So does the account of a sender that is not this node, and to no more than its quota.
    pub charged :
        (source == m.my_peer_id) ≡ false
        → account now source result.1.peer_quota
          ≡ account now source m.peer_quota + total_bytes result.0
    pub within :
        (source == m.my_peer_id) ≡ false
        → result.0 ≢ []
        → account now source result.1.peer_quota ≤ max_bytes_per_peer

  nothing :
      (m n : DhtMailbox)
      → n.store ≡ m.store
      → current_usage sealed n ≡ current_usage sealed m
      → account now source n.peer_quota ≡ account now source m.peer_quota
      → Counts m ([], n)
  nothing m n stays e a = record {
    new = tt;
    held = λ t.
        ap (λ s. entries_of (JsMap.get t s)) stays
        ∙ (same_topic topic t m.store
            ∙ sym (
                append_nothing (topic == t) (entries_of (JsMap.get topic m.store))
                  (entries_of (JsMap.get t m.store))));
    grown = omega (arith, e);
    limited = λ h. absurd (h refl);
    charged = λ f. omega (arith, a);
    within = λ f h. absurd (h refl);
  }

  admit-Counts :
      (new : List Bytes) (m : DhtMailbox)
      → New (keys_of (entries_of (JsMap.get topic m.store))) new
      → Counts m (admit sealed topic new source now m)
  unfolding admit
  admit-Counts new m n =
      let usage = current_usage sealed m in
      let known : DhtMailbox = record m { usage_bytes = some usage } in
      let bill = charge_peer_quota source (total_bytes new) now m.peer_quota in
      let paid = charge_peer_quota-Charged source (total_bytes new) now m.peer_quota in
      let charged : DhtMailbox = record known { peer_quota = bill.1 } in
      let put = λ (t : Text). get-store_put topic t new now m.store n in
      elim (Bool-cases (ltb max_total_bytes (usage + total_bytes new))) [
        | inl over ↦ rw (admit, over) (nothing m known refl refl refl)
        | inr room ↦ elim (Bool-cases (source == m.my_peer_id)) [
          | inl own ↦
              rw (admit, room, own)
                (record {
                  new = n;
                  held = put;
                  grown = refl;
                  limited = λ h. ground (arith, room);
                  charged = λ f. cc;
                  within = λ f h. cc;
                })
          | inr peer ↦ elim (Bool-cases bill.0) [
            | inr refused ↦
                rw (admit, room, peer, refused)
                  (nothing m charged refl refl (ground (arith, paid.added, refused)))
            | inl allowed ↦
                rw (admit, room, peer, allowed)
                  (record {
                    new = n;
                    held = put;
                    grown = refl;
                    limited = λ h. ground (arith, room);
                    charged = λ f. ground (arith, paid.added, allowed);
                    within = λ f h. paid.fits allowed;
                  })
          ]
        ]
      ]

  admit_takes :
      (new : List Bytes) (m : DhtMailbox)
      → Fits new m
      → (admit sealed topic new source now m).0 ≡ new
  unfolding admit
  admit_takes new m f =
      let usage = current_usage sealed m in
      let paid = charge_peer_quota-Charged source (total_bytes new) now m.peer_quota in
      let room : ltb max_total_bytes (usage + total_bytes new) ≡ false = ground (arith, f.total) in
      elim (Bool-cases (source == m.my_peer_id)) [
        | inl own ↦ rw (admit, room, own) refl
        | inr peer ↦ rw (admit, room, peer, paid.enough (f.quota peer)) refl
      ]

  no_room : (n : ℕ) (es : List Bytes) → n ≡ 0 → take n es ≡ []
  no_room n es h = rw h refl

  none_offered : (n : ℕ) (es : List Bytes) → length es ≡ 0 → take n es ≡ []
  none_offered zero [] h = refl
  none_offered (suc n) [] h = refl
  none_offered n (e ∷ es) h = absurd (omega arith)

  accept_for_storage_takes :
      (entries : List Bytes) (m : DhtMailbox)
      → Fits (offered entries m) m
      → (accept_for_storage sealed topic entries source now m).0 ≡ offered entries m
  unfolding accept_for_storage
  accept_for_storage_takes entries m f =
      let existing = entries_of (JsMap.get topic m.store) in
      let new = fresh (keys_of existing) entries in
      let full_case = none_offered (max_entries_per_topic - length existing) new in
      elim (Bool-cases (leb max_entries_per_topic (length existing))) [
        | inl full ↦
            rw (accept_for_storage, full)
              (sym (no_room (max_entries_per_topic - length existing) new (ground (arith, full))))
        | inr room ↦
            let place : (nat_beq (length existing) 0 && leb max_topics (JsMap.size m.store))
                ≡ false =
              ground (arith, f.topics) in
            elim (Bool-cases (nat_beq (length new) 0)) [
              | inl old ↦
                  rw (accept_for_storage, room, place, old) (sym (full_case (ground (arith, old))))
              | inr some_new ↦
                  rw (accept_for_storage, room, place, some_new)
                    (admit_takes (offered entries m) m f)
            ]
      ]

  counted :
      (entries : List Bytes) (m : DhtMailbox)
      → Counts m (accept_for_storage sealed topic entries source now m)
  unfolding accept_for_storage
  counted entries m =
      let existing = entries_of (JsMap.get topic m.store) in
      let new = fresh (keys_of existing) entries in
      ground (
        arith,
        nothing m m refl refl refl,
        admit-Counts (offered entries m) m (
            take-New (max_entries_per_topic - length existing) (keys_of existing) new
              (fresh-New (keys_of existing) entries)),
      )

  -- Whoever puts whatever entries: those that the mailbox stores are not among those that it held of
  -- the topic and none is repeated; the topic holds them behind those, and no other topic changes.
  -- The mailbox's count of its bytes grows by their bytes, and to at most the total limit if there
  -- are any; so does what a sender other than the node itself is charged with in its hour, and to at
  -- most its quota. They are all the new entries that the topic has room for, if there is room for a
  -- topic and if their bytes are within the total limit and the sender's quota.
  pub accept_for_storage-Counts :
      (entries : List Bytes) (m : DhtMailbox)
      → Counts m (accept_for_storage sealed topic entries source now m)
        × (Fits (offered entries m) m
            → (accept_for_storage sealed topic entries source now m).0 ≡ offered entries m)
  accept_for_storage-Counts entries m = (counted entries m, accept_for_storage_takes entries m)

-- ===== src/DhtMailbox/Replay.antt =====
-- The same entries again: nothing is stored, counted or charged twice.
use aether_web_lite.Prelude.{
  ℕ, zero, suc, ◌+◌, ◌-◌, ◌≤◌, ◌<◌, ◌≡◌, ◌≢◌, refl, sym, ap, subst, ◌∙◌, false, List, [], ◌∷◌, ◌++◌,
  arith, length, take, includes, eq_self, ◌||◌, ◌&&◌, Bool-cases, inl, inr, nat_beq, leb,
  length-append, length-take, min,
}
use aether_web_lite.Prelude.Text.{Text, text_eq}
use aether_web_lite.JsMap
use aether_web_lite.Bytes.{Bytes}
use aether_web_lite.PowPolicy.{to_hex}
use aether_web_lite.MailboxEntry.{max_entries_per_topic, max_topics}
use aether_web_lite.DhtMailbox.{
  StoredTopic, DhtMailbox, entries_of, keys_of, store_put, fresh, admit, accept_for_storage,
}
use aether_web_lite.DhtMailbox.Store.{New, fresh-New, take-New, get-store_put}

fresh_again :
    (have more : List Text) (es : List Bytes)
    → ((k : Text)
        → includes k more ≡ false
        → (includes k have ≡ false) × (includes k (keys_of (fresh have es)) ≡ false))
    → fresh more es ≡ []
unfolding fresh
fresh_again have more [] c = refl
fresh_again have more (e ∷ es) c = elim (Bool-cases (includes (to_hex e) have)) [
  | inl old ↦
      ground
        (arith, old, c (to_hex e), fresh_again have more es (λ k n. ground (arith, old, c k n)))
  | inr new ↦ ground (
    arith,
    new,
    c (to_hex e),
    eq_self (to_hex e),
    fresh_again (to_hex e ∷ have) more es (λ k n. ground (arith, new, c k n)),
  )
]

includes-keys_of-append :
    (k : Text) (xs ys : List Bytes)
    → includes k (keys_of (xs ++ ys)) ≡ (includes k (keys_of xs) || includes k (keys_of ys))
includes-keys_of-append k [] ys = refl
includes-keys_of-append k (x ∷ xs) ys = ground (arith, includes-keys_of-append k xs ys)

take_all : (n : ℕ) (es : List Bytes) → length es ≤ n → take n es ≡ es
take_all zero [] h = refl
take_all zero (e ∷ es) h = absurd (omega arith)
take_all (suc n) [] h = refl
take_all (suc n) (e ∷ es) h = ap (λ l. e ∷ l) (take_all n es (omega arith))

module _ (sealed : StoredTopic → ℕ) where
  admitted :
      (topic : Text) (new : List Bytes) (source : Text) (now : ℕ) (m : DhtMailbox)
      → (admit sealed topic new source now m).0 ≢ []
      → ((admit sealed topic new source now m).0 ≡ new)
        × ((admit sealed topic new source now m).1.store ≡ store_put topic new now m.store)
  unfolding admit
  admitted topic new source now m h = ground (arith, h)

  -- What a call that stored something has stored, and where.
  pub record Stored (topic : Text) (entries : List Bytes) (now : ℕ) (m : DhtMailbox)
      (result : List Bytes × DhtMailbox) : Type 0 where
    pub room : length (entries_of (JsMap.get topic m.store)) < max_entries_per_topic
    pub taken :
        result.0
        ≡ take
            (max_entries_per_topic - length (entries_of (JsMap.get topic m.store)))
            (fresh (keys_of (entries_of (JsMap.get topic m.store))) entries)
    pub written : result.1.store ≡ store_put topic result.0 now m.store

  pub accept_for_storage-Stored :
      (topic : Text) (entries : List Bytes) (source : Text) (now : ℕ) (m : DhtMailbox)
      → (accept_for_storage sealed topic entries source now m).0 ≢ []
      → Stored topic entries now m (accept_for_storage sealed topic entries source now m)
  unfolding accept_for_storage
  accept_for_storage-Stored topic entries source now m h =
      let existing = entries_of (JsMap.get topic m.store) in
      let new = fresh (keys_of existing) entries in
      let some_new = take (max_entries_per_topic - length existing) new in
      elim (Bool-cases (leb max_entries_per_topic (length existing))) [
        | inl a ↦ absurd (h (rw (accept_for_storage, a) refl))
        | inr a ↦
            elim (Bool-cases (nat_beq (length existing) 0 && leb max_topics (JsMap.size m.store))) [
              | inl b ↦ absurd (h (rw (accept_for_storage, a, b) refl))
              | inr b ↦ elim (Bool-cases (nat_beq (length new) 0)) [
                | inl c ↦ absurd (h (rw (accept_for_storage, a, b, c) refl))
                | inr c ↦
                    let (taken, written) =
                      admitted topic some_new source now m
                        (λ e. h (rw (accept_for_storage, a, b, c) e)) in
                    rw (accept_for_storage, a, b, c)
                      (record {
                        room = ground (arith, a);
                        taken = taken;
                        written = written ∙ ap (λ es. store_put topic es now m.store) (sym taken);
                      })
              ]
            ]
      ]

  repeated :
      (topic : Text) (entries : List Bytes) (again : Text) (now later : ℕ) (m : DhtMailbox)
      (result : List Bytes × DhtMailbox)
      → Stored topic entries now m result
      → accept_for_storage sealed topic entries again later result.1 ≡ ([], result.1)
  unfolding accept_for_storage
  repeated topic entries again now later m (stored, m1) st =
      let existing = entries_of (JsMap.get topic m.store) in
      let new = fresh (keys_of existing) entries in
      let room = max_entries_per_topic - length existing in
      let stored_new : New (keys_of existing) stored =
        subst (New (keys_of existing)) (sym st.taken)
          (take-New room (keys_of existing) new (fresh-New (keys_of existing) entries)) in
      let held : entries_of (JsMap.get topic m1.store) ≡ existing ++ stored =
        ap (λ s. entries_of (JsMap.get topic s)) st.written
        ∙ get-store_put topic topic stored now m.store stored_new
        ∙ ground (arith, eq_self topic) in
      elim (Bool-cases (leb max_entries_per_topic (length (existing ++ stored)))) [
        | inl full ↦ rw (accept_for_storage, held, full) refl
        | inr more ↦
            let size : length stored ≡ min room (length new) =
              ap length st.taken ∙ length-take room new in
            let few : length existing + length stored < max_entries_per_topic =
              ground (arith, more, length-append existing stored) in
            let all : stored ≡ new = st.taken ∙ take_all room new (omega (arith, size, few)) in
            let none_new : fresh (keys_of (existing ++ stored)) entries ≡ [] =
              fresh_again (keys_of existing) (keys_of (existing ++ stored)) entries
                (λ k n. ground (arith, n, all, includes-keys_of-append k existing stored)) in
            ground (arith, held, none_new)
      ]

  -- Entries of which some were stored change nothing when they are put once more, by whomever and
  -- whenever: nothing is stored, no usage is counted and no peer is charged.
  pub accept_for_storage_again :
      (topic : Text) (entries : List Bytes) (source again : Text) (now later : ℕ) (m : DhtMailbox)
      → (accept_for_storage sealed topic entries source now m).0 ≢ []
      → accept_for_storage sealed topic entries again later
          (accept_for_storage sealed topic entries source now m).1
        ≡ ([], (accept_for_storage sealed topic entries source now m).1)
  unfolding accept_for_storage
  accept_for_storage_again topic entries source again now later m h =
      let st = accept_for_storage-Stored topic entries source now m h in
      repeated topic entries again now later m
        (accept_for_storage sealed topic entries source now m) st

-- ===== src/MailboxEntry/Filter.antt =====
-- What the filter lets through.
use aether_web_lite.Prelude.{
  ℕ, suc, ◌+◌, ◌≤◌, ◌≡◌, ◌⊎◌, refl, Bool, true, false, Option, none, some, List, [], ◌∷◌, ◌++◌,
  arith, length, take, includes, length-append, length-take, All, All-append, ap, sym, subst, ◌∙◌,
  eq_self, ◌==◌, eq_iff, ◌||◌, Bool-cases, inl, inr,
}
use aether_web_lite.Prelude.Text.{Text, text_eq}
use aether_web_lite.Bytes.{Bytes}
use aether_web_lite.PacketValidator.{GossipPacket}
use aether_web_lite.MailboxEntry.{
  Filtered, EntryCheck, entry_ok, entry_fail, EntryRejectReason, Parsed, check_entry, filter_loop,
  filter_valid_entries, note, packet_id_of, max_entries_per_message, not_a_packet,
}

abbrev pub Once : List Text → Type 0
Once [] = Unit
Once (x ∷ xs) = (includes x xs ≡ false) × Once xs

abbrev pub id_in : EntryCheck → Text
id_in (entry_ok p) = packet_id_of p
id_in (entry_fail reason) = []

abbrev pub passes : EntryCheck → Bool
passes (entry_ok p) = true
passes (entry_fail reason) = false

EntryCheck-cases :
    (c : EntryCheck)
    → ((p : GossipPacket) × (c ≡ entry_ok p)) ⊎ ((r : EntryRejectReason) × (c ≡ entry_fail r))
EntryCheck-cases (entry_ok p) = inl (p, refl)
EntryCheck-cases (entry_fail r) = inr (r, refl)

includes-snoc :
    (x y : Text) (xs : List Text) → includes x (xs ++ y ∷ []) ≡ (includes x xs || y == x)
includes-snoc x y [] = ground arith
includes-snoc x y (z ∷ xs) = ground (arith, includes-snoc x y xs)

Once-snoc : (y : Text) (xs : List Text) → Once xs → includes y xs ≡ false → Once (xs ++ y ∷ [])
Once-snoc y [] o n = (refl, tt)
Once-snoc y (x ∷ xs) o n =
    ground (arith, Once-snoc y xs o.1, includes-snoc x y xs, eq_iff x y, eq_iff y x)

-- What was taken has all been seen, so what was not seen was not taken.
not_taken :
    (y : Text) (seen xs : List Text)
    → All (λ x. includes x seen ≡ true) xs
    → includes y seen ≡ false
    → includes y xs ≡ false
not_taken y seen [] a n = refl
not_taken y seen (x ∷ xs) a n = ground (arith, not_taken y seen xs a.1, eq_iff x y)

still_seen :
    (y : Text) (seen xs : List Text)
    → All (λ x. includes x seen ≡ true) xs
    → All (λ x. includes x (y ∷ seen) ≡ true) xs
still_seen y seen [] a = tt
still_seen y seen (x ∷ xs) a = ground (arith, still_seen y seen xs a.1)

module _ (sha256 : Bytes → Bytes) (parse_packet : Bytes → Parsed) (now : ℕ) where
  abbrev pub checked : Bytes → EntryCheck
  checked entry = check_entry sha256 parse_packet entry now

  abbrev pub ids : List Bytes → List Text
  ids [] = []
  ids (e ∷ es) = id_in (checked e) ∷ ids es

  ids-snoc : (es : List Bytes) (e : Bytes) → ids (es ++ e ∷ []) ≡ ids es ++ id_in (checked e) ∷ []
  ids-snoc [] e = refl
  ids-snoc (x ∷ es) e = ap (λ l. id_in (checked x) ∷ l) (ids-snoc es e)

  -- Every entry passes the check, no two hold the same packet, and there are at most `n`.
  pub record Sound (n : ℕ) (f : Filtered) : Type 0 where
    pub passed : All (λ e. passes (checked e) ≡ true) f.accepted
    pub once : Once (ids f.accepted)
    pub few : length f.accepted ≤ n

  abbrev Seen : List Text → Filtered → Type 0
  Seen seen f = All (λ id. includes id seen ≡ true) (ids f.accepted)

  take_entry :
      (n : ℕ) (seen : List Text) (f : Filtered) (e : Bytes) (p : GossipPacket)
      → checked e ≡ entry_ok p
      → includes (packet_id_of p) seen ≡ false
      → Seen seen f
      → Sound n f
      → let g : Filtered = record f { accepted = f.accepted ++ e ∷ [] } in
        Sound (suc n) g × Seen (packet_id_of p ∷ seen) g
  take_entry n seen f e p ok new s h =
      let id = packet_id_of p in
      let listed : ids (f.accepted ++ e ∷ []) ≡ ids f.accepted ++ id ∷ [] =
        ids-snoc f.accepted e ∙ ap (λ c. ids f.accepted ++ id_in c ∷ []) ok in
      (
        record {
          passed =
              All-append (λ x. passes (checked x) ≡ true) f.accepted (e ∷ []) h.passed
                (ap passes ok, tt);
          once =
              subst Once (sym listed)
                (Once-snoc id (ids f.accepted) h.once (not_taken id seen (ids f.accepted) s new));
          few = omega (arith, length-append f.accepted (e ∷ []), h.few);
        },
        subst (All (λ x. includes x (id ∷ seen) ≡ true)) (sym listed) (
            All-append (λ x. includes x (id ∷ seen) ≡ true) (ids f.accepted) (id ∷ [])
              (still_seen id seen (ids f.accepted) s) (ground (arith, eq_self id))),
      )

  noted :
      (n : ℕ) (reason : EntryRejectReason) (f : Filtered)
      → Sound n f
      → Sound (suc n) (note reason f)
  noted n reason f h = record { passed = h.passed; once = h.once; few = omega (arith, h.few) }

  weaker : (n m : ℕ) (f : Filtered) → n ≤ m → Sound n f → Sound m f
  weaker n m f le h = record { passed = h.passed; once = h.once; few = omega (arith, h.few) }

  filter_loop-Sound :
      (n m : ℕ) (seen : List Text) (f : Filtered) (rest : List (Option Bytes))
      → n + length rest ≡ m
      → Seen seen f
      → Sound n f
      → Sound m (filter_loop sha256 parse_packet now seen f rest)
  unfolding filter_loop
  filter_loop-Sound n m seen f [] e s h = weaker n m f (omega arith) h
  filter_loop-Sound n m seen f (none ∷ rest) e s h =
      filter_loop-Sound (suc n) m seen (note not_a_packet f) rest (omega arith) s
        (noted n not_a_packet f h)
  filter_loop-Sound n m seen f (some x ∷ rest) e s h = elim (EntryCheck-cases (checked x)) [
    | inr (reason, c) ↦
        rw (filter_loop, c)
          (filter_loop-Sound (suc n) m seen (note reason f) rest (omega arith) s
            (noted n reason f h))
    | inl (p, c) ↦ elim (Bool-cases (includes (packet_id_of p) seen)) [
      | inl old ↦
          rw (filter_loop, c, old)
            (filter_loop-Sound (suc n) m seen f rest (omega arith) s
              (weaker n (suc n) f (omega arith) h))
      | inr new ↦
          let (h', s') = take_entry n seen f x p c new s h in
          rw (filter_loop, c, new)
            (filter_loop-Sound (suc n) m (packet_id_of p ∷ seen)
              (record f { accepted = f.accepted ++ x ∷ [] }) rest (omega arith) s' h')
    ]
  ]

  -- Every entry that the filter lets through passes the check, no two of them hold the same packet,
  -- and there are at most as many as a message may bring.
  pub filter_valid_entries-Sound :
      (entries : Option (List (Option Bytes)))
      → Sound max_entries_per_message (filter_valid_entries sha256 parse_packet entries now)
  unfolding filter_valid_entries
  filter_valid_entries-Sound none = record { passed = tt; once = tt; few = omega arith }
  filter_valid_entries-Sound (some entries) =
      let first = take max_entries_per_message entries in
      weaker (length first) max_entries_per_message _
        (omega (arith, length-take max_entries_per_message entries))
        (filter_loop-Sound 0 (length first) [] (record { accepted = []; rejected = [] }) first
          (omega arith) tt (record { passed = tt; once = tt; few = omega arith }))

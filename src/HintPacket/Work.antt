-- ===== src/HintPacket/Work.antt =====
-- The work of a packet: the search finds a packet that the check accepts, and what it commits to.
use aether_web_lite.Prelude.{
  ◌>>=◌, ℕ, zero, suc, ◌+◌, ◌-◌, ◌^◌, ◌≤◌, ◌<◌, ◌≡◌, ◌⊎◌, refl, ap, sym, subst, ◌∙◌, true, false,
  Option, none, some, arith, leb, nat_beq, Option-cases, Bool-cases, inl, inr,
}
use aether_web_lite.Bytes.{Bytes}
use aether_web_lite.PowPolicy.{meets_difficulty, safe_limit}
use aether_web_lite.HintPacket.{
  HintPacket, hint_preimage, hint_pow_hash, verify_hint_pow, seal_loop, seal_hint_pow,
  decrement_hint_ttl, hint_id,
}

none_is_not_some {ℓ} : {A : Type ℓ} {a : A} → ¬ (none ≡ some a)
none_is_not_some e = cc

equal_or_after : (a k : ℕ) → a ≤ k → (a ≡ k) ⊎ (a + 1 ≤ k)
equal_or_after a k h = ground arith

module _ (sha256 : Bytes → Bytes) where
  -- What the search returns does the work, lies in the range searched, and is the least such.
  pub record Least (preimage : Bytes) (difficulty first left nonce : ℕ) : Type 0 where
    pub works : meets_difficulty (hint_pow_hash sha256 preimage nonce) difficulty ≡ true
    pub from_first : first ≤ nonce
    pub in_range : nonce < first + left
    pub no_less :
        (k : ℕ)
        → first ≤ k
        → k < nonce
        → meets_difficulty (hint_pow_hash sha256 preimage k) difficulty ≡ false

  first_or_later :
      (preimage : Bytes) (difficulty first nonce : ℕ)
      → meets_difficulty (hint_pow_hash sha256 preimage first) difficulty ≡ false
      → ((k : ℕ)
          → first + 1 ≤ k
          → k < nonce
          → meets_difficulty (hint_pow_hash sha256 preimage k) difficulty ≡ false)
      → (k : ℕ) → first ≤ k
      → k < nonce
      → meets_difficulty (hint_pow_hash sha256 preimage k) difficulty ≡ false
  first_or_later preimage difficulty first nonce f no_less k lo hi =
      elim (equal_or_after first k lo) [
        | inl e ↦
            subst (λ j. meets_difficulty (hint_pow_hash sha256 preimage j) difficulty ≡ false) e f
        | inr after ↦ no_less k after hi
      ]

  seal_loop-Least :
      (preimage : Bytes) (difficulty left first nonce : ℕ)
      → seal_loop sha256 preimage difficulty left first ≡ some nonce
      → Least preimage difficulty first left nonce
  unfolding seal_loop
  seal_loop-Least preimage difficulty zero first nonce h = cc
  seal_loop-Least preimage difficulty (suc left) first nonce h =
      elim (Bool-cases (meets_difficulty (hint_pow_hash sha256 preimage first) difficulty)) [
        | inl t ↦
            let here : first ≡ nonce = ground arith in
            record {
              works =
                  subst (λ k. meets_difficulty (hint_pow_hash sha256 preimage k) difficulty ≡ true)
                    here t;
              from_first = omega arith;
              in_range = omega arith;
              no_less = λ k lo hi. absurd (omega arith);
            }
        | inr f ↦
            let later : seal_loop sha256 preimage difficulty left (first + 1) ≡ some nonce =
              ground arith in
            let rest = seal_loop-Least preimage difficulty left (first + 1) nonce later in
            record {
              works = rest.works;
              from_first = omega (arith, rest.from_first);
              in_range = omega (arith, rest.in_range);
              no_less =
                  λ k lo hi. first_or_later preimage difficulty first nonce f rest.no_less k lo hi;
            }
      ]

  some-of {ℓ} : {A : Type ℓ} {a b : A} → some a ≡ some b → a ≡ b
  some-of e = cc

  verify_sealed :
      (difficulty n : ℕ) (h : HintPacket) (preimage : Bytes)
      → hint_preimage h ≡ some preimage
      → n < safe_limit
      → meets_difficulty (hint_pow_hash sha256 preimage n) difficulty ≡ true
      → verify_hint_pow sha256 difficulty (record h { pow_nonce = n }) ≡ true
  unfolding verify_hint_pow hint_preimage
  verify_sealed difficulty n h preimage e lt w = elim (Bool-cases (nat_beq difficulty 0)) [
    | inl t ↦ ground arith
    | inr f ↦ let small : leb safe_limit n ≡ false = ground arith in rw (f, small, e, w) refl
  ]

  abbrev Keeps : ℕ → HintPacket → HintPacket → Type 0
  Keeps difficulty h sealed =
      (verify_hint_pow sha256 difficulty sealed ≡ true) × (hint_id sha256 sealed ≡ hint_id sha256 h)

  id_same :
      (h : HintPacket) (n : ℕ) → hint_id sha256 (record h { pow_nonce = n }) ≡ hint_id sha256 h
  unfolding hint_id hint_preimage
  id_same h n = refl

  verify_zero :
      (difficulty : ℕ) (h : HintPacket) (n : ℕ)
      → nat_beq difficulty 0 ≡ true
      → verify_hint_pow sha256 difficulty (record h { pow_nonce = n }) ≡ true
  unfolding verify_hint_pow
  verify_zero difficulty h n t = rw t refl

  abbrev give : HintPacket → Option ℕ → Option HintPacket
  give h none = none
  give h (some n) = some (record h { pow_nonce = n })

  seal_zero :
      (max_iter difficulty : ℕ) (h : HintPacket)
      → nat_beq difficulty 0 ≡ true
      → seal_hint_pow sha256 max_iter difficulty h ≡ some (record h { pow_nonce = 0 })
  unfolding seal_hint_pow
  seal_zero max_iter difficulty h t = rw t refl

  seal_throws :
      (max_iter difficulty : ℕ) (h : HintPacket)
      → nat_beq difficulty 0 ≡ false
      → hint_preimage h ≡ none
      → seal_hint_pow sha256 max_iter difficulty h ≡ none
  unfolding seal_hint_pow
  seal_throws max_iter difficulty h f e = rw (f, e) refl

  give-bind :
      (h : HintPacket) (o : Option ℕ) → (o >>= λ n. some (record h { pow_nonce = n })) ≡ give h o
  give-bind h none = refl
  give-bind h (some n) = refl

  seal_searches :
      (max_iter difficulty : ℕ) (h : HintPacket) (preimage : Bytes)
      → nat_beq difficulty 0 ≡ false
      → hint_preimage h ≡ some preimage
      → seal_hint_pow sha256 max_iter difficulty h
        ≡ give h (seal_loop sha256 preimage difficulty max_iter 0)
  unfolding seal_hint_pow
  seal_searches max_iter difficulty h preimage f e =
      rw (f, e) (give-bind h (seal_loop sha256 preimage difficulty max_iter 0))

  -- A packet that the search seals, within at most 2 ^ 53 rounds, passes the check at the same
  -- difficulty; it keeps the id of the packet it was made from.
  pub verify_hint_pow-seal_hint_pow :
      (max_iter difficulty : ℕ) (h sealed : HintPacket)
      → max_iter ≤ 2 ^ 53
      → seal_hint_pow sha256 max_iter difficulty h ≡ some sealed
      → (verify_hint_pow sha256 difficulty sealed ≡ true)
        × (hint_id sha256 sealed ≡ hint_id sha256 h)
  verify_hint_pow-seal_hint_pow max_iter difficulty h sealed small e =
      elim (Bool-cases (nat_beq difficulty 0)) [
        | inl t ↦
            subst (Keeps difficulty h) (some-of (sym (seal_zero max_iter difficulty h t) ∙ e))
              (verify_zero difficulty h 0 t, id_same h 0)
        | inr f ↦ elim (Option-cases (hint_preimage h)) [
          | inl none_is ↦
              absurd (none_is_not_some (sym (seal_throws max_iter difficulty h f none_is) ∙ e))
          | inr (preimage, p) ↦
              let found = seal_searches max_iter difficulty h preimage f p in
              elim (Option-cases (seal_loop sha256 preimage difficulty max_iter 0)) [
                | inl none_is ↦ absurd (none_is_not_some (sym (found ∙ ap (give h) none_is) ∙ e))
                | inr (n, s) ↦
                    let least = seal_loop-Least preimage difficulty max_iter 0 n s in
                    subst (Keeps difficulty h) (some-of (sym (found ∙ ap (give h) s) ∙ e)) (
                      verify_sealed difficulty n h preimage p (omega (arith, least.in_range, small))
                          least.works,
                      id_same h n,
                    )
              ]
        ]
      ]

  id_same_ttl : (h : HintPacket) (t : ℕ) → hint_id sha256 (record h { ttl = t }) ≡ hint_id sha256 h
  unfolding hint_id hint_preimage
  id_same_ttl h t = refl

  verify_same_ttl :
      (difficulty : ℕ) (h : HintPacket) (t : ℕ)
      → verify_hint_pow sha256 difficulty (record h { ttl = t })
        ≡ verify_hint_pow sha256 difficulty h
  unfolding verify_hint_pow hint_preimage
  verify_same_ttl difficulty h t = refl

  -- Passing a packet on, with its time to live one lower, changes neither its id nor whether its
  -- work is accepted.
  pub decrement_hint_ttl_keeps :
      (difficulty : ℕ) (h relayed : HintPacket)
      → decrement_hint_ttl h ≡ some relayed
      → (hint_id sha256 relayed ≡ hint_id sha256 h)
        × (verify_hint_pow sha256 difficulty relayed ≡ verify_hint_pow sha256 difficulty h)
        × (relayed.ttl + 1 ≡ h.ttl)
  decrement_hint_ttl_keeps difficulty h relayed e = elim (Bool-cases (nat_beq h.ttl 0)) [
    | inl t ↦ absurd (none_is_not_some (sym (rw t refl) ∙ e))
    | inr f ↦
        let lower : decrement_hint_ttl h ≡ some (record h { ttl = h.ttl - 1 }) = rw f refl in
        subst
          (λ s.
            (hint_id sha256 s ≡ hint_id sha256 h)
            × (verify_hint_pow sha256 difficulty s ≡ verify_hint_pow sha256 difficulty h)
            × (s.ttl + 1 ≡ h.ttl))
          (some-of (sym lower ∙ e))
          (id_same_ttl h (h.ttl - 1), verify_same_ttl difficulty h (h.ttl - 1), ground arith)
  ]

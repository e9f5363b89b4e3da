-- ===== src/NodeIdentity/Messages.antt =====
-- What a signature of a join commits to: no part of the message can be moved into another, and a
-- signature for the tracker is not one for a peer.
use aether_web_lite.Prelude.{
  >>=-eq-some, ◌≤◌, ◌<◌, ◌≡◌, ◌≢◌, refl, sym, ap, ◌∙◌, false, none, some, Option, [], ◌∷◌, ◌++◌,
  arith, length, All, if◌then◌else◌, Bool, true, not, nat_beq, nat_beq_iff,
}
use mathlib.Core.List.{append_assoc}
use aether_web_lite.Prelude.Text.{Text}
use aether_web_lite.Bytes.{Bytes, u16be, length-big_endian, append-cancel, big_endian-injective}
use aether_web_lite.PowPolicy.{concat}
use aether_web_lite.TrackerProtocol.{to_lower_case, challenge_bytes}
use aether_web_lite.NodeIdentity.{
  JoinBinding, join_domain, tracker_join_domain, utf8, length_prefixed, join_message,
  tracker_join_message,
}

-- A text of ASCII characters, as ids, hosts and fingerprints are.
abbrev pub Ascii : Text → Type 0
Ascii = All (λ c. c < 0x80)

pub utf8-Ascii : (t : Text) → Ascii t → utf8 t ≡ t
unfolding utf8
utf8-Ascii [] a = refl
utf8-Ascii (c ∷ []) a = ground arith
utf8-Ascii (c ∷ d ∷ t) a = ground (arith, utf8-Ascii (d ∷ t) a.1)

-- The bytes of a text behind their number.
abbrev framed : Text → Bytes
framed t = u16be (length t) ++ t

length_prefixed-framed :
    (t : Text) (b : Bytes)
    → Ascii t
    → length_prefixed t ≡ some b
    → (b ≡ framed t) × (length t ≤ 0xffff)
unfolding length_prefixed
length_prefixed-framed t b a h = ground (arith, utf8-Ascii t a)

-- A framed text and what follows it are told apart.
framed_apart :
    (s t : Text) (x y : Bytes)
    → length s ≤ 0xffff
    → length t ≤ 0xffff
    → framed s ++ x ≡ framed t ++ y
    → (s ≡ t) × (x ≡ y)
framed_apart s t x y hs ht e =
    let sizes =
      append-cancel (u16be (length s)) (u16be (length t)) (s ++ x) (t ++ y)
        (length-big_endian 2 (length s) ∙ sym (length-big_endian 2 (length t)))
        (sym (append_assoc (u16be (length s)) s x) ∙ e ∙ append_assoc (u16be (length t)) t y) in
    append-cancel s t x y
      (big_endian-injective 2 (length s) (length t) (omega (arith, hs)) (omega (arith, ht)) sizes.0)
      sizes.1

-- Two prefixed texts with what follows.
prefixed_apart :
    (s t : Text) (a b x y : Bytes)
    → Ascii s
    → Ascii t
    → length_prefixed s ≡ some a
    → length_prefixed t ≡ some b
    → a ++ x ≡ b ++ y
    → (s ≡ t) × (x ≡ y)
prefixed_apart s t a b x y hs ht ha hb e =
    let (ea, la) = length_prefixed-framed s a hs ha in
    let (eb, lb) = length_prefixed-framed t b ht hb in
    framed_apart s t x y la lb (ap (λ l. l ++ x) (sym ea) ∙ e ∙ ap (λ l. l ++ y) eb)

abbrev pub AsciiBinding : JoinBinding → Type 0
AsciiBinding b = Ascii b.verifier_id × Ascii b.signer_fingerprint × Ascii b.verifier_fingerprint

-- The parts of a join's message.
record Joins (challenge : Bytes) (id : Text) (b : JoinBinding) (m : Bytes) : Type 0 where
  verifier : Bytes
  signer : Bytes
  signer_fp : Bytes
  verifier_fp : Bytes
  verifier_is : length_prefixed b.verifier_id ≡ some verifier
  signer_is : length_prefixed id ≡ some signer
  signer_fp_is : length_prefixed b.signer_fingerprint ≡ some signer_fp
  verifier_fp_is : length_prefixed b.verifier_fingerprint ≡ some verifier_fp
  message_is :
      concat (join_domain ∷ challenge ∷ verifier ∷ signer ∷ signer_fp ∷ verifier_fp ∷ []) ≡ m

of_some {ℓ} : {A : Type ℓ} {a b : A} → some a ≡ some b → a ≡ b
of_some e = cc

join_message-Joins :
    (c : Bytes) (id : Text) (b : JoinBinding) (m : Bytes)
    → join_message c id b ≡ some m
    → Joins c id b m
unfolding join_message
join_message-Joins c id b m e =
    let (v, v_is, e1) = >>=-eq-some (length_prefixed b.verifier_id) _ e in
    let (s, s_is, e2) = >>=-eq-some (length_prefixed id) _ e1 in
    let (f, f_is, e3) = >>=-eq-some (length_prefixed b.signer_fingerprint) _ e2 in
    let (g, g_is, e4) = >>=-eq-some (length_prefixed b.verifier_fingerprint) _ e3 in
    record {
      verifier = v;
      signer = s;
      signer_fp = f;
      verifier_fp = g;
      verifier_is = v_is;
      signer_is = s_is;
      signer_fp_is = f_is;
      verifier_fp_is = g_is;
      message_is = of_some e4;
    }

same_binding :
    (a b : JoinBinding)
    → a.verifier_id ≡ b.verifier_id
    → a.signer_fingerprint ≡ b.signer_fingerprint
    → a.verifier_fingerprint ≡ b.verifier_fingerprint
    → a ≡ b
same_binding a b u v w = cc

-- The bytes that a join signs determine the challenge, the signer's id, the verifier's id and both
-- fingerprints, for challenges of one length and texts of ASCII characters.
pub join_message-injective :
    (c d : Bytes) (s t : Text) (a b : JoinBinding) (m : Bytes)
    → length c ≡ length d
    → Ascii s
    → Ascii t
    → AsciiBinding a
    → AsciiBinding b
    → join_message c s a ≡ some m
    → join_message d t b ≡ some m
    → (c ≡ d) × (s ≡ t) × (a ≡ b)
join_message-injective c d s t a b m len hs ht ha hb ec ed =
    let p = join_message-Joins c s a m ec in
    let q = join_message-Joins d t b m ed in
    let e0 = append-cancel join_domain join_domain _ _ refl (p.message_is ∙ sym q.message_is) in
    let e1 = append-cancel c d _ _ len e0.1 in
    let e2 =
      prefixed_apart a.verifier_id b.verifier_id p.verifier q.verifier _ _ ha.0 hb.0 p.verifier_is
        q.verifier_is e1.1 in
    let e3 = prefixed_apart s t p.signer q.signer _ _ hs ht p.signer_is q.signer_is e2.1 in
    let e4 =
      prefixed_apart a.signer_fingerprint b.signer_fingerprint p.signer_fp q.signer_fp _ _ ha.1 hb.1
        p.signer_fp_is q.signer_fp_is e3.1 in
    let e5 =
      prefixed_apart a.verifier_fingerprint b.verifier_fingerprint p.verifier_fp q.verifier_fp _ _
        ha.2 hb.2 p.verifier_fp_is q.verifier_fp_is e4.1 in
    (e1.0, e3.0, same_binding a b e2.0 e4.0 e5.0)

-- A guard that was passed.
guarded {ℓ} :
    {A : Type ℓ} (t : Bool) (o : Option A) (a : A)
    → (if not t then none else o) ≡ some a
    → (t ≡ true) × (o ≡ some a)
guarded true o a h = (refl, h)
guarded false o a h = cc

record TrackerJoins (nonce : Bytes) (id host : Text) (m : Bytes) : Type 0 where
  peer : Bytes
  tracker : Bytes
  nonce_fits : length nonce ≡ challenge_bytes
  peer_is : length_prefixed id ≡ some peer
  tracker_is : length_prefixed (to_lower_case host) ≡ some tracker
  message_is : concat (tracker_join_domain ∷ nonce ∷ peer ∷ tracker ∷ []) ≡ m

tracker_join_message-TrackerJoins :
    (n : Bytes) (id host : Text) (m : Bytes)
    → tracker_join_message n id host ≡ some m
    → TrackerJoins n id host m
unfolding tracker_join_message
tracker_join_message-TrackerJoins n id host m e =
    let (fits, e0) = guarded (nat_beq (length n) challenge_bytes) _ m e in
    let (p, p_is, e1) = >>=-eq-some (length_prefixed id) _ e0 in
    let (h, h_is, e2) = >>=-eq-some (length_prefixed (to_lower_case host)) _ e1 in
    record {
      peer = p;
      tracker = h;
      nonce_fits = (nat_beq_iff (length n) challenge_bytes).0 fits;
      peer_is = p_is;
      tracker_is = h_is;
      message_is = of_some e2;
    }

-- The bytes that a tracker's join signs determine the nonce, the signer's id and the tracker's host
-- in lower case, for texts of ASCII characters.
pub tracker_join_message-injective :
    (n k : Bytes) (s t g h : Text) (m : Bytes)
    → Ascii s
    → Ascii t
    → Ascii (to_lower_case g)
    → Ascii (to_lower_case h)
    → tracker_join_message n s g ≡ some m
    → tracker_join_message k t h ≡ some m
    → (n ≡ k) × (s ≡ t) × (to_lower_case g ≡ to_lower_case h)
tracker_join_message-injective n k s t g h m hs ht hg hh en ek =
    let p = tracker_join_message-TrackerJoins n s g m en in
    let q = tracker_join_message-TrackerJoins k t h m ek in
    let e0 =
      append-cancel tracker_join_domain tracker_join_domain _ _ refl
        (p.message_is ∙ sym q.message_is) in
    let e1 = append-cancel n k _ _ (p.nonce_fits ∙ sym q.nonce_fits) e0.1 in
    let e2 = prefixed_apart s t p.peer q.peer _ _ hs ht p.peer_is q.peer_is e1.1 in
    let e3 =
      prefixed_apart (to_lower_case g) (to_lower_case h) p.tracker q.tracker _ _ hg hh p.tracker_is
        q.tracker_is e2.1 in
    (e1.0, e2.0, e3.0)

domains_apart : (x y : Bytes) → join_domain ++ x ≢ tracker_join_domain ++ y
domains_apart x y e = ground arith

-- No bytes are signed both for a join of a peer and for a join of a tracker.
pub join_message-ne-tracker_join_message :
    (c n : Bytes) (s t h : Text) (b : JoinBinding) (m : Bytes)
    → join_message c s b ≡ some m
    → tracker_join_message n t h ≢ some m
join_message-ne-tracker_join_message c n s t h b m ec en =
    let p = join_message-Joins c s b m ec in
    let q = tracker_join_message-TrackerJoins n t h m en in
    domains_apart _ _ (p.message_is ∙ sym q.message_is)

-- ===== src/PowPolicy/Preimage.antt =====
-- The committed bytes determine every committed field: no field boundary can be moved.
use aether_web_lite.Prelude.{
  >>=-eq-some, ℕ, ◌^◌, ◌≤◌, ◌<◌, ◌≡◌, refl, ap, sym, ◌∙◌, some, [], ◌∷◌, arith, length,
}
use mathlib.Core.List.{append-nil}
use aether_web_lite.Bytes.{
  Bytes, big_endian, u64be, u32be, u16be, length-big_endian, append-cancel, big_endian-injective,
}
use aether_web_lite.PowPolicy.{
  Field, int, other, int_below, safe_limit, at_most, PowCommittedHeader, gossip_domain, concat,
  pow_preimage,
}

int_below-some :
    (limit : ℕ) (f : Field) (n : ℕ) → int_below limit f ≡ some n → (f ≡ int n) × (n < limit)
int_below-some limit (int m) n h = ground arith
int_below-some limit other n h = cc

at_most-some :
    (limit : ℕ) (bs cs : Bytes) → at_most limit bs ≡ some cs → (bs ≡ cs) × (length cs ≤ limit)
at_most-some limit bs cs h = ground arith

-- The bytes that a header with these numbers commits to.
abbrev layout : ℕ → ℕ → ℕ → Bytes → Bytes → Bytes
layout timestamp zone_id pow_difficulty nonce payload = concat (
    gossip_domain
    ∷ u64be timestamp
    ∷ u32be zone_id
    ∷ (pow_difficulty ∷ [])
    ∷ u16be (length nonce)
    ∷ nonce
    ∷ u32be (length payload)
    ∷ payload
    ∷ [])

record Committed (h : PowCommittedHeader) (b : Bytes) : Type 0 where
  timestamp : ℕ
  zone_id : ℕ
  pow_difficulty : ℕ
  timestamp_is : h.timestamp ≡ int timestamp
  zone_is : h.zone_id ≡ int zone_id
  difficulty_is : h.pow_difficulty ≡ int pow_difficulty
  timestamp_fits : timestamp < 2 ^ 53
  zone_fits : zone_id < 2 ^ 32
  nonce_fits : length h.nonce ≤ 0xffff
  payload_fits : length h.payload ≤ 0xffffffff
  bytes : b ≡ layout timestamp zone_id pow_difficulty h.nonce h.payload

of_some {ℓ} : {A : Type ℓ} {a b : A} → some a ≡ some b → a ≡ b
of_some e = cc

bytes_of :
    (t z d : ℕ) (n n' p p' b : Bytes)
    → n' ≡ n
    → p' ≡ p
    → some (layout t z d n p) ≡ some b
    → b ≡ layout t z d n' p'
bytes_of t z d n n' p p' b en ep e = rw (en, ep) (sym (of_some e))

committed : (h : PowCommittedHeader) (b : Bytes) → pow_preimage h ≡ some b → Committed h b
unfolding pow_preimage
committed h b e =
    let (t, t_ok, e1) = >>=-eq-some (int_below safe_limit h.timestamp) _ e in
    let (z, z_ok, e2) = >>=-eq-some (int_below (2 ^ 32) h.zone_id) _ e1 in
    let (d, d_ok, e3) = >>=-eq-some (int_below 256 h.pow_difficulty) _ e2 in
    let (n, n_ok, e4) = >>=-eq-some (at_most 0xffff h.nonce) _ e3 in
    let (p, p_ok, e5) = >>=-eq-some (at_most 0xffffffff h.payload) _ e4 in
    let tf = int_below-some safe_limit h.timestamp t t_ok in
    let zf = int_below-some (2 ^ 32) h.zone_id z z_ok in
    let df = int_below-some 256 h.pow_difficulty d d_ok in
    let nf = at_most-some 0xffff h.nonce n n_ok in
    let pf = at_most-some 0xffffffff h.payload p p_ok in
    record {
      timestamp = t;
      zone_id = z;
      pow_difficulty = d;
      timestamp_is = tf.0;
      zone_is = zf.0;
      difficulty_is = df.0;
      timestamp_fits = tf.1;
      zone_fits = zf.1;
      nonce_fits = omega (arith, ap length nf.0, nf.1);
      payload_fits = omega (arith, ap length pf.0, pf.1);
      bytes = bytes_of t z d n h.nonce p h.payload b nf.0 pf.0 e5;
    }

-- Equal lengths in front of equal strings.
same_length : (n v w : ℕ) → length (big_endian n v) ≡ length (big_endian n w)
same_length n v w = length-big_endian n v ∙ sym (length-big_endian n w)

layout-injective :
    (t t' z z' d d' : ℕ) (n n' p p' : Bytes)
    → t < 2 ^ 53
    → t' < 2 ^ 53
    → z < 2 ^ 32
    → z' < 2 ^ 32
    → length n ≤ 0xffff
    → length n' ≤ 0xffff
    → layout t z d n p ≡ layout t' z' d' n' p'
    → (t ≡ t') × (z ≡ z') × (d ≡ d') × (n ≡ n') × (p ≡ p')
layout-injective t t' z z' d d' n n' p p' ht ht' hz hz' hn hn' e =
    let a = append-cancel gossip_domain gossip_domain _ _ refl e in
    let b = append-cancel (u64be t) (u64be t') _ _ (same_length 8 t t') a.1 in
    let c = append-cancel (u32be z) (u32be z') _ _ (same_length 4 z z') b.1 in
    let f = append-cancel (d ∷ []) (d' ∷ []) _ _ refl c.1 in
    let g = append-cancel (u16be (length n)) (u16be (length n')) _ _ (same_length 2 _ _) f.1 in
    let sizes = big_endian-injective 2 (length n) (length n') (omega arith) (omega arith) g.0 in
    let k = append-cancel n n' _ _ sizes g.1 in
    let l = append-cancel (u32be (length p)) (u32be (length p')) _ _ (same_length 4 _ _) k.1 in
    (
      big_endian-injective 8 t t' (omega arith) (omega arith) b.0,
      big_endian-injective 4 z z' (omega arith) (omega arith) c.0,
      ground (arith, f.0),
      k.0,
      sym (append-nil p) ∙ l.1 ∙ append-nil p',
    )

-- Two headers that commit to the same bytes are the same in every field.
pub pow_preimage-injective :
    (h k : PowCommittedHeader) (b : Bytes)
    → pow_preimage h ≡ some b
    → pow_preimage k ≡ some b
    → h ≡ k
pow_preimage-injective h k b eh ek =
    let u = committed h b eh in
    let v = committed k b ek in
    let (t, z, d, n, p) =
      layout-injective u.timestamp v.timestamp u.zone_id v.zone_id u.pow_difficulty v.pow_difficulty
        h.nonce k.nonce h.payload k.payload u.timestamp_fits v.timestamp_fits u.zone_fits
        v.zone_fits u.nonce_fits v.nonce_fits (sym u.bytes ∙ v.bytes) in
    ground (
      arith, u.timestamp_is, v.timestamp_is, u.zone_is, v.zone_is, u.difficulty_is, v.difficulty_is,
      t, z, d, n, p,
    )

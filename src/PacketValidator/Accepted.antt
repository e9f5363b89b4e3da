-- ===== src/PacketValidator/Accepted.antt =====
-- What an accepted packet is known to be, and why a header cannot be changed under its id.
use aether_web_lite.Prelude.{
  ℕ, ◌+◌, ◌≤◌, ◌<◌, ◌≡◌, refl, ◌⊎◌, inl, inr, true, Option, none, some, arith, length, eq_iff,
  Option-cases,
}
use aether_web_lite.Prelude.Text.{Text, text_eq}
use aether_web_lite.Bytes.{Bytes}
use aether_web_lite.PowPolicy.{
  Field, int, other, int_below, safe_limit, max_payload_size, nonce_size, max_time_drift,
  max_hop_count, derive_packet_id, verify_pow,
}
use aether_web_lite.PacketValidator.{
  GossipPacket, accept, ValidateOptions, committed_header_of, check_hash, check_time, check_fields,
  check_types, check,
}

-- Every rule that the source states for a packet, as one predicate.
pub record Lawful (sha256 : Bytes → Bytes) (opts : ValidateOptions) (p : GossipPacket)
    : Type 0 where
  pub packet_id : Text
  pub timestamp : ℕ
  pub hop_count : ℕ
  pub pow_nonce : ℕ
  pub id_is : p.packet_id ≡ some packet_id
  pub id_length : length packet_id ≡ 64
  pub timestamp_is : p.timestamp ≡ int timestamp
  pub timestamp_safe : timestamp < safe_limit
  pub payload_filled : 0 < length p.payload
  pub payload_fits : length p.payload ≤ max_payload_size
  pub nonce_fits : length p.nonce ≡ nonce_size
  pub hop_count_is : p.hop_count ≡ int hop_count
  pub hop_count_fits : hop_count ≤ max_hop_count
  pub pow_nonce_is : p.pow_nonce ≡ int pow_nonce
  pub pow_nonce_safe : pow_nonce < safe_limit
  pub not_future : timestamp ≤ opts.now + max_time_drift
  pub not_stale : (opts.allow_stale ≡ true) ⊎ (opts.now ≤ timestamp + max_time_drift)
  pub id_derived : derive_packet_id sha256 (committed_header_of p) ≡ some packet_id
  pub work_done : verify_pow sha256 (committed_header_of p) pow_nonce ≡ true

module _ (sha256 : Bytes → Bytes) (opts : ValidateOptions) (p : GossipPacket) where
  hash_ok :
      (packet_id : Text) (pow_nonce : ℕ)
      → check_hash sha256 p packet_id pow_nonce ≡ accept
      → (derive_packet_id sha256 (committed_header_of p) ≡ some packet_id)
        × (verify_pow sha256 (committed_header_of p) pow_nonce ≡ true)
  unfolding check_hash
  hash_ok packet_id pow_nonce h =
      elim (Option-cases (derive_packet_id sha256 (committed_header_of p))) [
        | inl e ↦ ground arith
        | inr (i, e) ↦ ground (arith, eq_iff i packet_id)
      ]

  time_ok :
      (packet_id : Text) (t pow_nonce : ℕ)
      → check_time sha256 opts p packet_id t pow_nonce ≡ accept
      → (t ≤ opts.now + max_time_drift)
        × ((opts.allow_stale ≡ true) ⊎ (opts.now ≤ t + max_time_drift))
        × (check_hash sha256 p packet_id pow_nonce ≡ accept)
  unfolding check_time
  time_ok packet_id t pow_nonce h = ground arith

  int_below-eq :
      (limit : ℕ) (f : Field) (n : ℕ) → int_below limit f ≡ some n → (f ≡ int n) × (n < limit)
  int_below-eq limit (int m) n h = ground arith
  int_below-eq limit other n h = cc

  fields_ok :
      (packet_id : Text) (t : ℕ)
      → check_fields sha256 opts p packet_id t ≡ accept
      → (0 < length p.payload)
        × (length p.payload ≤ max_payload_size)
        × (length p.nonce ≡ nonce_size)
        × (hop : ℕ) × (pow_nonce : ℕ) × (int_below (max_hop_count + 1) p.hop_count ≡ some hop)
        × (int_below safe_limit p.pow_nonce ≡ some pow_nonce)
        × (check_time sha256 opts p packet_id t pow_nonce ≡ accept)
  unfolding check_fields
  fields_ok packet_id t h = elim (Option-cases (int_below (max_hop_count + 1) p.hop_count)) [
    | inl e ↦ absurd (ground arith)
    | inr (hop, e) ↦ elim (Option-cases (int_below safe_limit p.pow_nonce)) [
      | inl f ↦ absurd (ground arith)
      | inr (n, f) ↦ (ground arith, ground arith, ground arith, hop, n, e, f, ground arith)
    ]
  ]

  types_ok :
      (o : Option Text)
      → p.packet_id ≡ o
      → check_types sha256 opts p o ≡ accept
      → (packet_id : Text) × (t : ℕ) × (p.packet_id ≡ some packet_id)
        × (length packet_id ≡ 64)
        × (int_below safe_limit p.timestamp ≡ some t)
        × (check_fields sha256 opts p packet_id t ≡ accept)
  unfolding check_types
  types_ok none e h = cc
  types_ok (some i) e h = elim (Option-cases (int_below safe_limit p.timestamp)) [
    | inl f ↦ absurd (ground arith)
    | inr (t, f) ↦ (i, t, e, ground arith, f, ground arith)
  ]

  lawful : check sha256 (some p) opts ≡ accept → Lawful sha256 opts p
  unfolding check
  lawful h =
      let (i, t, ids, idl, ts, h1) = types_ok p.packet_id refl h in
      let (filled, fits, nonce, hop, n, hops, ns, h2) = fields_ok i t h1 in
      let (future, stale, h3) = time_ok i t n h2 in
      let (derived, work) = hash_ok i n h3 in
      record {
        packet_id = i;
        timestamp = t;
        hop_count = hop;
        pow_nonce = n;
        id_is = ids;
        id_length = idl;
        timestamp_is = (int_below-eq safe_limit p.timestamp t ts).0;
        timestamp_safe = (int_below-eq safe_limit p.timestamp t ts).1;
        payload_filled = filled;
        payload_fits = fits;
        nonce_fits = nonce;
        hop_count_is = (int_below-eq (max_hop_count + 1) p.hop_count hop hops).0;
        hop_count_fits = omega (arith, (int_below-eq (max_hop_count + 1) p.hop_count hop hops).1);
        pow_nonce_is = (int_below-eq safe_limit p.pow_nonce n ns).0;
        pow_nonce_safe = (int_below-eq safe_limit p.pow_nonce n ns).1;
        not_future = future;
        not_stale = stale;
        id_derived = derived;
        work_done = work;
      }

  accepted_time :
      (i : Text) (t n : ℕ)
      → t ≤ opts.now + max_time_drift
      → (opts.allow_stale ≡ true) ⊎ (opts.now ≤ t + max_time_drift)
      → derive_packet_id sha256 (committed_header_of p) ≡ some i
      → verify_pow sha256 (committed_header_of p) n ≡ true
      → check_time sha256 opts p i t n ≡ accept
  unfolding check_time check_hash
  accepted_time i t n future stale derived work = ground (arith, eq_iff i i)

  accepted_fields :
      (l : Lawful sha256 opts p) → check_fields sha256 opts p l.packet_id l.timestamp ≡ accept
  unfolding check_fields
  accepted_fields l = ground (
    arith,
    l.payload_filled,
    l.payload_fits,
    l.nonce_fits,
    l.hop_count_is,
    l.hop_count_fits,
    l.pow_nonce_is,
    l.pow_nonce_safe,
    accepted_time l.packet_id l.timestamp l.pow_nonce l.not_future l.not_stale l.id_derived
        l.work_done,
  )

  accepted : Lawful sha256 opts p → check sha256 (some p) opts ≡ accept
  unfolding check check_types
  accepted l =
      rw (l.id_is, check_types)
        (ground (arith, l.id_length, l.timestamp_is, l.timestamp_safe, accepted_fields l))

  -- A packet is accepted exactly if it obeys every rule: the id is a text of 64 characters and the
  -- hash of the committed header, the timestamp and the nonce of the work are safe integers, sizes
  -- and hop count are within their limits, the time is not too far ahead and, unless stale packets
  -- are allowed, not too far back, and the work is done.
  pub check_iff :
      (check sha256 (some p) opts ≡ accept → Lawful sha256 opts p)
      × (Lawful sha256 opts p → check sha256 (some p) opts ≡ accept)
  check_iff = (lawful, accepted)

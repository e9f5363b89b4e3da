-- ===== src/HintPacket/Coding.antt =====
-- What is encoded is decoded again.
use aether_web_lite.Prelude.{
  ◌>>=◌, ℕ, ◌+◌, ◌%◌, ◌^◌, ◌≤◌, ◌<◌, ◌≡◌, refl, ap, sym, ◌∙◌, some, [], ◌∷◌, ◌++◌, arith, length,
  length-append, take, drop, get_elem?, false, ltb,
}
use mathlib.Core.List.{append-nil, append_assoc}
use aether_web_lite.Bytes.{
  slice, Bytes, u64be, u32be, read_be, length-big_endian, read_be-big_endian,
}
use aether_web_lite.PowPolicy.{int}
use aether_web_lite.HintPacket.{
  HintPacket, RawHint, zeros, of_size, encoded_hint_size, encode_hint, decode_hint,
  parse_hint_packet, encode_slot_blob, decode_slot_blob,
}
use aether_web_lite.HintPacket.Buffer.{set_bytes_next}
use aether_web_lite.Bytes.Cut.{take-append, drop-append, slice-middle}

-- What parseHintPacket lets through.
pub record IsHint (h : HintPacket) : Type 0 where
  pub version_is : h.version ≡ 1
  pub ttl_fits : h.ttl < 256
  pub pow_nonce_fits : h.pow_nonce < 2 ^ 53
  pub tag_size : length h.blind_tag ≡ 4
  pub nonce_size : length h.nonce ≡ 12
  pub ciphertext_size : length h.ciphertext ≡ 64

-- The bytes of a packet, part after part.
abbrev pub layout : HintPacket → Bytes
layout h = h.version ∷ h.ttl ∷ (h.blind_tag ++ (h.nonce ++ (u64be h.pow_nonce ++ h.ciphertext)))

joined :
    (v w t u : ℕ) (a b c d : Bytes)
    → v ≡ w
    → t ≡ u
    → some (v ∷ t ∷ ((((a ++ b) ++ c) ++ d) ++ zeros 0)) ≡ some (w ∷ u ∷ (a ++ (b ++ (c ++ d))))
unfolding zeros
joined v w t u a b c d hv ht =
    rw
      (
        hv,
        ht,
        append-nil (((a ++ b) ++ c) ++ d),
        append_assoc (a ++ b) c d,
        append_assoc a b (c ++ d),
      )
      refl

pub length-layout : (h : HintPacket) → IsHint h → length (layout h) ≡ 90
length-layout h i = omega (
  arith,
  length-append h.blind_tag (h.nonce ++ (u64be h.pow_nonce ++ h.ciphertext)),
  length-append h.nonce (u64be h.pow_nonce ++ h.ciphertext),
  length-append (u64be h.pow_nonce) h.ciphertext,
  length-big_endian 8 h.pow_nonce,
  i.tag_size,
  i.nonce_size,
  i.ciphertext_size,
)

-- A well-formed packet is encoded as its parts in order.
pub encode_hint-IsHint : (h : HintPacket) → IsHint h → encode_hint h ≡ some (layout h)
unfolding encode_hint
encode_hint-IsHint h i =
    let v = (h.version % 256) ∷ [] in
    let t = (h.ttl % 256) ∷ [] in
    let n8 = length-big_endian 8 h.pow_nonce in
    let d1 = v ++ t in
    let d2 = d1 ++ h.blind_tag in
    let d3 = d2 ++ h.nonce in
    let d4 = d3 ++ u64be h.pow_nonce in
    let l2 : length d2 ≡ 6 = omega (arith, length-append d1 h.blind_tag, i.tag_size) in
    let l3 : length d3 ≡ 18 = omega (arith, length-append d2 h.nonce, i.nonce_size) in
    let l4 : length d4 ≡ 26 = omega (arith, length-append d3 (u64be h.pow_nonce), n8) in
    rw
      (
        set_bytes_next 0 90 89 [] v refl (omega arith),
        set_bytes_next 1 89 88 v t refl (omega arith),
        set_bytes_next 2 88 84 d1 h.blind_tag refl (omega (arith, i.tag_size)),
        set_bytes_next 6 84 72 d2 h.nonce l2 (omega (arith, i.nonce_size)),
        set_bytes_next 18 72 64 d3 (u64be h.pow_nonce) l3 (omega (arith, n8)),
        set_bytes_next 26 64 0 d4 h.ciphertext l4 (omega (arith, i.ciphertext_size)),
      )
      (joined (h.version % 256) h.version (h.ttl % 256) h.ttl h.blind_tag h.nonce
        (u64be h.pow_nonce) h.ciphertext (omega (arith, i.version_is)) (omega (arith, i.ttl_fits)))

abbrev raw_of : HintPacket → RawHint
raw_of h = record {
  version = int h.version;
  ttl = int h.ttl;
  blind_tag = some h.blind_tag;
  nonce = some h.nonce;
  pow_nonce = int h.pow_nonce;
  ciphertext = some h.ciphertext;
}

parse_hint_packet-IsHint : (h : HintPacket) → IsHint h → parse_hint_packet (raw_of h) ≡ some h
unfolding parse_hint_packet
parse_hint_packet-IsHint h i =
    ground (
      arith, i.version_is, i.ttl_fits, i.pow_nonce_fits, i.tag_size, i.nonce_size,
      i.ciphertext_size,
    )

sized_parts :
    (h : HintPacket) (bs : Bytes)
    → of_size encoded_hint_size bs ≡ some bs
    → get_elem? bs 0 ≡ some h.version
    → get_elem? bs 1 ≡ some h.ttl
    → slice 2 4 bs ≡ h.blind_tag
    → slice 6 12 bs ≡ h.nonce
    → read_be 0 (slice 18 8 bs) ≡ h.pow_nonce
    → drop 26 bs ≡ h.ciphertext
    → decode_hint bs ≡ parse_hint_packet (raw_of h)
unfolding decode_hint
sized_parts h bs s v t tag n p c = rw (s, v, t, tag, n, p, c) refl

decode_hint-layout : (h : HintPacket) → IsHint h → decode_hint (layout h) ≡ some h
unfolding decode_hint
decode_hint-layout h i =
    let number = u64be h.pow_nonce in
    let n8 = length-big_endian 8 h.pow_nonce in
    let vt = h.version ∷ h.ttl ∷ [] in
    let rest3 = number ++ h.ciphertext in
    let rest2 = h.nonce ++ rest3 in
    let to6 : length (vt ++ h.blind_tag) ≡ 6 = omega (arith, i.tag_size) in
    let to18 : length ((vt ++ h.blind_tag) ++ h.nonce) ≡ 18 =
      omega (arith, length-append (vt ++ h.blind_tag) h.nonce, to6, i.nonce_size) in
    let to26 : length (((vt ++ h.blind_tag) ++ h.nonce) ++ number) ≡ 26 =
      omega (arith, length-append ((vt ++ h.blind_tag) ++ h.nonce) number, to18, n8) in
    let sized : of_size encoded_hint_size (layout h) ≡ some (layout h) =
      ground (arith, length-layout h i) in
    let tag : slice 2 4 (layout h) ≡ h.blind_tag =
      slice-middle 2 4 vt h.blind_tag rest2 refl i.tag_size in
    let nonce : slice 6 12 (layout h) ≡ h.nonce =
      slice-middle 6 12 (vt ++ h.blind_tag) h.nonce rest3 to6 i.nonce_size in
    let regroup : layout h ≡ ((vt ++ h.blind_tag) ++ h.nonce) ++ rest3 =
      sym (append_assoc (vt ++ h.blind_tag) h.nonce rest3) in
    let number_is : read_be 0 (slice 18 8 (layout h)) ≡ h.pow_nonce =
      ap (λ x. read_be 0 (slice 18 8 x)) regroup
      ∙ (ap (read_be 0)
            (slice-middle 18 8 ((vt ++ h.blind_tag) ++ h.nonce) number h.ciphertext to18 n8)
          ∙ read_be-big_endian 8 h.pow_nonce (omega (arith, i.pow_nonce_fits))) in
    let ciphertext_is : drop 26 (layout h) ≡ h.ciphertext =
      ap (drop 26)
        (regroup ∙ sym (append_assoc ((vt ++ h.blind_tag) ++ h.nonce) number h.ciphertext))
      ∙ drop-append 26 (((vt ++ h.blind_tag) ++ h.nonce) ++ number) h.ciphertext to26 in
    sized_parts h (layout h) sized refl refl tag nonce number_is ciphertext_is
    ∙ parse_hint_packet-IsHint h i

-- A packet that the parser lets through is encoded, and decoding the bytes gives it back.
pub decode_hint-encode_hint : (h : HintPacket) → IsHint h → (encode_hint h >>= decode_hint) ≡ some h
decode_hint-encode_hint h i =
    ap (λ o. o >>= decode_hint) (encode_hint-IsHint h i) ∙ decode_hint-layout h i

long_enough : (n k l : ℕ) → l ≡ 94 + k → n ≤ 94 → ltb l n ≡ false
long_enough n k l e h = ground arith

slot_parts :
    (h : HintPacket) (body all : Bytes)
    → read_be 0 (take 4 all) ≡ 90
    → length all ≡ 94 + length body
    → decode_hint (slice 4 90 all) ≡ some h
    → drop 94 all ≡ body
    → decode_slot_blob all ≡ some (record { hint = h; body = body })
unfolding decode_slot_blob
slot_parts h body all len long hint rest =
    rw
      (
        len,
        long_enough 4 (length body) (length all) long (omega arith),
        long_enough 94 (length body) (length all) long (omega arith),
        hint,
        rest,
      )
      refl

slot_layout :
    (h : HintPacket) (body : Bytes)
    → IsHint h
    → decode_slot_blob (u32be 90 ++ (layout h ++ body)) ≡ some (record { hint = h; body = body })
unfolding decode_slot_blob
slot_layout h body i =
    let l4 = length-big_endian 4 90 in
    let all = u32be 90 ++ (layout h ++ body) in
    let long : length all ≡ 94 + length body = omega (
      arith,
      length-append (u32be 90) (layout h ++ body),
      length-append (layout h) body,
      length-layout h i,
      l4,
    ) in
    let len_is : read_be 0 (take 4 all) ≡ 90 =
      ap (read_be 0) (take-append 4 (u32be 90) (layout h ++ body) l4)
      ∙ read_be-big_endian 4 90 (omega arith) in
    let hint_is : slice 4 90 all ≡ layout h =
      slice-middle 4 90 (u32be 90) (layout h) body l4 (length-layout h i) in
    let body_is : drop 94 all ≡ body =
      ap (drop 94) (sym (append_assoc (u32be 90) (layout h) body))
      ∙ drop-append 94 (u32be 90 ++ layout h) body
          (omega (arith, length-append (u32be 90) (layout h), length-layout h i, l4)) in
    slot_parts h body all len_is long (ap decode_hint hint_is ∙ decode_hint-layout h i) body_is

-- A slot built from a packet that the parser lets through and any body gives both back.
pub decode_slot_blob-encode_slot_blob :
    (h : HintPacket) (body : Bytes)
    → IsHint h
    → (encode_slot_blob h body >>= decode_slot_blob) ≡ some (record { hint = h; body = body })
unfolding encode_slot_blob
decode_slot_blob-encode_slot_blob h body i =
    rw (encode_hint-IsHint h i, length-layout h i) (slot_layout h body i)

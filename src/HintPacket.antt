-- ===== src/HintPacket.antt =====
-- packages/core/src/network/hint/HintPacket.ts and SlotBlob.ts: the index packet of the mailbox, its
-- checks, its bytes, and the slot that holds it before a body. SHA-256 is a parameter.
pub mod Buffer
pub mod Coding
pub mod Work
pub mod Tests
use aether_web_lite.Prelude.{
  ◌>>=◌, >>=-eq-some, bind_cases, ℕ, zero, suc, ◌+◌, ◌-◌, ◌%◌, ◌^◌, Bool, true, false, not, Option,
  none, some, List, [], ◌∷◌, ◌++◌, ltb, leb, nat_beq, if◌then◌else◌, length, take, drop, get_elem?,
}
use aether_web_lite.Prelude.Text.{Text}
use aether_web_lite.Bytes.{slice, Bytes, u64be, u32be, read_be}
use aether_web_lite.PowPolicy.{
  Field, int, other, int_below, safe_limit, concat, meets_difficulty, to_hex, at_most,
}

pub record HintPacket : Type 0 where
  pub version : ℕ
  pub ttl : ℕ
  pub blind_tag : Bytes
  pub nonce : Bytes
  pub pow_nonce : ℕ
  pub ciphertext : Bytes

abbrev pub hint_version : ℕ
hint_version = 1

abbrev pub blind_tag_size : ℕ
blind_tag_size = 4

abbrev pub hint_nonce_size : ℕ
hint_nonce_size = 12

abbrev pub hint_ciphertext_size : ℕ
hint_ciphertext_size = 48 + 16

abbrev pub hint_pow_difficulty : ℕ
hint_pow_difficulty = 12

-- "AETHER/v3/hint__"
abbrev pub hint_domain : Bytes
hint_domain =
    0x41 ∷ 0x45 ∷ 0x54 ∷ 0x48 ∷ 0x45 ∷ 0x52 ∷ 0x2f ∷ 0x76 ∷ 0x33 ∷ 0x2f ∷ 0x68 ∷ 0x69 ∷ 0x6e ∷ 0x74
    ∷ 0x5f ∷ 0x5f ∷ []

-- `none` is a RangeError.
unfoldable pub hint_preimage : HintPacket → Option Bytes
hint_preimage h =
    if ltb 255 h.version
    then none
    else if not (nat_beq (length h.blind_tag) blind_tag_size)
    then none
    else if not (nat_beq (length h.nonce) hint_nonce_size)
    then none
    else if ltb 0xffffffff (length h.ciphertext)
    then none
    else some (
        concat (
          hint_domain
          ∷ (h.version ∷ [])
          ∷ h.blind_tag
          ∷ h.nonce
          ∷ u32be (length h.ciphertext)
          ∷ h.ciphertext
          ∷ []))

module _ (sha256 : Bytes → Bytes) where
  unfoldable pub hint_id : HintPacket → Option Text
  hint_id h = do preimage ← hint_preimage h; some (to_hex (sha256 preimage))

  abbrev pub hint_pow_hash : Bytes → ℕ → Bytes
  hint_pow_hash preimage pow_nonce = sha256 (preimage ++ u64be pow_nonce)

  -- A preimage that throws counts as no work.
  unfoldable pub verify_hint_pow : ℕ → HintPacket → Bool
  verify_hint_pow difficulty h =
      if nat_beq difficulty 0
      then true
      else if leb safe_limit h.pow_nonce
      then false
      else elim (hint_preimage h) [
        | none ↦ false
        | some preimage ↦ meets_difficulty (hint_pow_hash preimage h.pow_nonce) difficulty
      ]

  -- The search from a nonce on, with the rounds that are left.
  unfoldable pub seal_loop : Bytes → ℕ → ℕ → ℕ → Option ℕ
  seal_loop preimage difficulty zero nonce = none
  seal_loop preimage difficulty (suc left) nonce =
      let rest = seal_loop preimage difficulty left (nonce + 1) in
      if meets_difficulty (hint_pow_hash preimage nonce) difficulty then some nonce else rest

  -- `none` is a thrown error; the source's bound on the rounds is `1 << 24`.
  unfoldable pub seal_hint_pow : ℕ → ℕ → HintPacket → Option HintPacket
  seal_hint_pow max_iter difficulty h =
      if nat_beq difficulty 0 then some (record h { pow_nonce = 0 }) else do
        preimage ← hint_preimage h
        nonce ← seal_loop preimage difficulty max_iter 0
        some (record h { pow_nonce = nonce })

abbrev pub decrement_hint_ttl : HintPacket → Option HintPacket
decrement_hint_ttl h = if nat_beq h.ttl 0 then none else some (record h { ttl = h.ttl - 1 })

-- What came from the network. A byte field is `none` where `toBytes` throws.
pub record RawHint : Type 0 where
  pub version : Field
  pub ttl : Field
  pub blind_tag : Option Bytes
  pub nonce : Option Bytes
  pub pow_nonce : Field
  pub ciphertext : Option Bytes

abbrev pub of_size : ℕ → Bytes → Option Bytes
of_size n bs = if nat_beq (length bs) n then some bs else none

abbrev pub exactly : ℕ → Field → Option ℕ
exactly n (int m) = if nat_beq m n then some m else none
exactly n other = none

unfoldable pub parse_hint_packet : RawHint → Option HintPacket
parse_hint_packet raw = do
  version ← exactly hint_version raw.version
  ttl ← int_below 256 raw.ttl
  pow_nonce ← int_below safe_limit raw.pow_nonce
  raw_tag ← raw.blind_tag
  raw_nonce ← raw.nonce
  raw_ciphertext ← raw.ciphertext
  blind_tag ← of_size blind_tag_size raw_tag
  nonce ← of_size hint_nonce_size raw_nonce
  ciphertext ← of_size hint_ciphertext_size raw_ciphertext
  some (record {
    version = version;
    ttl = ttl;
    blind_tag = blind_tag;
    nonce = nonce;
    pow_nonce = pow_nonce;
    ciphertext = ciphertext;
  })

-- `new Uint8Array(n)`
unfoldable pub zeros : ℕ → Bytes
zeros zero = []
zeros (suc n) = 0 ∷ zeros n

-- `out.set(bs, o)`: a RangeError where the bytes do not fit.
unfoldable pub set_bytes : ℕ → Bytes → Bytes → Option Bytes
set_bytes o bs out =
    if leb (o + length bs) (length out)
    then some (take o out ++ (bs ++ drop (o + length bs) out))
    else none

abbrev pub encoded_hint_size : ℕ
encoded_hint_size = 1 + 1 + 4 + 12 + 8 + 64

unfoldable pub encode_hint : HintPacket → Option Bytes
encode_hint h = do
  out0 ← set_bytes 0 ((h.version % 256) ∷ []) (zeros encoded_hint_size)
  out1 ← set_bytes 1 ((h.ttl % 256) ∷ []) out0
  out2 ← set_bytes 2 h.blind_tag out1
  out3 ← set_bytes 6 h.nonce out2
  out4 ← set_bytes 18 (u64be h.pow_nonce) out3
  set_bytes 26 h.ciphertext out4

-- `Number` of a value above 2 ^ 53 is not a safe integer, rounded or not.
unfoldable pub decode_hint : Bytes → Option HintPacket
decode_hint bytes = do
  sized ← of_size encoded_hint_size bytes
  version ← get_elem? sized 0
  ttl ← get_elem? sized 1
  parse_hint_packet (record {
    version = int version;
    ttl = int ttl;
    blind_tag = some (slice 2 4 sized);
    nonce = some (slice 6 12 sized);
    pow_nonce = int (read_be 0 (slice 18 8 sized));
    ciphertext = some (drop 26 sized);
  })

pub record SlotBlob : Type 0 where
  pub hint : HintPacket
  pub body : Bytes

-- `out` is exactly as long as the three parts.
unfoldable pub encode_slot_blob : HintPacket → Bytes → Option Bytes
encode_slot_blob hint body = do
  hint_bytes ← encode_hint hint
  some (u32be (length hint_bytes) ++ (hint_bytes ++ body))

unfoldable pub decode_slot_blob : Bytes → Option SlotBlob
decode_slot_blob bytes =
    let hint_len = read_be 0 (take 4 bytes) in
    if ltb (length bytes) 4
    then none
    else if not (nat_beq hint_len encoded_hint_size)
    then none
    else if ltb (length bytes) (4 + hint_len)
    then none
    else do
      hint ← decode_hint (slice 4 hint_len bytes)
      some (record { hint = hint; body = drop (4 + hint_len) bytes })

unfoldable pub extract_hint : Bytes → Option HintPacket
extract_hint bytes = do blob ← decode_slot_blob bytes; some blob.hint

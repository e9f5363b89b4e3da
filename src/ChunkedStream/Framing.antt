-- ===== src/ChunkedStream/Framing.antt =====
-- What the receiver reads in a chunk that the sender made.
use aether_web_lite.Prelude.{
  ℕ, zero, suc, ◌+◌, ◌-◌, ◌*◌, ◌^◌, ◌<◌, min, ◌≡◌, refl, ap, ◌∙◌, [], ◌∷◌, ◌++◌, arith, length,
  length-append, length-take, length-drop, take, drop, nat_beq, get_elem?, some, if◌then◌else◌,
}
use aether_web_lite.Bytes.{
  Bytes, u16be, u32be, read_be, slice, length-big_endian, read_be-big_endian,
}
use aether_web_lite.Bytes.Cut.{take-append, drop_past}
use aether_web_lite.ChunkedStream.{chunk_size, header_size, piece, chunk_bytes, header_of}

pub length-piece :
    (message : Bytes) (seq : ℕ)
    → length (piece message seq) ≡ min chunk_size (length message - seq * chunk_size)
length-piece message seq = omega (
  arith,
  length-take (min (seq * chunk_size + chunk_size) (length message) - seq * chunk_size)
      (drop (seq * chunk_size) message),
  length-drop (seq * chunk_size) message,
)

-- A header and a payload, for any numbers that fit their fields.
abbrev layout : ℕ → ℕ → ℕ → ℕ → ℕ → Bytes → Bytes
layout msg_id seq total size flag payload =
    0 ∷ (u32be msg_id ++ (u16be seq ++ (u16be total ++ (u16be size ++ flag ∷ payload))))

abbrev behind_total : ℕ → ℕ → Bytes → Bytes
behind_total size flag payload = u16be size ++ flag ∷ payload

abbrev behind_seq : ℕ → ℕ → ℕ → Bytes → Bytes
behind_seq total size flag payload = u16be total ++ behind_total size flag payload

abbrev behind_id : ℕ → ℕ → ℕ → ℕ → Bytes → Bytes
behind_id seq total size flag payload = u16be seq ++ behind_seq total size flag payload

-- The bytes from a place in the header on.
from_seq :
    (msg_id seq total size flag : ℕ) (payload : Bytes) (n t : ℕ)
    → 4 + n ≡ t
    → drop (suc t) (layout msg_id seq total size flag payload)
      ≡ drop n (behind_id seq total size flag payload)
from_seq msg_id seq total size flag payload n t h =
    drop_past 4 n t (u32be msg_id) (behind_id seq total size flag payload)
      (length-big_endian 4 msg_id) h

from_total :
    (msg_id seq total size flag : ℕ) (payload : Bytes) (n t : ℕ)
    → 6 + n ≡ t
    → drop (suc t) (layout msg_id seq total size flag payload)
      ≡ drop n (behind_seq total size flag payload)
from_total msg_id seq total size flag payload n t h =
    from_seq msg_id seq total size flag payload (2 + n) t (omega arith)
    ∙ drop_past 2 n (2 + n) (u16be seq) (behind_seq total size flag payload)
        (length-big_endian 2 seq) refl

from_size :
    (msg_id seq total size flag : ℕ) (payload : Bytes) (n t : ℕ)
    → 8 + n ≡ t
    → drop (suc t) (layout msg_id seq total size flag payload)
      ≡ drop n (behind_total size flag payload)
from_size msg_id seq total size flag payload n t h =
    from_total msg_id seq total size flag payload (2 + n) t (omega arith)
    ∙ drop_past 2 n (2 + n) (u16be total) (behind_total size flag payload)
        (length-big_endian 2 total) refl

from_payload :
    (msg_id seq total size flag : ℕ) (payload : Bytes)
    → drop 12 (layout msg_id seq total size flag payload) ≡ payload
from_payload msg_id seq total size flag payload =
    from_size msg_id seq total size flag payload 3 11 refl
    ∙ drop_past 2 1 3 (u16be size) (flag ∷ payload) (length-big_endian 2 size) refl

header_of-layout :
    (msg_id seq total size flag : ℕ) (payload : Bytes)
    → msg_id < 2 ^ 32
    → seq < 65536
    → total < 65536
    → size < 65536
    → header_of (layout msg_id seq total size flag payload)
      ≡ record { msg_id = msg_id; seq_no = seq; total_chunks = total; chunk_size = size }
unfolding header_of
header_of-layout msg_id seq total size flag payload hm hs ht hz =
    let id_is : slice 1 4 (layout msg_id seq total size flag payload) ≡ u32be msg_id =
      take-append 4 (u32be msg_id) (behind_id seq total size flag payload)
        (length-big_endian 4 msg_id) in
    let seq_is : slice 5 2 (layout msg_id seq total size flag payload) ≡ u16be seq =
      ap (take 2) (from_seq msg_id seq total size flag payload 0 4 refl)
      ∙ take-append 2 (u16be seq) (behind_seq total size flag payload) (length-big_endian 2 seq) in
    let total_is : slice 7 2 (layout msg_id seq total size flag payload) ≡ u16be total =
      ap (take 2) (from_total msg_id seq total size flag payload 0 6 refl)
      ∙ take-append 2 (u16be total) (behind_total size flag payload) (length-big_endian 2 total) in
    let size_is : slice 9 2 (layout msg_id seq total size flag payload) ≡ u16be size =
      ap (take 2) (from_size msg_id seq total size flag payload 0 8 refl)
      ∙ take-append 2 (u16be size) (flag ∷ payload) (length-big_endian 2 size) in
    rw
      (
        ap (read_be 0) id_is ∙ read_be-big_endian 4 msg_id (omega arith),
        ap (read_be 0) seq_is ∙ read_be-big_endian 2 seq (omega arith),
        ap (read_be 0) total_is ∙ read_be-big_endian 2 total (omega arith),
        ap (read_be 0) size_is ∙ read_be-big_endian 2 size (omega arith),
      )
      refl

-- All that the receiver needs to know of a chunk.
pub record Reads (raw : Bytes) (msg_id seq total : ℕ) (payload : Bytes) : Type 0 where
  pub header :
      header_of raw
      ≡ record { msg_id = msg_id; seq_no = seq; total_chunks = total; chunk_size = length payload }
  pub long : length raw ≡ 12 + length payload
  pub first : get_elem? raw 0 ≡ some 0
  pub cut : slice header_size (length payload) raw ≡ payload

take-all : (n : ℕ) (bs : Bytes) → length bs ≡ n → take n bs ≡ bs
take-all zero [] h = refl
take-all zero (b ∷ bs) h = absurd (omega arith)
take-all (suc n) [] h = refl
take-all (suc n) (b ∷ bs) h = ap (λ l. b ∷ l) (take-all n bs (omega arith))

layout-Reads :
    (msg_id seq total flag : ℕ) (payload : Bytes)
    → msg_id < 2 ^ 32
    → seq < 65536
    → total < 65536
    → length payload < 65536
    → Reads (layout msg_id seq total (length payload) flag payload) msg_id seq total payload
layout-Reads msg_id seq total flag payload hm hs ht hz =
    let size = length payload in
    record {
      header = header_of-layout msg_id seq total size flag payload hm hs ht hz;
      long = omega (
        arith,
        length-append (u32be msg_id) (behind_id seq total size flag payload),
        length-append (u16be seq) (behind_seq total size flag payload),
        length-append (u16be total) (behind_total size flag payload),
        length-append (u16be size) (flag ∷ payload),
        length-big_endian 4 msg_id,
        length-big_endian 2 seq,
        length-big_endian 2 total,
        length-big_endian 2 size,
      );
      first = refl;
      cut =
          ap (take size) (from_payload msg_id seq total size flag payload)
          ∙ take-all size payload refl;
    }

pub chunk_bytes-Reads :
    (msg_id total : ℕ) (message : Bytes) (seq : ℕ)
    → msg_id < 2 ^ 32
    → seq < 65536
    → total < 65536
    → Reads (chunk_bytes msg_id total message seq) msg_id seq total (piece message seq)
unfolding chunk_bytes
chunk_bytes-Reads msg_id total message seq hm hs ht =
    layout-Reads msg_id seq total (if nat_beq seq (total - 1) then 0x01 else 0x00)
      (piece message seq) hm hs ht (omega (arith, length-piece message seq))

-- ===== src/ChunkedStream.antt =====
-- packages/core/src/network/stream/ChunkedSender.ts and ChunkedReceiver.ts: a message that is too
-- large for one send is cut into chunks and put together again. Time is an argument. The sender's
-- wait for the channel's buffer changes no bytes and is left out.
pub mod Held
pub mod Framing
pub mod Arrival
pub mod Waiting
pub mod Pieces
pub mod RoundTrip
pub mod Tests
use aether_web_lite.Prelude.{
  ℕ, zero, suc, ◌+◌, ◌-◌, ◌*◌, ◌/◌, ◌%◌, ◌^◌, min, Bool, true, false, not, ◌||◌, Option, none, some,
  List, [], ◌∷◌, ◌++◌, ltb, leb, nat_beq, number_key, if◌then◌else◌, length, take, drop, get_elem?,
}
use aether_web_lite.Bytes.{Bytes, u16be, u32be, read_be, slice}
use aether_web_lite.JsMap
use aether_web_lite.JsMap.{JsMap}

abbrev pub chunk_size : ℕ
chunk_size = 4096

abbrev pub header_size : ℕ
header_size = 12

abbrev pub reassembly_timeout : ℕ
reassembly_timeout = 10_000

abbrev pub max_message_bytes : ℕ
max_message_bytes = 1024 * 1024

abbrev pub max_pending_messages : ℕ
max_pending_messages = 64

-- `Math.ceil(MAX_MESSAGE_BYTES / 4096)`
abbrev pub max_chunks : ℕ
max_chunks = (max_message_bytes + 4095) / 4096

-- `Math.ceil(message.byteLength / CHUNK_SIZE)`
abbrev pub chunk_count : Bytes → ℕ
chunk_count message = (length message + 4095) / 4096

-- `message.subarray(offset, end)` for the chunk at a place.
abbrev pub piece : Bytes → ℕ → Bytes
piece message seq =
    let offset = seq * chunk_size in
    slice offset (min (offset + chunk_size) (length message) - offset) message

-- One chunk: its header of 12 bytes, then its payload.
unfoldable pub chunk_bytes : ℕ → ℕ → Bytes → ℕ → Bytes
chunk_bytes msg_id total message seq =
    let payload = piece message seq in
    0x00
    ∷ (u32be msg_id
        ++ (u16be seq
            ++ (u16be total
                ++ (u16be (length payload)
                    ++ (if nat_beq seq (total - 1) then 0x01 else 0x00) ∷ payload))))

abbrev pub chunks_from : ℕ → ℕ → Bytes → ℕ → ℕ → List Bytes
chunks_from msg_id total message seq zero = []
chunks_from msg_id total message seq (suc left) =
    chunk_bytes msg_id total message seq ∷ chunks_from msg_id total message (seq + 1) left

-- What is sent on the channel, and the counter after it.
unfoldable pub send : ℕ → Bytes → List Bytes × ℕ
send msg_counter message =
    if leb (length message) chunk_size then (message ∷ [], msg_counter) else (
      chunks_from (msg_counter % 2 ^ 32) (chunk_count message) message 0 (chunk_count message),
      msg_counter + 1,
    )

pub record PendingMessage : Type 0 where
  pub chunks : JsMap ℕ Bytes
  pub total_chunks : ℕ
  pub total_size : ℕ
  pub created_at : ℕ

abbrev pub Receiver : Type 0
Receiver = JsMap ℕ PendingMessage

pub record Header : Type 0 where
  pub msg_id : ℕ
  pub seq_no : ℕ
  pub total_chunks : ℕ
  pub chunk_size : ℕ

unfoldable pub header_of : Bytes → Header
header_of raw = record {
  msg_id = read_be 0 (slice 1 4 raw);
  seq_no = read_be 0 (slice 5 2 raw);
  total_chunks = read_be 0 (slice 7 2 raw);
  chunk_size = read_be 0 (slice 9 2 raw);
}

abbrev pub new_pending : ℕ → ℕ → PendingMessage
new_pending total now = record {
  chunks = [];
  total_chunks = total;
  total_size = 0;
  created_at = now;
}

unfoldable pub make_room : Receiver → Receiver
make_room s =
    if leb max_pending_messages (JsMap.size s)
    then elim (JsMap.first_key? s) [ none ↦ s | some oldest ↦ JsMap.delete oldest s ]
    else s

-- The message that the chunk belongs to, made when it is the first one.
unfoldable pub open_message : ℕ → Header → Receiver → PendingMessage × Receiver
open_message now h s = elim (JsMap.get h.msg_id s) [
  | some pm ↦ (pm, s)
  | none ↦ let pm = new_pending h.total_chunks now in (pm, JsMap.set h.msg_id pm (make_room s))
]

-- The chunks from a place on, in order. A chunk that is not there would count as empty.
unfoldable pub assemble : JsMap ℕ Bytes → ℕ → ℕ → Bytes
assemble chunks i zero = []
assemble chunks i (suc left) = elim (JsMap.get i chunks) [
  | none ↦ assemble chunks (i + 1) left
  | some chunk ↦ chunk ++ assemble chunks (i + 1) left
]

abbrev pub with_chunk : ℕ → Bytes → PendingMessage → PendingMessage
with_chunk seq payload pm = record pm {
  chunks = JsMap.set seq payload pm.chunks;
  total_size = pm.total_size + length payload;
}

-- What is given to the listener, and the messages that are still pending.
unfoldable pub complete : ℕ → PendingMessage → Receiver → Option Bytes × Receiver
complete msg_id pm s =
    if nat_beq (JsMap.size pm.chunks) pm.total_chunks
    then (some (assemble pm.chunks 0 pm.total_chunks), JsMap.delete msg_id s)
    else (none, JsMap.set msg_id pm s)

unfoldable pub store_chunk : Header → Bytes → PendingMessage → Receiver → Option Bytes × Receiver
store_chunk h payload pm s =
    if not (nat_beq pm.total_chunks h.total_chunks)
    then (none, JsMap.delete h.msg_id s)
    else if JsMap.has h.seq_no pm.chunks
    then (none, s)
    else if ltb max_message_bytes (pm.total_size + length payload)
    then (none, JsMap.delete h.msg_id s)
    else complete h.msg_id (with_chunk h.seq_no payload pm) s

unfoldable pub receive_chunk : ℕ → Header → Bytes → Receiver → Option Bytes × Receiver
receive_chunk now h raw s =
    let (pm, s1) = open_message now h s in
    if nat_beq h.total_chunks 0 || leb h.total_chunks h.seq_no
    then (some raw, s)
    else if ltb max_chunks h.total_chunks
    then (none, s)
    else if ltb (length raw - header_size) h.chunk_size
    then (none, s)
    else store_chunk h (slice header_size h.chunk_size raw) pm s1

abbrev pub is_zero : Option ℕ → Bool
is_zero none = false
is_zero (some b) = nat_beq b 0

unfoldable pub receive : ℕ → Bytes → Receiver → Option Bytes × Receiver
receive now raw s =
    if ltb (length raw) header_size
    then (some raw, s)
    else if not (is_zero (get_elem? raw 0))
    then (some raw, s)
    else receive_chunk now (header_of raw) raw s

-- The loop over the entries.
unfoldable pub cleanup_pending : ℕ → Receiver → Receiver → Receiver
cleanup_pending now [] s = s
cleanup_pending now ((msg_id, pm) ∷ rest) s =
    let gone = cleanup_pending now rest (JsMap.delete msg_id s) in
    let kept = cleanup_pending now rest s in
    if ltb reassembly_timeout (now - pm.created_at) then gone else kept

unfoldable pub cleanup : ℕ → Receiver → Receiver
cleanup now s = cleanup_pending now s s

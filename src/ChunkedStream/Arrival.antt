-- ===== src/ChunkedStream/Arrival.antt =====
-- How the receiver takes in a chunk of a message of which some chunks came before.
use aether_web_lite.Prelude.{
  ℕ, ◌+◌, ◌-◌, ◌*◌, ◌<◌, ◌≤◌, ◌≡◌, refl, ap, sym, ◌∙◌, true, false, ◌||◌, none, some, List, [], ◌∷◌,
  arith, ltb, leb, nat_beq, number_key, ◌==◌, eq_iff, if◌then◌else◌, length, get_elem?, includes,
  Bool-cases, inl, inr,
}
use aether_web_lite.Bytes.{Bytes, slice}
use aether_web_lite.JsMap
use aether_web_lite.JsMap.{JsMap}
use aether_web_lite.JsMap.Laws.{get-set, get-set_self, has-get, size-set}
use aether_web_lite.ChunkedStream.{
  chunk_size, header_size, max_message_bytes, max_chunks, piece, PendingMessage, Receiver, Header,
  header_of, open_message, with_chunk, complete, store_chunk, receive_chunk, receive,
}
use aether_web_lite.ChunkedStream.Framing.{length-piece, Reads}

-- The chunks that are held are those that came, and the size that is counted is bounded.
pub record Holds (total : ℕ) (message : Bytes) (done : List ℕ) (pm : PendingMessage) : Type 0 where
  pub total_is : pm.total_chunks ≡ total
  pub held :
      (i : ℕ) → JsMap.get i pm.chunks ≡ (if includes i done then some (piece message i) else none)
  pub number : JsMap.size pm.chunks ≡ length done
  pub bound : pm.total_size ≤ length done * chunk_size

-- The message that the next chunk finds open.
abbrev pub Ready : ℕ → ℕ → Bytes → List ℕ → Receiver → Type 0
Ready msg_id total message done s =
    (now : ℕ) (h : Header)
    → h.msg_id ≡ msg_id
    → h.total_chunks ≡ total
    → Holds total message done (open_message now h s).0

pub fresh-Ready :
    (msg_id total : ℕ) (message : Bytes) (s : Receiver)
    → JsMap.get msg_id s ≡ none
    → Ready msg_id total message [] s
unfolding open_message JsMap.get
fresh-Ready msg_id total message s e now h id_is total_is =
    let absent : JsMap.get h.msg_id s ≡ none = ap (λ i. JsMap.get i s) id_is ∙ e in
    rw (open_message, absent)
      (record { total_is = total_is; held = λ i. refl; number = refl; bound = omega arith })

pub set-Ready :
    (msg_id total : ℕ) (message : Bytes) (done : List ℕ) (pm : PendingMessage) (s : Receiver)
    → Holds total message done pm
    → Ready msg_id total message done (JsMap.set msg_id pm s)
unfolding open_message
set-Ready msg_id total message done pm s held now h id_is total_is =
    let there : JsMap.get h.msg_id (JsMap.set msg_id pm s) ≡ some pm =
      ap (λ i. JsMap.get i (JsMap.set msg_id pm s)) id_is ∙ get-set_self msg_id pm s in
    rw (open_message, there) held

get_added :
    (seq i : ℕ) (p : Bytes) (chunks : JsMap ℕ Bytes) (message : Bytes) (done : List ℕ)
    → JsMap.get i chunks ≡ (if includes i done then some (piece message i) else none)
    → p ≡ piece message seq
    → JsMap.get i (JsMap.set seq p chunks)
      ≡ (if includes i (seq ∷ done) then some (piece message i) else none)
get_added seq i p chunks message done h e = elim (Bool-cases (seq == i)) [
  | inl t ↦ let same : seq ≡ i = (eq_iff seq i).0 t in get-set seq i p chunks ∙ rw (t, e, same) refl
  | inr f ↦ get-set seq i p chunks ∙ rw f h
]

pub with_chunk-Holds :
    (total : ℕ) (message : Bytes) (done : List ℕ) (pm : PendingMessage) (seq : ℕ)
    → includes seq done ≡ false
    → Holds total message done pm
    → Holds total message (seq ∷ done) (with_chunk seq (piece message seq) pm)
with_chunk-Holds total message done pm seq fresh h = record {
  total_is = h.total_is;
  held = λ i. get_added seq i (piece message seq) pm.chunks message done (h.held i) refl;
  number = ground (
    arith,
    size-set seq (piece message seq) pm.chunks,
    has-get seq pm.chunks,
    h.held seq,
    h.number,
  );
  bound = omega (arith, h.bound, length-piece message seq);
}

store_chunk-stores :
    (h : Header) (p : Bytes) (pm : PendingMessage) (s : Receiver)
    → pm.total_chunks ≡ h.total_chunks
    → JsMap.has h.seq_no pm.chunks ≡ false
    → pm.total_size + length p ≤ max_message_bytes
    → store_chunk h p pm s ≡ complete h.msg_id (with_chunk h.seq_no p pm) s
unfolding store_chunk
store_chunk-stores h p pm s same fresh fits =
    let t : nat_beq pm.total_chunks h.total_chunks ≡ true = ground arith in
    let f : ltb max_message_bytes (pm.total_size + length p) ≡ false = ground arith in
    rw (t, fresh, f) refl

receive_chunk-stores :
    (now : ℕ) (h : Header) (raw : Bytes) (s : Receiver)
    → h.seq_no < h.total_chunks
    → h.total_chunks ≤ max_chunks
    → length raw ≡ 12 + h.chunk_size
    → receive_chunk now h raw s ≡ (
        let opened = open_message now h s in
        store_chunk h (slice header_size h.chunk_size raw) opened.0 opened.1)
unfolding receive_chunk
receive_chunk-stores now h raw s lt few long =
    let a : (nat_beq h.total_chunks 0 || leb h.total_chunks h.seq_no) ≡ false = ground arith in
    let b : ltb max_chunks h.total_chunks ≡ false = ground arith in
    let c : ltb (length raw - header_size) h.chunk_size ≡ false = ground arith in rw (a, b, c) refl

receive-framed :
    (now : ℕ) (raw : Bytes) (s : Receiver)
    → 12 ≤ length raw
    → get_elem? raw 0 ≡ some 0
    → receive now raw s ≡ receive_chunk now (header_of raw) raw s
unfolding receive
receive-framed now raw s long first =
    let a : ltb (length raw) header_size ≡ false = ground arith in rw (a, first) refl

-- The receiver takes the chunk in.
pub takes_in :
    (now : ℕ) (raw : Bytes) (s : Receiver) (msg_id seq total : ℕ) (message : Bytes) (done : List ℕ)
    → Reads raw msg_id seq total (piece message seq)
    → Ready msg_id total message done s
    → seq < total
    → total ≤ max_chunks
    → length done < total
    → includes seq done ≡ false
    → receive now raw s ≡ (
        let opened = open_message now (header_of raw) s in
        complete msg_id (with_chunk seq (piece message seq) opened.0) opened.1)
takes_in now raw s msg_id seq total message done r ready lt few missing fresh =
    let h = header_of raw in
    let id_is : h.msg_id ≡ msg_id = ap (λ x. x.msg_id) r.header in
    let seq_is : h.seq_no ≡ seq = ap (λ x. x.seq_no) r.header in
    let total_is : h.total_chunks ≡ total = ap (λ x. x.total_chunks) r.header in
    let size_is : h.chunk_size ≡ length (piece message seq) = ap (λ x. x.chunk_size) r.header in
    let opened = open_message now h s in
    let held = ready now h id_is total_is in
    let absent : JsMap.has h.seq_no opened.0.chunks ≡ false =
      ap (λ i. JsMap.has i opened.0.chunks) seq_is
      ∙ (has-get seq opened.0.chunks ∙ rw (held.held seq, fresh) refl) in
    let cut : slice header_size h.chunk_size raw ≡ piece message seq =
      ap (λ n. slice header_size n raw) size_is ∙ r.cut in
    receive-framed now raw s (omega (arith, r.long)) r.first
    ∙ (receive_chunk-stores now h raw s (omega (arith, seq_is, total_is)) (omega (arith, total_is))
          (omega (arith, r.long, size_is))
        ∙ (ap (λ p. store_chunk h p opened.0 opened.1) cut
            ∙ (store_chunk-stores h (piece message seq) opened.0 opened.1
                  (held.total_is ∙ sym total_is) absent
                  (omega (arith, held.bound, length-piece message seq))
                ∙ (ap (λ i. complete i (with_chunk h.seq_no (piece message seq) opened.0) opened.1)
                      id_is
                    ∙ ap (λ i. complete msg_id (with_chunk i (piece message seq) opened.0) opened.1)
                        seq_is))))

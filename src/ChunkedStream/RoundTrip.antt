-- ===== src/ChunkedStream/RoundTrip.antt =====
-- A message that was cut into chunks comes out whole, in whatever order the chunks arrive.
use aether_web_lite.Prelude.{
  ℕ, zero, suc, ◌+◌, ◌*◌, ◌%◌, ◌^◌, ◌<◌, ◌≤◌, ◌≡◌, refl, ap, ◌∙◌, true, false, ◌||◌, none, some,
  List, [], ◌∷◌, arith, leb, nat_beq, number_key, eq_iff, eq_self, Bool-cases, inl, inr, length,
  get_elem?, All, includes,
}
use aether_web_lite.Bytes.{Bytes}
use aether_web_lite.JsMap
use aether_web_lite.JsMap.{JsMap}
use aether_web_lite.ChunkedStream.{
  chunk_size, max_message_bytes, max_chunks, chunk_count, piece, chunk_bytes, chunks_from, send,
  PendingMessage, Receiver, header_of, open_message, assemble, with_chunk, complete, receive,
  cleanup,
}
use aether_web_lite.ChunkedStream.Framing.{chunk_bytes-Reads}
use aether_web_lite.ChunkedStream.Arrival.{
  Holds, Ready, fresh-Ready, set-Ready, with_chunk-Holds, takes_in,
}
use aether_web_lite.ChunkedStream.Waiting.{
  Young, absent-Young, set-Young, open_message-Young, cleanup-Young, cleanup-Ready,
}
use aether_web_lite.ChunkedStream.Pieces.{assemble-pieces}

-- What happens to a receiver: a block of bytes comes, or its timer fires.
pub data Incoming : Type 0 where
  comes : ℕ → Bytes → Incoming
  fires : ℕ → Incoming

-- All that the receiver gives out.
pub receive_all : List Incoming → Receiver → List Bytes × Receiver
receive_all [] s = ([], s)
receive_all (comes now raw ∷ later) s =
    let (given, s1) = receive now raw s in
    let (rest, s2) = receive_all later s1 in
    (elim given [ none ↦ rest | some bytes ↦ bytes ∷ rest ], s2)
receive_all (fires now ∷ later) s = receive_all later (cleanup now s)

-- A chunk of what is sent, by its place, or the timer.
pub data Delivery : Type 0 where
  delivery : ℕ → ℕ → Delivery
  timer : ℕ → Delivery

-- What is sent, in the order of the places given, each at its time.
abbrev pub arrive : List Bytes → List Delivery → List Incoming
arrive sent [] = []
arrive sent (timer now ∷ rest) = fires now ∷ arrive sent rest
arrive sent (delivery now place ∷ rest) = elim (get_elem? sent place) [
  | none ↦ arrive sent rest
  | some raw ↦ comes now raw ∷ arrive sent rest
]

abbrev pub places : List Delivery → List ℕ
places [] = []
places (timer now ∷ rest) = places rest
places (delivery now place ∷ rest) = place ∷ places rest

-- Not more than ten seconds after the start.
abbrev pub InTime : ℕ → Delivery → Type 0
InTime start (timer now) = now ≤ start + 10_000
InTime start (delivery now place) = (start ≤ now) × (now ≤ start + 10_000)

abbrev pub Once : List ℕ → Type 0
Once [] = Unit
Once (i ∷ is) = (includes i is ≡ false) × Once is

-- Each place below the total comes once.
pub record AnyOrder (total : ℕ) (arrivals : List Delivery) : Type 0 where
  pub as_many : length (places arrivals) ≡ total
  pub in_range : All (λ i. i < total) (places arrivals)
  pub once : Once (places arrivals)
  pub each : (i : ℕ) → i < total → includes i (places arrivals) ≡ true

get_elem?-chunks_from :
    (msg_id total : ℕ) (message : Bytes) (seq left j : ℕ)
    → j < left
    → get_elem? (chunks_from msg_id total message seq left) j
      ≡ some (chunk_bytes msg_id total message (seq + j))
get_elem?-chunks_from msg_id total message seq zero j h = absurd (omega arith)
get_elem?-chunks_from msg_id total message seq (suc left) zero h =
    ap (λ k. some (chunk_bytes msg_id total message k)) (omega arith)
get_elem?-chunks_from msg_id total message seq (suc left) (suc j) h =
    get_elem?-chunks_from msg_id total message (seq + 1) left j (omega arith)
    ∙ ap (λ k. some (chunk_bytes msg_id total message k)) (omega arith)

complete-last :
    (msg_id total : ℕ) (message : Bytes) (done : List ℕ) (pm : PendingMessage) (s : Receiver)
    → Holds total message done pm
    → length done ≡ total
    → length message ≤ total * chunk_size
    → ((i : ℕ) → i < total → includes i done ≡ true)
    → complete msg_id pm s ≡ (some message, JsMap.delete msg_id s)
unfolding complete
complete-last msg_id total message done pm s h all fits each =
    let full : nat_beq (JsMap.size pm.chunks) pm.total_chunks ≡ true =
      ground (arith, h.number, h.total_is) in
    rw (complete, full)
      (ap (λ bytes. (some bytes, JsMap.delete msg_id s))
        (ap (assemble pm.chunks 0) h.total_is
          ∙ assemble-pieces pm.chunks message total 0 total (omega arith) fits
              (λ j lt. h.held j ∙ rw (each j lt) refl)))

complete-waits :
    (msg_id total : ℕ) (message : Bytes) (done : List ℕ) (pm : PendingMessage) (s : Receiver)
    → Holds total message done pm
    → length done < total
    → complete msg_id pm s ≡ (none, JsMap.set msg_id pm s)
unfolding complete
complete-waits msg_id total message done pm s h few =
    let open_yet : nat_beq (JsMap.size pm.chunks) pm.total_chunks ≡ false =
      ground (arith, h.number, h.total_is) in
    rw (complete, open_yet) refl

-- One more block that gives out nothing, or gives out something.
receive_all-waits :
    (now : ℕ) (raw : Bytes) (later : List Incoming) (s s1 : Receiver)
    → receive now raw s ≡ (none, s1)
    → (receive_all (comes now raw ∷ later) s).0 ≡ (receive_all later s1).0
unfolding receive_all
receive_all-waits now raw later s s1 e =
    ap
      (λ r. elim r.0 as (λ o. List Bytes) [
        | none ↦ (receive_all later r.1).0
        | some given ↦ given ∷ (receive_all later r.1).0
      ])
      e

receive_all-gives :
    (now : ℕ) (raw bytes : Bytes) (later : List Incoming) (s s1 : Receiver)
    → receive now raw s ≡ (some bytes, s1)
    → (receive_all (comes now raw ∷ later) s).0 ≡ bytes ∷ (receive_all later s1).0
unfolding receive_all
receive_all-gives now raw bytes later s s1 e =
    ap
      (λ r. elim r.0 as (λ o. List Bytes) [
        | none ↦ (receive_all later r.1).0
        | some given ↦ given ∷ (receive_all later r.1).0
      ])
      e

-- The timer gives out nothing.
receive_all-quiet :
    (sent : List Bytes) (rest : List Delivery) (s : Receiver)
    → length (places rest) ≡ 0
    → (receive_all (arrive sent rest) s).0 ≡ []
unfolding receive_all
receive_all-quiet sent [] s h = refl
receive_all-quiet sent (timer now ∷ rest) s h = receive_all-quiet sent rest (cleanup now s) h
receive_all-quiet sent (delivery now place ∷ rest) s h = absurd (omega arith)

still_free :
    (i seq : ℕ) (done rest : List ℕ)
    → includes seq rest ≡ false
    → includes i rest ≡ true
    → includes i done ≡ false
    → includes i (seq ∷ done) ≡ false
still_free i seq done rest a b c = ground (arith, eq_iff seq i)

moved :
    (i seq : ℕ) (done rest : List ℕ)
    → (includes i done || includes i (seq ∷ rest)) ≡ true
    → (includes i (seq ∷ done) || includes i rest) ≡ true
moved i seq done rest h = ground arith

in_tail : (i seq : ℕ) (rest : List ℕ) → includes i rest ≡ true → includes i (seq ∷ rest) ≡ true
in_tail i seq rest h = ground arith

send-cuts :
    (counter : ℕ) (message : Bytes)
    → chunk_size < length message
    → (send counter message).0
      ≡ chunks_from (counter % 2 ^ 32) (chunk_count message) message 0 (chunk_count message)
unfolding send
send-cuts counter message large =
    let f : leb (length message) chunk_size ≡ false = ground arith in rw (send, f) refl

covered :
    (i : ℕ) (done rest : List ℕ)
    → length rest ≡ 0
    → (includes i done || includes i rest) ≡ true
    → includes i done ≡ true
covered i done [] n h = ground arith
covered i done (j ∷ rest) n h = absurd (omega arith)

module _ (msg_id : ℕ) (message : Bytes) (sent : List Bytes) (total : ℕ) (id_fits : msg_id < 2 ^ 32)
    (few : total ≤ max_chunks) (fits : length message ≤ total * chunk_size)
    (made : (j : ℕ)
      → j < total
      → get_elem? sent j ≡ some (chunk_bytes msg_id total message j)) where
  arrive-head :
      (now seq : ℕ) (rest : List Delivery)
      → seq < total
      → arrive sent (delivery now seq ∷ rest)
        ≡ comes now (chunk_bytes msg_id total message seq) ∷ arrive sent rest
  arrive-head now seq rest lt = rw (arrive, made seq lt) refl

  -- A chunk that is taken in.
  record Taken (start now seq : ℕ) (done : List ℕ) (s : Receiver) : Type 0 where
    pm : PendingMessage
    after : Receiver
    received : receive now (chunk_bytes msg_id total message seq) s ≡ complete msg_id pm after
    holds : Holds total message (seq ∷ done) pm
    begun : start ≤ pm.created_at
    young : Young msg_id start after

  taken :
      (start now seq : ℕ) (done : List ℕ) (s : Receiver)
      → start ≤ now
      → Young msg_id start s
      → Ready msg_id total message done s
      → seq < total
      → length done < total
      → includes seq done ≡ false
      → Taken start now seq done s
  taken start now seq done s le young ready lt missing absent =
      let raw = chunk_bytes msg_id total message seq in
      let r = chunk_bytes-Reads msg_id total message seq id_fits (omega arith) (omega arith) in
      let opened = open_message now (header_of raw) s in
      let same = ap (λ h. h.msg_id) r.header in
      let held = ready now (header_of raw) same (ap (λ h. h.total_chunks) r.header) in
      let (begun, still_young) =
        open_message-Young msg_id start now (header_of raw) s same le young in
      record {
        pm = with_chunk seq (piece message seq) opened.0;
        after = opened.1;
        received = takes_in now raw s msg_id seq total message done r ready lt few missing absent;
        holds = with_chunk-Holds total message done opened.0 seq absent held;
        begun = begun;
        young = still_young;
      }

  delivers :
      (start : ℕ) (arrivals : List Delivery) (done : List ℕ) (s : Receiver)
      → Young msg_id start s
      → Ready msg_id total message done s
      → All (InTime start) arrivals
      → length done + length (places arrivals) ≡ total
      → length done < total
      → All (λ i. i < total) (places arrivals)
      → Once (places arrivals)
      → ((i : ℕ) → includes i (places arrivals) ≡ true → includes i done ≡ false)
      → ((i : ℕ) → i < total → (includes i done || includes i (places arrivals)) ≡ true)
      → (receive_all (arrive sent arrivals) s).0 ≡ message ∷ []
  unfolding receive_all
  delivers start [] done s young ready in_time many missing range once free each =
      absurd (omega arith)
  delivers start (timer now ∷ rest) done s young ready in_time many missing range once free each =
      delivers start rest done (cleanup now s) (cleanup-Young msg_id start now s young)
        (cleanup-Ready msg_id total start now message done s in_time.0 young ready) in_time.1 many
        missing range once free each
  delivers start (delivery now seq ∷ rest) done s young ready in_time many missing range once free
        each =
      let absent : includes seq done ≡ false = free seq (ground (arith, eq_self seq)) in
      let t = taken start now seq done s in_time.0.0 young ready range.0 missing absent in
      let raw = chunk_bytes msg_id total message seq in
      let covers = λ (i : ℕ) (lt : i < total). moved i seq done (places rest) (each i lt) in
      ap (λ a. (receive_all a s).0) (arrive-head now seq rest range.0)
      ∙ elim (Bool-cases (nat_beq (length (places rest)) 0)) [
        | inl over ↦
            let none_left : length (places rest) ≡ 0 = ground (arith, over) in
            let last =
              complete-last msg_id total message (seq ∷ done) t.pm t.after t.holds (omega arith)
                fits (λ i lt. covered i (seq ∷ done) (places rest) none_left (covers i lt)) in
            receive_all-gives now raw message (arrive sent rest) s (JsMap.delete msg_id t.after)
              (t.received ∙ last)
            ∙ ap (λ l. message ∷ l)
                (receive_all-quiet sent rest (JsMap.delete msg_id t.after) none_left)
        | inr more ↦
            let waits =
              complete-waits msg_id total message (seq ∷ done) t.pm t.after t.holds
                (ground (arith, more)) in
            let s2 = JsMap.set msg_id t.pm t.after in
            receive_all-waits now raw (arrive sent rest) s s2 (t.received ∙ waits)
            ∙ delivers start rest (seq ∷ done) s2
                (set-Young msg_id start msg_id t.pm t.after t.begun t.young)
                (set-Ready msg_id total message (seq ∷ done) t.pm t.after t.holds) in_time.1
                (omega arith) (ground (arith, more)) range.1 once.1
                (λ i h.
                  still_free i seq done (places rest) once.0 h
                    (free i (in_tail i seq (places rest) h)))
                covers
      ]

-- A message of more than 4096 bytes and at most 1 MiB, cut into chunks by the sender, is given out
-- by the receiver once and whole when its chunks arrive, each once and in whatever order, within ten
-- seconds from a time on, however often the receiver's timer fires before those are over, if the
-- receiver holds nothing under the message's id when the first chunk comes.
pub receive_all-send :
    (counter : ℕ) (message : Bytes) (start : ℕ) (arrivals : List Delivery) (s : Receiver)
    → chunk_size < length message
    → length message ≤ max_message_bytes
    → AnyOrder (chunk_count message) arrivals
    → All (InTime start) arrivals
    → JsMap.get (counter % 2 ^ 32) s ≡ none
    → (receive_all (arrive (send counter message).0 arrivals) s).0 ≡ message ∷ []
receive_all-send counter message start arrivals s large small order in_time fresh =
    let total = chunk_count message in
    let msg_id = counter % 2 ^ 32 in
    let cut : (send counter message).0 ≡ chunks_from msg_id total message 0 total =
      send-cuts counter message large in
    ap (λ sent. (receive_all (arrive sent arrivals) s).0) cut
    ∙ delivers msg_id message (chunks_from msg_id total message 0 total) total (omega arith)
        (omega arith) (omega arith)
        (λ j lt.
          get_elem?-chunks_from msg_id total message 0 total j lt
          ∙ ap (λ k. some (chunk_bytes msg_id total message k)) (omega arith))
        start arrivals [] s (absent-Young msg_id start s fresh)
        (fresh-Ready msg_id total message s fresh) in_time (omega (arith, order.as_many))
        (omega arith) order.in_range order.once (λ i h. refl) (λ i lt. order.each i lt)

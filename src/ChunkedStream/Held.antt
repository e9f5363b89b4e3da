-- ===== src/ChunkedStream/Held.antt =====
-- What a receiver may hold, whatever it is sent.
use aether_web_lite.Prelude.{
  ℕ, ◌+◌, ◌-◌, ◌<◌, ◌≤◌, ◌≡◌, refl, true, false, ◌||◌, none, some, [], ◌∷◌, arith, ltb, leb,
  nat_beq, number_key, ◌==◌, eq_iff, eq_self, length, get_elem?, Bool-cases, inl, inr, ◌⊎◌, sym,
  subst, ◌∙◌,
}
use aether_web_lite.Bytes.{Bytes, slice}
use aether_web_lite.JsMap
use aether_web_lite.JsMap.{JsMap}
use aether_web_lite.JsMap.Laws.{
  get-set, get-delete, has-get, has-set, size-set, size-delete, size-delete-le, Distinct-set,
  Distinct-delete,
}
use aether_web_lite.ChunkedStream.{
  header_size, max_message_bytes, max_pending_messages, max_chunks, PendingMessage, Receiver,
  Header, header_of, new_pending, make_room, open_message, with_chunk, complete, store_chunk,
  receive_chunk, receive, cleanup, cleanup_pending, is_zero, reassembly_timeout,
}

abbrev pub total_length : JsMap ℕ Bytes → ℕ
total_length [] = 0
total_length ((seq, payload) ∷ chunks) = length payload + total_length chunks

total_length-set :
    (seq : ℕ) (payload : Bytes) (chunks : JsMap ℕ Bytes)
    → JsMap.has seq chunks ≡ false
    → total_length (JsMap.set seq payload chunks) ≡ total_length chunks + length payload
unfolding JsMap.set JsMap.has
total_length-set seq payload [] h = omega arith
total_length-set seq payload ((i, p) ∷ chunks) h =
    ground (arith, total_length-set seq payload chunks)

-- A message of at most 256 chunks, of which some are missing; the size that is counted is that of
-- the chunks that are held, at most 1 MiB.
pub record Good (pm : PendingMessage) : Type 0 where
  pub few : pm.total_chunks ≤ max_chunks
  pub missing : JsMap.size pm.chunks < pm.total_chunks
  pub counted : total_length pm.chunks ≡ pm.total_size
  pub small : pm.total_size ≤ max_message_bytes

abbrev pub AllGood : Receiver → Type 0
AllGood s = (id : ℕ) (pm : PendingMessage) → JsMap.get id s ≡ some pm → Good pm

abbrev pub WellFormed : Receiver → Type 0
WellFormed s = JsMap.Distinct s × (JsMap.size s ≤ max_pending_messages) × AllGood s

has-set_self :
    (id : ℕ) (pm : PendingMessage) (s : Receiver) → JsMap.has id (JsMap.set id pm s) ≡ true
has-set_self id pm s = rw (has-set, eq_self id)

pub of_same {ℓ} : {A : Type ℓ} {a b : A} → some a ≡ some b → a ≡ b
of_same e = cc

delete-WellFormed : (id : ℕ) (s : Receiver) → WellFormed s → WellFormed (JsMap.delete id s)
delete-WellFormed id s w = (
  Distinct-delete id s w.0,
  omega (arith, size-delete-le id s, w.1),
  λ j pm h. w.2 j pm (ground (arith, get-delete id j s)),
)

set-AllGood :
    (id : ℕ) (pm : PendingMessage) (s : Receiver)
    → Good pm
    → AllGood s
    → AllGood (JsMap.set id pm s)
set-AllGood id pm s g a j q h = elim (Bool-cases (id == j)) [
  | inl t ↦
      let same : pm ≡ q = of_same (sym (get-set id j pm s ∙ rw t refl) ∙ h) in subst Good same g
  | inr f ↦ a j q (sym (get-set id j pm s ∙ rw f refl) ∙ h)
]

new_pending-Good : (total now : ℕ) → 0 < total → total ≤ max_chunks → Good (new_pending total now)
new_pending-Good total now pos few = record {
  few = few;
  missing = pos;
  counted = refl;
  small = omega arith;
}

with_chunk-Good :
    (seq : ℕ) (payload : Bytes) (pm : PendingMessage)
    → Good pm
    → JsMap.has seq pm.chunks ≡ false
    → pm.total_size + length payload ≤ max_message_bytes
    → nat_beq (JsMap.size (JsMap.set seq payload pm.chunks)) pm.total_chunks ≡ false
    → Good (with_chunk seq payload pm)
with_chunk-Good seq payload pm g fresh fits more = record {
  few = g.few;
  missing = ground (arith, size-set seq payload pm.chunks, g.missing);
  counted = omega (arith, total_length-set seq payload pm.chunks fresh, g.counted);
  small = fits;
}

-- Making room keeps everything, or removes one message.
evict_cases :
    (s : Receiver)
    → ((make_room s ≡ s) × (JsMap.size s < max_pending_messages))
      ⊎ ((id : ℕ) × (make_room s ≡ JsMap.delete id s) × (JsMap.has id s ≡ true))
unfolding make_room JsMap.has
evict_cases [] = inl (refl, omega arith)
evict_cases ((id, pm) ∷ s) =
    elim (Bool-cases (leb max_pending_messages (JsMap.size ((id, pm) ∷ s)))) [
      | inl t ↦ inr (id, rw t refl, ground (arith, eq_iff id id))
      | inr f ↦ inl (rw f refl, ground arith)
    ]

make_room-WellFormed : (s : Receiver) → WellFormed s → WellFormed (make_room s)
make_room-WellFormed s w = elim (evict_cases s) [
  | inl (same, room) ↦ subst WellFormed (sym same) w
  | inr (id, removed, there) ↦ subst WellFormed (sym removed) (delete-WellFormed id s w)
]

size-make_room : (s : Receiver) → WellFormed s → JsMap.size (make_room s) < max_pending_messages
size-make_room s w = elim (evict_cases s) [
  | inl (same, room) ↦ subst (λ r. JsMap.size r < max_pending_messages) (sym same) room
  | inr (id, removed, there) ↦
      subst (λ r. JsMap.size r < max_pending_messages) (sym removed)
        (omega (arith, size-delete id s w.0 there, w.1))
]

put-WellFormed :
    (id : ℕ) (pm : PendingMessage) (s : Receiver)
    → Good pm
    → (JsMap.has id s ≡ true) ⊎ (JsMap.size s < max_pending_messages)
    → WellFormed s
    → WellFormed (JsMap.set id pm s)
put-WellFormed id pm s g room w =
    (Distinct-set id pm s w.0, ground (arith, size-set id pm s, w.1), set-AllGood id pm s g w.2)

-- An opened message is good and held, in a state that is well-formed.
abbrev Opened : ℕ → PendingMessage × Receiver → Type 0
Opened id r = Good r.0 × WellFormed r.1 × (JsMap.has id r.1 ≡ true)

open_message-Opened :
    (now : ℕ) (h : Header) (s : Receiver)
    → 0 < h.total_chunks
    → h.total_chunks ≤ max_chunks
    → WellFormed s
    → Opened h.msg_id (open_message now h s)
unfolding open_message
open_message-Opened now h s pos few w =
    elim (JsMap.get h.msg_id s)
        as (λ o.
          (JsMap.get h.msg_id s ≡ o)
          → Opened h.msg_id (elim o [
            | some pm ↦ (pm, s)
            | none ↦
                let pm = new_pending h.total_chunks now in (pm, JsMap.set h.msg_id pm (make_room s))
          ])) [
            | none ↦ λ e.
                let pm = new_pending h.total_chunks now in
                let g = new_pending-Good h.total_chunks now pos few in
                (
                  g,
                  put-WellFormed h.msg_id pm (make_room s) g (inr (size-make_room s w))
                      (make_room-WellFormed s w),
                  has-set_self h.msg_id pm (make_room s),
                )
            | some pm ↦ λ e. (w.2 h.msg_id pm e, w, has-get h.msg_id s ∙ rw e refl)
          ]
      refl

complete-WellFormed :
    (id : ℕ) (pm : PendingMessage) (s : Receiver)
    → (nat_beq (JsMap.size pm.chunks) pm.total_chunks ≡ false → Good pm)
    → JsMap.has id s ≡ true
    → WellFormed s
    → WellFormed (complete id pm s).1
unfolding complete
complete-WellFormed id pm s g there w =
    elim (Bool-cases (nat_beq (JsMap.size pm.chunks) pm.total_chunks)) [
      | inl t ↦ rw t (delete-WellFormed id s w)
      | inr f ↦ rw f (put-WellFormed id pm s (g f) (inl there) w)
    ]

store_chunk-WellFormed :
    (h : Header) (payload : Bytes) (pm : PendingMessage) (s : Receiver)
    → Opened h.msg_id (pm, s)
    → WellFormed (store_chunk h payload pm s).1
unfolding store_chunk
store_chunk-WellFormed h payload pm s o =
    elim (Bool-cases (nat_beq pm.total_chunks h.total_chunks)) [
      | inr f ↦ rw f (delete-WellFormed h.msg_id s o.1)
      | inl t ↦ elim (Bool-cases (JsMap.has h.seq_no pm.chunks)) [
        | inl again ↦ rw (t, again) o.1
        | inr fresh ↦ elim (Bool-cases (ltb max_message_bytes (pm.total_size + length payload))) [
          | inl large ↦ rw (t, fresh, large) (delete-WellFormed h.msg_id s o.1)
          | inr fits ↦
              rw (t, fresh, fits)
                (complete-WellFormed h.msg_id (with_chunk h.seq_no payload pm) s
                  (with_chunk-Good h.seq_no payload pm o.0 fresh (ground arith)) o.2 o.1)
        ]
      ]
    ]

receive_chunk-WellFormed :
    (now : ℕ) (h : Header) (raw : Bytes) (s : Receiver)
    → WellFormed s
    → WellFormed (receive_chunk now h raw s).1
unfolding receive_chunk
receive_chunk-WellFormed now h raw s w =
    elim (Bool-cases (nat_beq h.total_chunks 0 || leb h.total_chunks h.seq_no)) [
      | inl t ↦ rw t w
      | inr f ↦ elim (Bool-cases (ltb max_chunks h.total_chunks)) [
        | inl many ↦ rw (f, many) w
        | inr few ↦ elim (Bool-cases (ltb (length raw - header_size) h.chunk_size)) [
          | inl short ↦ rw (f, few, short) w
          | inr full ↦
              rw (f, few, full)
                (store_chunk-WellFormed h (slice header_size h.chunk_size raw)
                  (open_message now h s).0 (open_message now h s).1
                  (open_message-Opened now h s (ground arith) (ground arith) w))
        ]
      ]
    ]

-- A receiver holds at most 64 messages, each of at most 256 chunks and 1 MiB, whatever bytes come:
-- every received block of bytes keeps it so.
pub receive-WellFormed :
    (now : ℕ) (raw : Bytes) (s : Receiver) → WellFormed s → WellFormed (receive now raw s).1
unfolding receive
receive-WellFormed now raw s w = elim (Bool-cases (ltb (length raw) header_size)) [
  | inl t ↦ rw t w
  | inr f ↦ elim (Bool-cases (is_zero (get_elem? raw 0))) [
    | inl zero ↦ rw (f, zero) (receive_chunk-WellFormed now (header_of raw) raw s w)
    | inr other ↦ rw (f, other) w
  ]
]

cleanup_pending-WellFormed :
    (now : ℕ) (rest s : Receiver) → WellFormed s → WellFormed (cleanup_pending now rest s)
unfolding cleanup_pending
cleanup_pending-WellFormed now [] s w = w
cleanup_pending-WellFormed now ((id, pm) ∷ rest) s w =
    elim (Bool-cases (ltb reassembly_timeout (now - pm.created_at))) [
      | inl t ↦
          rw t (cleanup_pending-WellFormed now rest (JsMap.delete id s) (delete-WellFormed id s w))
      | inr f ↦ rw f (cleanup_pending-WellFormed now rest s w)
    ]

-- So does the cleanup.
pub cleanup-WellFormed : (now : ℕ) (s : Receiver) → WellFormed s → WellFormed (cleanup now s)
unfolding cleanup
cleanup-WellFormed now s w = cleanup_pending-WellFormed now s s w

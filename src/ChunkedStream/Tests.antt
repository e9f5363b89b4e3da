-- ===== src/ChunkedStream/Tests.antt =====
-- A message of two chunks that arrive in the wrong order, and blocks that are refused.
use aether_web_lite.Prelude.{
  ℕ, ◌≡◌, All, refl, sym, subst, ◌∙◌, ◌==◌, number_key, Bool-cases, inl, inr, none, some, List, [],
  ◌∷◌, arith,
}
use aether_web_lite.Bytes.{Bytes, read_be}
use aether_web_lite.JsMap
use aether_web_lite.HintPacket.{zeros}
use aether_web_lite.HintPacket.Buffer.{length-zeros}
use aether_web_lite.ChunkedStream.{
  chunk_count, send, PendingMessage, Receiver, receive, receive_chunk, header_of, store_chunk,
  open_message, complete, make_room, cleanup,
}
use aether_web_lite.ChunkedStream.Held.{
  Good, WellFormed, of_same, receive-WellFormed, cleanup-WellFormed,
}
use aether_web_lite.ChunkedStream.RoundTrip.{
  Delivery, delivery, timer, InTime, receive_all, arrive, AnyOrder, receive_all-send,
}

abbrev message : Bytes
message = zeros 5000

two_chunks : chunk_count message ≡ 2
two_chunks = omega (arith, length-zeros 5000)

abbrev backwards : List Delivery
backwards = delivery 10 1 ∷ timer 5_000 ∷ delivery 9_025 0 ∷ timer 10_000 ∷ []

backwards-AnyOrder : AnyOrder 2 backwards
backwards-AnyOrder = record {
  as_many = refl;
  in_range = (omega arith, (omega arith, tt));
  once = (refl, (refl, tt));
  each = λ i h. ground arith;
}

backwards-InTime : All (InTime 10) backwards
backwards-InTime =
    ((omega arith, omega arith), (omega arith, ((omega arith, omega arith), (omega arith, tt))))

receive_all-send_example : (receive_all (arrive (send 7 message).0 backwards) []).0 ≡ message ∷ []
unfolding JsMap.get
receive_all-send_example =
    receive_all-send 7 message 10 backwards [] (omega (arith, length-zeros 5000))
      (omega (arith, length-zeros 5000))
      (subst (λ n. AnyOrder n backwards) (sym two_chunks) backwards-AnyOrder) backwards-InTime refl

-- The first of two chunks, of one byte.
abbrev first_chunk : Bytes
first_chunk = 0 ∷ 0 ∷ 0 ∷ 0 ∷ 7 ∷ 0 ∷ 0 ∷ 0 ∷ 2 ∷ 0 ∷ 1 ∷ 0 ∷ 99 ∷ []

-- 257 chunks are too many.
abbrev too_many : Bytes
too_many = 0 ∷ 0 ∷ 0 ∷ 0 ∷ 7 ∷ 0 ∷ 0 ∷ 1 ∷ 1 ∷ 0 ∷ 1 ∷ 0 ∷ 99 ∷ []

abbrev held_pm : PendingMessage
held_pm = record { chunks = (0, 99 ∷ []) ∷ []; total_chunks = 2; total_size = 1; created_at = 10 }

abbrev waiting : Receiver
waiting = (7, held_pm) ∷ []

held_pm-Good : Good held_pm
held_pm-Good = record {
  few = omega arith;
  missing = omega arith;
  counted = refl;
  small = omega arith;
}

first_waits : receive 10 first_chunk [] ≡ (none, waiting)
unfolding receive receive_chunk header_of read_be open_message make_room store_chunk complete
    JsMap.get JsMap.set JsMap.has
first_waits = refl

too_many_refused : receive 10 too_many [] ≡ (none, [])
unfolding receive receive_chunk header_of read_be
too_many_refused = refl

waiting-Good : (id : ℕ) (pm : PendingMessage) → JsMap.get id waiting ≡ some pm → Good pm
unfolding JsMap.get
waiting-Good id pm h = elim (Bool-cases (7 == id)) [
  | inl t ↦
      let found : JsMap.get id waiting ≡ some held_pm = rw (JsMap.get, t) refl in
      subst Good (of_same (sym found ∙ h)) held_pm-Good
  | inr f ↦
      let absent : JsMap.get id waiting ≡ none = rw (JsMap.get, f) refl in
      let never : none ≡ some pm = sym absent ∙ h in cc
]

waiting-WellFormed : WellFormed waiting
unfolding JsMap.has
waiting-WellFormed = ((refl, tt), omega arith, waiting-Good)

receive-WellFormed_example : WellFormed (receive 30 too_many waiting).1
receive-WellFormed_example = receive-WellFormed 30 too_many waiting waiting-WellFormed

cleanup-WellFormed_example : WellFormed (cleanup 20_000 waiting)
cleanup-WellFormed_example = cleanup-WellFormed 20_000 waiting waiting-WellFormed

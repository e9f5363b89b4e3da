-- ===== src/ChunkedStream/Waiting.antt =====
-- The receiver's timer leaves a message in the making alone until its time is over.
use aether_web_lite.Prelude.{
  ℕ, ◌+◌, ◌≤◌, ◌≡◌, refl, ap, sym, ◌∙◌, true, none, some, List, [], ◌∷◌, arith, number_key, ◌==◌,
  Option-cases, inl, inr,
}
use aether_web_lite.Bytes.{Bytes}
use aether_web_lite.JsMap
use aether_web_lite.JsMap.{JsMap}
use aether_web_lite.JsMap.Laws.{get-delete}
use aether_web_lite.ChunkedStream.{
  reassembly_timeout, PendingMessage, Receiver, Header, new_pending, make_room, open_message,
  cleanup_pending, cleanup,
}
use aether_web_lite.ChunkedStream.Arrival.{Ready}

-- What is held under the id was begun at the time or later.
abbrev pub Young : ℕ → ℕ → Receiver → Type 0
Young msg_id start [] = Unit
Young msg_id start ((k, pm) ∷ s) =
    (((k == msg_id) ≡ true) → start ≤ pm.created_at) × Young msg_id start s

pub absent-Young :
    (msg_id start : ℕ) (s : Receiver) → JsMap.get msg_id s ≡ none → Young msg_id start s
unfolding JsMap.get
absent-Young msg_id start [] h = tt
absent-Young msg_id start ((k, pm) ∷ s) h =
    (λ e. ground arith, absent-Young msg_id start s (ground arith))

get-Young :
    (msg_id start : ℕ) (s : Receiver) (pm : PendingMessage)
    → Young msg_id start s
    → JsMap.get msg_id s ≡ some pm
    → start ≤ pm.created_at
unfolding JsMap.get
get-Young msg_id start [] pm y h = cc
get-Young msg_id start ((k, old) ∷ s) pm y h =
    ground (arith, h, y.0, get-Young msg_id start s pm y.1)

pub set-Young :
    (msg_id start k : ℕ) (pm : PendingMessage) (s : Receiver)
    → start ≤ pm.created_at
    → Young msg_id start s
    → Young msg_id start (JsMap.set k pm s)
unfolding JsMap.set
set-Young msg_id start k pm [] h y = (λ e. h, tt)
set-Young msg_id start k pm ((j, old) ∷ s) h y =
    ground (arith, h, y.0, y.1, set-Young msg_id start k pm s h y.1)

delete-Young :
    (msg_id start k : ℕ) (s : Receiver)
    → Young msg_id start s
    → Young msg_id start (JsMap.delete k s)
unfolding JsMap.delete
delete-Young msg_id start k [] y = tt
delete-Young msg_id start k ((j, old) ∷ s) y =
    ground (arith, y.0, y.1, delete-Young msg_id start k s y.1)

make_room-Young :
    (msg_id start : ℕ) (s : Receiver) → Young msg_id start s → Young msg_id start (make_room s)
unfolding make_room
make_room-Young msg_id start [] y = ground arith
make_room-Young msg_id start ((k, pm) ∷ s) y =
    ground (arith, y.0, y.1, delete-Young msg_id start k ((k, pm) ∷ s) y)

pub open_message-Young :
    (msg_id start now : ℕ) (h : Header) (s : Receiver)
    → h.msg_id ≡ msg_id
    → start ≤ now
    → Young msg_id start s
    → (start ≤ (open_message now h s).0.created_at) × Young msg_id start (open_message now h s).1
unfolding open_message
open_message-Young msg_id start now h s same le y = elim (Option-cases (JsMap.get h.msg_id s)) [
  | inr (pm, e) ↦
      rw (open_message, e)
        (get-Young msg_id start s pm y (ap (λ i. JsMap.get i s) (sym same) ∙ e), y)
  | inl e ↦
      let pm = new_pending h.total_chunks now in
      rw (open_message, e)
        (le, set-Young msg_id start h.msg_id pm (make_room s) le (make_room-Young msg_id start s y))
]

get-cleanup_pending :
    (msg_id start now : ℕ) (es s : Receiver)
    → now ≤ start + reassembly_timeout
    → Young msg_id start es
    → JsMap.get msg_id (cleanup_pending now es s) ≡ JsMap.get msg_id s
unfolding cleanup_pending
get-cleanup_pending msg_id start now [] s h y = refl
get-cleanup_pending msg_id start now ((k, pm) ∷ es) s h y = ground (
  arith,
  h,
  y.0,
  get-cleanup_pending msg_id start now es s h y.1,
  get-cleanup_pending msg_id start now es (JsMap.delete k s) h y.1,
  get-delete k msg_id s,
)

Young-cleanup_pending :
    (msg_id start now : ℕ) (es s : Receiver)
    → Young msg_id start s
    → Young msg_id start (cleanup_pending now es s)
unfolding cleanup_pending
Young-cleanup_pending msg_id start now [] s y = y
Young-cleanup_pending msg_id start now ((k, pm) ∷ es) s y = ground (
  arith,
  y,
  Young-cleanup_pending msg_id start now es s y,
  Young-cleanup_pending msg_id start now es (JsMap.delete k s) (delete-Young msg_id start k s y),
)

pub cleanup-Young :
    (msg_id start now : ℕ) (s : Receiver)
    → Young msg_id start s
    → Young msg_id start (cleanup now s)
unfolding cleanup
cleanup-Young msg_id start now s y = Young-cleanup_pending msg_id start now s s y

open_message-same :
    (now : ℕ) (h : Header) (s t : Receiver)
    → JsMap.get h.msg_id t ≡ JsMap.get h.msg_id s
    → (open_message now h t).0 ≡ (open_message now h s).0
unfolding open_message
open_message-same now h s t e = elim (Option-cases (JsMap.get h.msg_id s)) [
  | inl n ↦ rw (open_message, e, n) refl
  | inr (pm, n) ↦ rw (open_message, e, n) refl
]

pub cleanup-Ready :
    (msg_id total start now : ℕ) (message : Bytes) (done : List ℕ) (s : Receiver)
    → now ≤ start + reassembly_timeout
    → Young msg_id start s
    → Ready msg_id total message done s
    → Ready msg_id total message done (cleanup now s)
unfolding cleanup
cleanup-Ready msg_id total start now message done s le y ready later h same total_is =
    let kept : JsMap.get h.msg_id (cleanup_pending now s s) ≡ JsMap.get h.msg_id s =
      ap (λ i. JsMap.get i (cleanup_pending now s s)) same
      ∙ (get-cleanup_pending msg_id start now s s le y ∙ ap (λ i. JsMap.get i s) (sym same)) in
    rw (open_message-same later h s (cleanup_pending now s s) kept) (ready later h same total_is)

-- ===== src/HintRouter/Veil.antt =====
-- Broadcast Veil: what leaves the node does not depend on the keys it holds.
use aether_web_lite.Prelude.{
  ◌≡◌, refl, ap, sym, ◌∙◌, Bool, true, false, Option, List, [], ◌∷◌, ◌++◌, arith, Bool-cases,
  Option-cases, inl, inr, not, keep_if,
}
use aether_web_lite.Prelude.Text.{Text, text_eq}
use aether_web_lite.Bytes.{Bytes}
use aether_web_lite.JsMap
use aether_web_lite.SeenCache
use aether_web_lite.SeenCache.{SeenCache}
use aether_web_lite.HintPacket.{
  HintPacket, RawHint, verify_hint_pow, hint_pow_difficulty, parse_hint_packet, decode_hint,
}
use aether_web_lite.HintRouter.{
  Around, HintRouter, Effect, echo, observed, opened, send, originate, id_of, remember, try_open,
  flood, take_in, retry, add_key, ingest_local, originate_hint, Event, hint, exit_hint, own_hint,
  refloods, gains_key, loses_key, ingests, cleans_flooded, cleans_received, cleans_delivered, step,
  run, handle_exit_hint, accept_hint, handle_hint,
}

-- Two routers that have received and relayed the same hints; their keys, buffers and what they
-- opened may differ.
abbrev pub SameTraffic : HintRouter → HintRouter → Type 0
SameTraffic s t = (s.flooded ≡ t.flooded) × (s.received ≡ t.received)

module _ {Payload : Type 0} where
  -- What the neighbours and the circuit can observe: all but the calls of the listeners.
  unfoldable pub observable : List (Effect Payload) → List (Effect Payload)
  observable [] = []
  observable (opened p k h ∷ es) = observable es
  observable (observed ∷ es) = observable es
  observable (echo id ∷ es) = echo id ∷ observable es
  observable (send q h ∷ es) = send q h ∷ observable es
  observable (originate h id ∷ es) = originate h id ∷ observable es

  observable-append :
      (xs ys : List (Effect Payload)) → observable (xs ++ ys) ≡ observable xs ++ observable ys
  unfolding observable
  observable-append [] ys = refl
  observable-append (opened p k h ∷ xs) ys = observable-append xs ys
  observable-append (observed ∷ xs) ys = observable-append xs ys
  observable-append (echo id ∷ xs) ys = ap (◌∷◌ (echo id)) (observable-append xs ys)
  observable-append (send q h ∷ xs) ys = ap (◌∷◌ (send q h)) (observable-append xs ys)
  observable-append (originate h id ∷ xs) ys = ap (◌∷◌ (originate h id)) (observable-append xs ys)

  abbrev pub SameOutside :
      List (Effect Payload) × HintRouter → List (Effect Payload) × HintRouter → Type 0
  SameOutside x y = (observable x.0 ≡ observable y.0) × SameTraffic x.1 y.1

  quiet_first :
      (xs ys : List (Effect Payload)) → observable xs ≡ [] → observable (xs ++ ys) ≡ observable ys
  quiet_first xs ys quiet = observable-append xs ys ∙ rw quiet refl

module _ (sha256 : Bytes → Bytes) {Payload : Type 0}
    (open_hint : Bytes → HintPacket → Option Payload) where
  pub remember_hidden : (h : HintPacket) (s : HintRouter) → SameTraffic (remember sha256 h s) s
  unfolding remember
  remember_hidden h s = ground arith

  -- Whether a key opens the hint or none does, nothing leaves and the traffic is the same.
  pub try_open_hidden :
      (a : Around) (h : HintPacket) (id : Text) (s : HintRouter)
      → (observable (try_open sha256 open_hint a h id s).0 ≡ [])
        × SameTraffic (try_open sha256 open_hint a h id s).1 s
  unfolding try_open observable
  try_open_hidden a h id s = ground arith

  pub flood_same :
      (a : Around) (h : HintPacket) (exclude : Text) (s t : HintRouter)
      → SameTraffic s t
      → SameOutside (flood sha256 open_hint a h exclude s) (flood sha256 open_hint a h exclude t)
  unfolding flood
  flood_same a h exclude s t same = ground arith

  take_in_same :
      (a : Around) (exclude : Text) (h : HintPacket) (s t : HintRouter)
      → SameTraffic s t
      → SameOutside
          (take_in sha256 open_hint a exclude h s)
          (take_in sha256 open_hint a exclude h t)
  unfolding take_in
  take_in_same a exclude h s t same =
      let id = id_of sha256 h in
      let opening = try_open sha256 open_hint a h id (remember sha256 h s) in
      let opening' = try_open sha256 open_hint a h id (remember sha256 h t) in
      let (quiet, (f1, r1)) = try_open_hidden a h id (remember sha256 h s) in
      let (quiet', (f2, r2)) = try_open_hidden a h id (remember sha256 h t) in
      let (f3, r3) = remember_hidden h s in
      let (f4, r4) = remember_hidden h t in
      let (sent, traffic) =
        flood_same a h exclude opening.1 opening'.1
          (cc (f1, f2, f3, f4, same.0), cc (r1, r2, r3, r4, same.1)) in
      (
        quiet_first opening.0 (flood sha256 open_hint a h exclude opening.1).0 quiet
            ∙ (sent
                ∙ sym (
                    quiet_first opening'.0 (flood sha256 open_hint a h exclude opening'.1).0
                      quiet')),
        traffic,
      )

  accept_hint_same :
      (a : Around) (sender_id : Text) (h : HintPacket) (s t : HintRouter)
      → SameTraffic s t
      → SameOutside
          (accept_hint sha256 open_hint a sender_id h s)
          (accept_hint sha256 open_hint a sender_id h t)
  unfolding accept_hint observable
  accept_hint_same a sender_id h s t same =
      let id = id_of sha256 h in
      let s' : HintRouter = record s { received = SeenCache.add id a.now s.received } in
      let t' : HintRouter = record t { received = SeenCache.add id a.now t.received } in
      let taken = take_in_same a sender_id h s' t' (same.0, ap (SeenCache.add id a.now) same.1) in
      elim (Bool-cases (SeenCache.has id s.received)) [
        | inl old ↦ rw (old, ap (SeenCache.has id) (sym same.1) ∙ old) (refl, same)
        | inr new ↦
            rw (new, ap (SeenCache.has id) (sym same.1) ∙ new) (ap (◌∷◌ (echo id)) taken.0, taken.1)
      ]

  handle_hint_same :
      (a : Around) (sender_id : Text) (msg : RawHint) (s t : HintRouter)
      → SameTraffic s t
      → SameOutside
          (handle_hint sha256 open_hint a sender_id msg s)
          (handle_hint sha256 open_hint a sender_id msg t)
  unfolding handle_hint
  handle_hint_same a sender_id msg s t same = elim (Option-cases (parse_hint_packet msg)) [
    | inl e ↦ rw (handle_hint, e) (refl, same)
    | inr (h, e) ↦ elim (Bool-cases (verify_hint_pow sha256 hint_pow_difficulty h)) [
      | inl t1 ↦ rw (handle_hint, e, t1) (accept_hint_same a sender_id h s t same)
      | inr f1 ↦ rw (handle_hint, e, f1) (refl, same)
    ]
  ]

  handle_exit_hint_same :
      (a : Around) (bytes : Bytes) (s t : HintRouter)
      → SameTraffic s t
      → SameOutside
          (handle_exit_hint sha256 open_hint a bytes s)
          (handle_exit_hint sha256 open_hint a bytes t)
  unfolding handle_exit_hint observable
  handle_exit_hint_same a bytes s t same = elim (Option-cases (decode_hint bytes)) [
    | inl e ↦ rw (handle_exit_hint, e) (refl, same)
    | inr (h, e) ↦ elim (Bool-cases (verify_hint_pow sha256 hint_pow_difficulty h)) [
      | inl t1 ↦
          let taken = take_in_same a a.my_peer_id h s t same in
          rw (handle_exit_hint, e, t1) (ap (◌∷◌ (echo (id_of sha256 h))) taken.0, taken.1)
      | inr f1 ↦ rw (handle_exit_hint, e, f1) (refl, same)
    ]
  ]

  -- The keys are tried on the whole buffer, and nothing leaves.
  retry_hidden :
      (a : Around) (hints : List HintPacket) (s : HintRouter)
      → (observable (retry sha256 open_hint a hints s).0 ≡ [])
        × SameTraffic (retry sha256 open_hint a hints s).1 s
  unfolding retry observable
  retry_hidden a [] s = (refl, (refl, refl))
  retry_hidden a (h ∷ hints) s =
      let opening = try_open sha256 open_hint a h (id_of sha256 h) s in
      let (quiet, (f1, r1)) = try_open_hidden a h (id_of sha256 h) s in
      let (quiet', (f2, r2)) = retry_hidden a hints opening.1 in
      (rw (observable-append, quiet, quiet') refl, (f2 ∙ f1, r2 ∙ r1))

  -- The events that concern the node itself only.
  abbrev pub is_local : Event → Bool
  is_local (hint a sender_id msg) = false
  is_local (exit_hint a bytes) = false
  is_local (own_hint a h id) = false
  is_local (refloods a h) = false
  is_local (gains_key a key_id k) = true
  is_local (loses_key key_id) = true
  is_local (ingests a h) = true
  is_local (cleans_flooded now) = false
  is_local (cleans_received now) = false
  is_local (cleans_delivered now) = false

  local_hidden :
      (e : Event) (s : HintRouter)
      → is_local e ≡ true
      → (observable (step sha256 open_hint e s).0 ≡ [])
        × SameTraffic (step sha256 open_hint e s).1 s
  unfolding step add_key ingest_local observable
  local_hidden (hint a sender_id msg) s l = cc
  local_hidden (exit_hint a bytes) s l = cc
  local_hidden (own_hint a h id) s l = cc
  local_hidden (refloods a h) s l = cc
  local_hidden (gains_key a key_id k) s l =
      retry_hidden a s.recent_hints (record s { keys = JsMap.set key_id k s.keys })
  local_hidden (cleans_flooded now) s l = cc
  local_hidden (cleans_received now) s l = cc
  local_hidden (cleans_delivered now) s l = cc
  local_hidden (loses_key key_id) s l = (refl, (refl, refl))
  local_hidden (ingests a h) s l =
      let (quiet, (f1, r1)) = try_open_hidden a h (id_of sha256 h) (remember sha256 h s) in
      let (f2, r2) = remember_hidden h s in
      elim (Bool-cases (verify_hint_pow sha256 hint_pow_difficulty h)) [
        | inl t ↦ rw (ingest_local, t) (quiet, (f1 ∙ f2, r1 ∙ r2))
        | inr f ↦ rw (ingest_local, f) (refl, (refl, refl))
      ]

  step_same :
      (e : Event) (s t : HintRouter)
      → is_local e ≡ false
      → SameTraffic s t
      → SameOutside (step sha256 open_hint e s) (step sha256 open_hint e t)
  unfolding step originate_hint observable
  step_same (hint a sender_id msg) s t l same = handle_hint_same a sender_id msg s t same
  step_same (exit_hint a bytes) s t l same = handle_exit_hint_same a bytes s t same
  step_same (own_hint a h id) s t l same = (refl, same)
  step_same (refloods a h) s t l same = flood_same a h a.my_peer_id s t same
  step_same (gains_key a key_id k) s t l same = cc
  step_same (loses_key key_id) s t l same = cc
  step_same (ingests a h) s t l same = cc
  step_same (cleans_flooded now) s t l same = (refl, (ap (SeenCache.cleanup now) same.0, same.1))
  step_same (cleans_received now) s t l same = (refl, (same.0, ap (SeenCache.cleanup now) same.1))
  step_same (cleans_delivered now) s t l same = (refl, same)

  -- A history without the events that concern the node itself only.
  abbrev pub network : List Event → List Event
  network es = keep_if (λ e. not (is_local e)) es

  -- What the neighbours and the circuit see of a router, over any history, is what they would see
  -- of one that never gained, lost or tried a key of its own and took in nothing it had stored,
  -- whatever keys, buffers and opened hints the two start with, if they have received and relayed
  -- the same hints.
  pub keys_hidden :
      (es : List Event) (s t : HintRouter)
      → SameTraffic s t
      → observable (run sha256 open_hint es s) ≡ observable (run sha256 open_hint (network es) t)
  unfolding run
  keys_hidden [] s t same = refl
  keys_hidden (e ∷ es) s t same = elim (Bool-cases (is_local e)) [
    | inl l ↦
        let (quiet, (f1, r1)) = local_hidden e s l in
        let s1 = (step sha256 open_hint e s).1 in
        observable-append (step sha256 open_hint e s).0 (run sha256 open_hint es s1)
        ∙ rw (quiet, l) (keys_hidden es s1 t (f1 ∙ same.0, r1 ∙ same.1))
    | inr n ↦
        let (now_same, traffic) = step_same e s t n same in
        let s1 = (step sha256 open_hint e s).1 in
        let t1 = (step sha256 open_hint e t).1 in
        rw n (
          observable-append (step sha256 open_hint e s).0 (run sha256 open_hint es s1)
          ∙ (rw (now_same, keys_hidden es s1 t1 traffic) refl
              ∙ sym (
                  observable-append (step sha256 open_hint e t).0
                    (run sha256 open_hint (network es) t1))))
  ]

-- ===== src/HintRouter/Once.antt =====
-- A hint that arrives again is neither counted, opened nor passed on again, while it is remembered.
use aether_web_lite.Prelude.{
  ℕ, ◌+◌, ◌≤◌, List, All, ◌≡◌, refl, ap, ◌∙◌, true, false, Option, some, [], ◌∷◌, arith,
}
use aether_web_lite.Prelude.Text.{Text, text_eq, truthy}
use aether_web_lite.Bytes.{Bytes}
use aether_web_lite.SeenCache
use aether_web_lite.SeenCache.Bounds.{IsValid, add-IsValid}
use aether_web_lite.SeenCache.Remembered.{cleanups, get-add, get-cleanups}
use aether_web_lite.JsMap
use aether_web_lite.JsMap.Laws.{has-get}
use aether_web_lite.SeenCache.{SeenCache}
use aether_web_lite.HintPacket.{
  HintPacket, RawHint, verify_hint_pow, hint_pow_difficulty, parse_hint_packet,
}
use aether_web_lite.HintRouter.{
  Around, HintRouter, echo, id_of, remember, try_open, flood, take_in, accept_hint, handle_hint,
}
use aether_web_lite.HintRouter.Veil.{try_open_hidden, remember_hidden}

module _ (sha256 : Bytes → Bytes) {Payload : Type 0}
    (open_hint : Bytes → HintPacket → Option Payload) where
  -- The message is a hint that is accepted.
  abbrev pub Accepted : RawHint → HintPacket → Type 0
  Accepted msg h =
      (parse_hint_packet msg ≡ some h) × (verify_hint_pow sha256 hint_pow_difficulty h ≡ true)

  handle_hint-Accepted :
      (a : Around) (sender_id : Text) (msg : RawHint) (h : HintPacket) (s : HintRouter)
      → Accepted msg h
      → handle_hint sha256 open_hint a sender_id msg s
        ≡ accept_hint sha256 open_hint a sender_id h s
  unfolding handle_hint
  handle_hint-Accepted a sender_id msg h s ok = rw (handle_hint, ok.0, ok.1) refl

  flood-received :
      (a : Around) (h : HintPacket) (exclude : Text) (s : HintRouter)
      → (flood sha256 open_hint a h exclude s).1.received ≡ s.received
  unfolding flood
  flood-received a h exclude s = ground arith

  take_in-received :
      (a : Around) (exclude : Text) (h : HintPacket) (s : HintRouter)
      → (take_in sha256 open_hint a exclude h s).1.received ≡ s.received
  unfolding take_in
  take_in-received a exclude h s =
      let id = id_of sha256 h in
      let (quiet, (f1, r1)) = try_open_hidden sha256 open_hint a h id (remember sha256 h s) in
      let (f2, r2) = remember_hidden sha256 open_hint h s in
      flood-received a h exclude (try_open sha256 open_hint a h id (remember sha256 h s)).1
      ∙ (r1 ∙ r2)

  accept_again :
      (a : Around) (sender_id : Text) (h : HintPacket) (s : HintRouter)
      → SeenCache.has (id_of sha256 h) s.received ≡ true
      → accept_hint sha256 open_hint a sender_id h s ≡ (echo (id_of sha256 h) ∷ [], s)
  unfolding accept_hint
  accept_again a sender_id h s seen = rw (accept_hint, seen) refl

  -- After an accepted hint that is new, its id is in the cache of what was received, with the time.
  accept_marks :
      (a : Around) (sender_id : Text) (h : HintPacket) (s : HintRouter)
      → SeenCache.has (id_of sha256 h) s.received ≡ false
      → (accept_hint sha256 open_hint a sender_id h s).1.received
        ≡ SeenCache.add (id_of sha256 h) a.now s.received
  unfolding accept_hint
  accept_marks a sender_id h s new =
      let first : HintRouter = record s {
        received = SeenCache.add (id_of sha256 h) a.now s.received;
      } in
      rw (accept_hint, new) (take_in-received a sender_id h first)

  remembered :
      (a : Around) (sender_id : Text) (h : HintPacket) (s : HintRouter) (times : List ℕ)
      → SeenCache.has (id_of sha256 h) s.received ≡ false
      → truthy (id_of sha256 h) ≡ true
      → IsValid s.received
      → All (λ later. later ≤ a.now + 900_000) times
      → SeenCache.has
          (id_of sha256 h)
          (cleanups times (accept_hint sha256 open_hint a sender_id h s).1.received)
        ≡ true
  unfolding SeenCache.has
  remembered a sender_id h s times new named v early =
      let id = id_of sha256 h in
      let c = SeenCache.add id a.now s.received in
      let there =
        get-cleanups id a.now times c early (add-IsValid id a.now s.received named v).distinct
          (get-add id a.now s.received v new) in
      ap (λ r. JsMap.has id (cleanups times r)) (accept_marks a sender_id h s new)
      ∙ ground (arith, has-get id (cleanups times c), there)

  -- The caches' timers have fired at these times.
  abbrev pub cleaned : List ℕ → List ℕ → List ℕ → HintRouter → HintRouter
  cleaned fs rs ds s = record s {
    flooded = cleanups fs s.flooded;
    received = cleanups rs s.received;
    delivered = cleanups ds s.delivered;
  }

  -- A hint that is accepted and new, and then arrives again, with whatever time to live and nonce of
  -- the work and from whatever neighbour, has no effect but to confirm the echo: nothing is counted,
  -- opened or sent, and the state stays as it is. In between, the timers of the caches may fire,
  -- that of the received ids not later than 15 minutes after the first arrival.
  pub handle_hint_twice :
      (a b : Around) (sender other : Text) (msg again : RawHint) (h g : HintPacket) (s : HintRouter)
      (fs rs ds : List ℕ)
      → Accepted msg h
      → Accepted again g
      → id_of sha256 g ≡ id_of sha256 h
      → truthy (id_of sha256 h) ≡ true
      → IsValid s.received
      → SeenCache.has (id_of sha256 h) s.received ≡ false
      → All (λ later. later ≤ a.now + 900_000) rs
      → (let s1 = cleaned fs rs ds (handle_hint sha256 open_hint a sender msg s).1 in
          handle_hint sha256 open_hint b other again s1 ≡ (echo (id_of sha256 h) ∷ [], s1))
  handle_hint_twice a b sender other msg again h g s fs rs ds ok ok2 same named v new early =
      let s1 = cleaned fs rs ds (handle_hint sha256 open_hint a sender msg s).1 in
      let marked : SeenCache.has (id_of sha256 h) s1.received ≡ true =
        ap (λ r. SeenCache.has (id_of sha256 h) (cleanups rs r.1.received))
          (handle_hint-Accepted a sender msg h s ok)
        ∙ remembered a sender h s rs new named v early in
      handle_hint-Accepted b other again g s1 ok2
      ∙ (accept_again b other g s1 (ap (λ i. SeenCache.has i s1.received) same ∙ marked)
          ∙ ap (λ i. (echo i ∷ [], s1)) same)

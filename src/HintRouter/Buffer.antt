-- ===== src/HintRouter/Buffer.antt =====
-- The buffer of hints that may be opened later: how many it holds, and that it holds each once.
use aether_web_lite.Prelude.{
  ℕ, ◌+◌, ◌-◌, ◌≤◌, ◌≡◌, refl, sym, subst, ◌∙◌, false, ◌||◌, Option, List, [], ◌∷◌, ◌++◌, arith,
  ltb, ◌==◌, eq_iff, includes, length, length-append, take, drop, Bool-cases, Option-cases, inl,
  inr,
}
use aether_web_lite.Prelude.Text.{Text, text_eq}
use aether_web_lite.Bytes.{Bytes}
use aether_web_lite.JsMap
use aether_web_lite.JsMap.{JsMap}
use aether_web_lite.JsMap.Laws.{has-set, has-delete}
use aether_web_lite.HintPacket.{
  HintPacket, parse_hint_packet, decode_hint, verify_hint_pow, hint_pow_difficulty,
}
use aether_web_lite.SeenCache
use aether_web_lite.HintRouter.{
  recent_hint_buffer, HintRouter, id_of, remember, forget_ids, Around, Event, hint, exit_hint,
  own_hint, refloods, gains_key, loses_key, ingests, cleans_flooded, cleans_received,
  cleans_delivered, try_open, flood, retry, add_key, take_in, accept_hint, handle_hint,
  handle_exit_hint, originate_hint, ingest_local, step,
}

abbrev pub Once : List Text → Type 0
Once [] = Unit
Once (i ∷ is) = (includes i is ≡ false) × Once is

module _ (sha256 : Bytes → Bytes) where
  abbrev pub ids_of : List HintPacket → List Text
  ids_of [] = []
  ids_of (h ∷ hints) = id_of sha256 h ∷ ids_of hints

  -- At most 2000 hints, each id once, and the set of ids is that of the hints.
  pub record IsBuffer (hints : List HintPacket) (ids : JsMap Text Unit) : Type 0 where
    pub few : length hints ≤ recent_hint_buffer
    pub once : Once (ids_of hints)
    pub same : (j : Text) → JsMap.has j ids ≡ includes j (ids_of hints)

  includes-ids_of :
      (j : Text) (hints : List HintPacket) (h : HintPacket)
      → includes j (ids_of (hints ++ h ∷ [])) ≡ includes j (ids_of hints) || (id_of sha256 h == j)
  includes-ids_of j [] h = ground arith
  includes-ids_of j (g ∷ hints) h = ground (arith, includes-ids_of j hints h)

  Once-ids_of :
      (hints : List HintPacket) (h : HintPacket)
      → Once (ids_of hints)
      → includes (id_of sha256 h) (ids_of hints) ≡ false
      → Once (ids_of (hints ++ h ∷ []))
  Once-ids_of [] h o fresh = (refl, tt)
  Once-ids_of (g ∷ hints) h o fresh = ground (
    arith,
    Once-ids_of hints h o.1,
    includes-ids_of (id_of sha256 g) hints h,
    eq_iff (id_of sha256 g) (id_of sha256 h),
    eq_iff (id_of sha256 h) (id_of sha256 g),
  )

  -- With room for one more.
  appended :
      (hints : List HintPacket) (ids : JsMap Text Unit) (h : HintPacket)
      → IsBuffer hints ids
      → includes (id_of sha256 h) (ids_of hints) ≡ false
      → length hints + 1 ≤ recent_hint_buffer
      → IsBuffer (hints ++ h ∷ []) (JsMap.set (id_of sha256 h) tt ids)
  appended hints ids h b fresh room = record {
    few = omega (arith, length-append hints (h ∷ []));
    once = Once-ids_of hints h b.once fresh;
    same =
        λ j. ground (arith, has-set (id_of sha256 h) j tt ids, includes-ids_of j hints h, b.same j);
  }

  -- The oldest hint makes room.
  replaced :
      (g : HintPacket) (hints : List HintPacket) (ids : JsMap Text Unit) (h : HintPacket)
      → IsBuffer (g ∷ hints) ids
      → includes (id_of sha256 h) (ids_of (g ∷ hints)) ≡ false
      → IsBuffer
          (hints ++ h ∷ [])
          (JsMap.delete (id_of sha256 g) (JsMap.set (id_of sha256 h) tt ids))
  replaced g hints ids h b fresh =
      let gi = id_of sha256 g in
      let hi = id_of sha256 h in
      record {
        few = omega (arith, length-append hints (h ∷ []), b.few);
        once = Once-ids_of hints h b.once.1 (ground arith);
        same = λ j. ground (
          arith,
          has-delete gi j (JsMap.set hi tt ids),
          has-set hi j tt ids,
          includes-ids_of j hints h,
          b.same j,
          b.once.0,
          eq_iff gi j,
          eq_iff hi j,
          eq_iff gi hi,
        );
      }

  abbrev pub Kept : HintRouter → Type 0
  Kept s = IsBuffer s.recent_hints s.recent_ids

  spliced :
      (hints : List HintPacket) (ids : JsMap Text Unit) (h : HintPacket) (excess : ℕ)
      → IsBuffer hints ids
      → includes (id_of sha256 h) (ids_of hints) ≡ false
      → excess ≡ 1
      → 1 ≤ length hints
      → IsBuffer
          (drop excess (hints ++ h ∷ []))
          (forget_ids sha256 (take excess (hints ++ h ∷ [])) (JsMap.set (id_of sha256 h) tt ids))
  spliced [] ids h excess b fresh one some_there = absurd (omega arith)
  spliced (g ∷ hints) ids h excess b fresh one some_there = rw one (replaced g hints ids h b fresh)

  -- Remembering a hint keeps the buffer at most 2000 long, without repetition, and the set of ids
  -- equal to the ids of the buffer.
  pub remember-Kept : (h : HintPacket) (s : HintRouter) → Kept s → Kept (remember sha256 h s)
  unfolding remember
  remember-Kept h s b =
      let hints = s.recent_hints ++ h ∷ [] in
      let longer = length-append s.recent_hints (h ∷ []) in
      elim (Bool-cases (JsMap.has (id_of sha256 h) s.recent_ids)) [
        | inl seen ↦ rw (remember, seen) b
        | inr fresh ↦
            let new = sym (b.same (id_of sha256 h)) ∙ fresh in
            elim (Bool-cases (ltb recent_hint_buffer (length hints))) [
              | inl over ↦
                  rw (remember, fresh, over)
                    (spliced s.recent_hints s.recent_ids h (length hints - recent_hint_buffer) b new
                      (ground (arith, longer, b.few)) (ground (arith, longer)))
              | inr room ↦
                  rw (remember, fresh, room)
                    (appended s.recent_hints s.recent_ids h b new (ground (arith, longer)))
            ]
      ]

-- Two states with one buffer.
abbrev SameBuffer : HintRouter → HintRouter → Type 0
SameBuffer s t = (s.recent_hints ≡ t.recent_hints) × (s.recent_ids ≡ t.recent_ids)

module _ (sha256 : Bytes → Bytes) {Payload : Type 0}
    (open_hint : Bytes → HintPacket → Option Payload) where
  keep_same : (s t : HintRouter) → SameBuffer s t → Kept sha256 t → Kept sha256 s
  keep_same s t same k =
      subst (λ hints. IsBuffer sha256 hints s.recent_ids) (sym same.0)
        (subst (λ ids. IsBuffer sha256 t.recent_hints ids) (sym same.1) k)

  try_open-buffer :
      (a : Around) (h : HintPacket) (id : Text) (s : HintRouter)
      → SameBuffer (try_open sha256 open_hint a h id s).1 s
  unfolding try_open
  try_open-buffer a h id s = ground arith

  flood-buffer :
      (a : Around) (h : HintPacket) (exclude : Text) (s : HintRouter)
      → SameBuffer (flood sha256 open_hint a h exclude s).1 s
  unfolding flood
  flood-buffer a h exclude s = ground arith

  retry-buffer :
      (a : Around) (hints : List HintPacket) (s : HintRouter)
      → SameBuffer (retry sha256 open_hint a hints s).1 s
  unfolding retry
  retry-buffer a [] s = (refl, refl)
  retry-buffer a (h ∷ hints) s =
      let first = try_open-buffer a h (id_of sha256 h) s in
      let rest = retry-buffer a hints (try_open sha256 open_hint a h (id_of sha256 h) s).1 in
      (rest.0 ∙ first.0, rest.1 ∙ first.1)

  take_in-Kept :
      (a : Around) (exclude : Text) (h : HintPacket) (s : HintRouter)
      → Kept sha256 s
      → Kept sha256 (take_in sha256 open_hint a exclude h s).1
  unfolding take_in
  take_in-Kept a exclude h s k =
      let id = id_of sha256 h in
      let s1 = remember sha256 h s in
      let s2 = (try_open sha256 open_hint a h id s1).1 in
      keep_same (flood sha256 open_hint a h exclude s2).1 s2 (flood-buffer a h exclude s2)
        (keep_same s2 s1 (try_open-buffer a h id s1) (remember-Kept sha256 h s k))

  add_key-buffer :
      (a : Around) (key_id : Text) (key : Bytes) (s : HintRouter)
      → SameBuffer
          (add_key sha256 open_hint a key_id key s).1
          (record s { keys = JsMap.set key_id key s.keys })
  unfolding add_key
  add_key-buffer a key_id key s =
      retry-buffer a s.recent_hints (record s { keys = JsMap.set key_id key s.keys })

  -- Every event keeps the buffer of hints at most 2000 long and without repetition, with the set
  -- of ids equal to the ids in the buffer.
  pub step-Kept :
      (e : Event) (s : HintRouter) → Kept sha256 s → Kept sha256 (step sha256 open_hint e s).1
  unfolding step handle_hint accept_hint handle_exit_hint originate_hint ingest_local
  step-Kept (hint a sender_id msg) s k = elim (Option-cases (parse_hint_packet msg)) [
    | inl none_is ↦ rw (handle_hint, none_is) k
    | inr (h, e) ↦
        let first : HintRouter = record s {
          received = SeenCache.add (id_of sha256 h) a.now s.received;
        } in
        elim (Bool-cases (verify_hint_pow sha256 hint_pow_difficulty h)) [
          | inr f ↦ rw (handle_hint, e, f) k
          | inl t ↦ elim (Bool-cases (SeenCache.has (id_of sha256 h) s.received)) [
            | inl old ↦ rw (handle_hint, e, t, accept_hint, old) k
            | inr new ↦
                rw (handle_hint, e, t, accept_hint, new) (take_in-Kept a sender_id h first k)
          ]
        ]
  ]
  step-Kept (exit_hint a bytes) s k = elim (Option-cases (decode_hint bytes)) [
    | inl none_is ↦ rw (handle_exit_hint, none_is) k
    | inr (h, e) ↦ elim (Bool-cases (verify_hint_pow sha256 hint_pow_difficulty h)) [
      | inl t ↦ rw (handle_exit_hint, e, t) (take_in-Kept a a.my_peer_id h s k)
      | inr f ↦ rw (handle_exit_hint, e, f) k
    ]
  ]
  step-Kept (own_hint a h id) s k = k
  step-Kept (refloods a h) s k =
      keep_same (flood sha256 open_hint a h a.my_peer_id s).1 s (flood-buffer a h a.my_peer_id s) k
  step-Kept (gains_key a key_id key) s k =
      let with_key : HintRouter = record s { keys = JsMap.set key_id key s.keys } in
      keep_same (add_key sha256 open_hint a key_id key s).1 with_key (add_key-buffer a key_id key s)
        k
  step-Kept (loses_key key_id) s k = k
  step-Kept (cleans_flooded now) s k = k
  step-Kept (cleans_received now) s k = k
  step-Kept (cleans_delivered now) s k = k
  step-Kept (ingests a h) s k =
      let s1 = remember sha256 h s in
      elim (Bool-cases (verify_hint_pow sha256 hint_pow_difficulty h)) [
        | inl t ↦
            rw (ingest_local, t)
              (keep_same (try_open sha256 open_hint a h (id_of sha256 h) s1).1 s1
                (try_open-buffer a h (id_of sha256 h) s1) (remember-Kept sha256 h s k))
        | inr f ↦ rw (ingest_local, f) k
      ]

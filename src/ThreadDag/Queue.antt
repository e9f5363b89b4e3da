-- ===== src/ThreadDag/Queue.antt =====
-- The invariant of the queue: it holds, once each, the nodes whose parents were all taken before.
use aether_web_lite.Prelude.{
  ℕ, ◌+◌, ◌<◌, ◌≡◌, refl, Bool, true, false, not, ◌&&◌, some, List, [], ◌∷◌, ◌++◌, arith, nat_beq,
  if◌then◌else◌, ◌==◌, eq_iff, eq_self, length, count, count-append, count-sort, keep_if, includes,
}
use aether_web_lite.Prelude.Text.{Text, text_eq}
use aether_web_lite.JsMap
use aether_web_lite.JsMap.{JsMap}
use aether_web_lite.JsMap.Laws.{get-set}
use aether_web_lite.ThreadDag.{
  DagPost, Degree, minus_one, degree_of, is_zero, tie_breaker_value, sorted, release,
}
use aether_web_lite.ThreadDag.Degrees.{parents_of}

-- How many of the parents were not taken yet.
abbrev pub left_of : List Text → List Text → ℕ
left_of done ps = length (keep_if (λ p. not (includes p done)) ps)

pub left_of-cons :
    (c : Text) (done ps : List Text)
    → includes c done ≡ false
    → left_of done ps ≡ left_of (c ∷ done) ps + count c ps
left_of-cons c done [] h = refl
left_of-cons c done (p ∷ ps) h = ground (arith, left_of-cons c done ps h, eq_iff c p, eq_iff p c)

pub left_of_mono :
    (c : Text) (done ps : List Text) → left_of done ps ≡ 0 → left_of (c ∷ done) ps ≡ 0
left_of_mono c done [] h = refl
left_of_mono c done (p ∷ ps) h = ground (arith, left_of_mono c done ps)

-- Is waiting, or ready: a node that was not taken and of whose parents none is left, where `more`
-- counts those whose taking is still to be told to it.
abbrev pub ready : JsMap Text DagPost → List Text → Text → ℕ → Bool
ready nodes done v more =
    JsMap.has v nodes
    && (not (includes v done) && nat_beq (left_of done (parents_of nodes v) + more) 0)

pub record IsQueue (nodes : JsMap Text DagPost) (done rest queue : List Text)
    (degrees : JsMap Text Degree) : Type 0 where
  pub degree :
      (v : Text)
      → JsMap.has v nodes ≡ true
      → degree_of v degrees ≡ some (left_of done (parents_of nodes v) + count v rest)
  pub queued : (v : Text) → count v queue ≡ (if ready nodes done v (count v rest) then 1 else 0)
  pub children : (v : Text) → 0 < count v rest → JsMap.has v nodes ≡ true
  pub settled :
      (v : Text)
      → includes v done ≡ true
      → (left_of done (parents_of nodes v) ≡ 0) × (count v rest ≡ 0)

degree_of-set :
    (v c : Text) (d : Degree) (degrees : JsMap Text Degree)
    → degree_of v (JsMap.set c d degrees) ≡ (if c == v then d else degree_of v degrees)
degree_of-set v c d degrees = ground (arith, get-set c v d degrees)

module _ (locale_le : Text → Text → Bool) (nodes : JsMap Text DagPost) where
  pub count-sorted :
      (v : Text) (ids : List Text) → count v (sorted locale_le nodes ids) ≡ count v ids
  count-sorted v ids =
      count-sort (λ a b. locale_le (tie_breaker_value nodes a) (tie_breaker_value nodes b)) v ids

  -- What one child's turn makes of the queue.
  abbrev next_queue : Text → Degree → List Text → List Text
  next_queue c d queue = if is_zero d then sorted locale_le nodes (queue ++ c ∷ []) else queue

  count-next_queue :
      (v c : Text) (d : Degree) (queue : List Text)
      → count v (next_queue c d queue) ≡ count v queue + (if is_zero d && (c == v) then 1 else 0)
  count-next_queue v c d queue =
      ground (arith, count-sorted v (queue ++ c ∷ []), count-append v queue (c ∷ []))

  told :
      (c : Text) (done rest queue : List Text) (degrees : JsMap Text Degree)
      → IsQueue nodes done (c ∷ rest) queue degrees
      → minus_one (degree_of c degrees) ≡ some (left_of done (parents_of nodes c) + count c rest)
  told c done rest queue degrees q =
      let here : 0 < count c (c ∷ rest) = ground (arith, eq_self c) in
      ground (arith, q.degree c (q.children c here), eq_self c)

  turn :
      (c : Text) (done rest queue : List Text) (degrees : JsMap Text Degree)
      → IsQueue nodes done (c ∷ rest) queue degrees
      → IsQueue nodes done rest
          (next_queue c (minus_one (degree_of c degrees)) queue)
          (JsMap.set c (minus_one (degree_of c degrees)) degrees)
  turn c done rest queue degrees q =
      let d = minus_one (degree_of c degrees) in
      let here : 0 < count c (c ∷ rest) = ground (arith, eq_self c) in
      let t = told c done rest queue degrees q in
      record {
        degree = λ v h. ground (arith, degree_of-set v c d degrees, t, q.degree v h, eq_iff c v);
        queued = λ v. ground (
          arith,
          count-next_queue v c d queue,
          t,
          q.queued v,
          q.children c here,
          q.settled c,
          eq_iff c v,
          eq_self c,
        );
        children = λ v h. q.children v (omega arith);
        settled = λ v h. ground (arith, q.settled v h);
      }

  -- After all turns.
  pub release-IsQueue :
      (done children queue : List Text) (degrees : JsMap Text Degree)
      → IsQueue nodes done children queue degrees
      → IsQueue nodes done []
          (release locale_le nodes children queue degrees).0
          (release locale_le nodes children queue degrees).1
  unfolding release
  release-IsQueue done [] queue degrees q = q
  release-IsQueue done (c ∷ children) queue degrees q =
      let d = minus_one (degree_of c degrees) in
      release-IsQueue done children (next_queue c d queue) (JsMap.set c d degrees)
        (turn c done children queue degrees q)

-- ===== src/ThreadDag/Start.antt =====
-- The queue that getSortedPosts starts with.
use aether_web_lite.Prelude.{
  ◌≡◌, refl, ap, ◌∙◌, Bool, true, ◌&&◌, some, List, [], ◌∷◌, arith, if◌then◌else◌, eq_iff, length,
  count, keep_if, map,
}
use aether_web_lite.Prelude.Text.{Text, text_eq}
use aether_web_lite.JsMap
use aether_web_lite.JsMap.{JsMap}
use aether_web_lite.ThreadDag.{
  DagPost, ThreadDag, Degree, degree_of, is_zero, count_parents, sorted,
}
use aether_web_lite.ThreadDag.Degrees.{Keyed, parents_of, get-count_parents}
use aether_web_lite.ThreadDag.Queue.{left_of, IsQueue, count-sorted}

module _ (locale_le : Text → Text → Bool) (s : ThreadDag) (keyed : Keyed s.nodes)
    (distinct : JsMap.Distinct s.nodes) where
  abbrev start_degrees : JsMap Text Degree
  start_degrees = count_parents s.nodes s.nodes []

  abbrev pub ids : JsMap Text DagPost → List Text
  ids nodes = map (λ n. n.packet_id) (JsMap.values nodes)

  left_of-none : (ps : List Text) → left_of [] ps ≡ length ps
  left_of-none [] = refl
  left_of-none (p ∷ ps) = omega (arith, left_of-none ps)

  start_degree :
      (v : Text)
      → JsMap.has v s.nodes ≡ true
      → degree_of v start_degrees ≡ some (length (parents_of s.nodes v))
  start_degree v h = ground (arith, get-count_parents s.nodes s.nodes [] v keyed distinct)

  -- The nodes that pass a test, once each.
  count-ids :
      (test : Text → Bool) (v : Text) (nodes : JsMap Text DagPost)
      → Keyed nodes
      → JsMap.Distinct nodes
      → count v (keep_if test (ids nodes)) ≡ (if JsMap.has v nodes && test v then 1 else 0)
  unfolding JsMap.has
  count-ids test v [] k d = refl
  count-ids test v ((id, post) ∷ nodes) k d =
      ground (arith, count-ids test v nodes k.1 d.1, eq_iff id v, k.0)

  pub start-IsQueue :
      IsQueue s.nodes [] []
        (sorted locale_le s.nodes
          (keep_if (λ id. is_zero (degree_of id start_degrees)) (ids s.nodes)))
        start_degrees
  start-IsQueue =
      let test : Text → Bool = λ id. is_zero (degree_of id start_degrees) in
      record {
        degree =
            λ v h. start_degree v h ∙ ap some (omega (arith, left_of-none (parents_of s.nodes v)));
        queued = λ v. ground (
          arith,
          count-sorted locale_le s.nodes v (keep_if test (ids s.nodes)),
          count-ids test v s.nodes keyed distinct,
          start_degree v,
          left_of-none (parents_of s.nodes v),
        );
        children = λ v h. absurd (omega arith);
        settled = λ v h. cc;
      }

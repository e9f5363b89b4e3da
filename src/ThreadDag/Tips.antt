-- ===== src/ThreadDag/Tips.antt =====
-- The tips of a thread: the posts that a new one answers.
use aether_web_lite.Prelude.{
  ◌<◌, ◌≤◌, ◌≡◌, Bool, true, false, not, [], ◌∷◌, arith, eq_iff, length, length-take, take, keep_if,
  includes, sort, count, count-take-le, count-sort, count-includes,
}
use aether_web_lite.Prelude.Text.{Text, text_eq}
use aether_web_lite.JsMap
use aether_web_lite.JsMap.{JsMap}
use aether_web_lite.ThreadDag.{DagPost, ThreadDag, all_parents, heavier_id, get_tips}

abbrev childless : ThreadDag → Text → Bool
childless s id = not (includes id (all_parents s.nodes))

count-childless :
    (s : ThreadDag) (x : Text) (nodes : JsMap Text DagPost)
    → 0 < count x (keep_if (childless s) (JsMap.keys nodes))
    → (JsMap.has x nodes ≡ true) × (childless s x ≡ true)
unfolding JsMap.has
count-childless s x [] h = absurd (omega arith)
count-childless s x ((id, post) ∷ nodes) h = ground (arith, count-childless s x nodes, eq_iff id x)

-- There are two tips at most, and each is a post of the thread that no post of the thread names as
-- its parent.
pub get_tips_childless :
    (s : ThreadDag) (x : Text)
    → includes x (get_tips s) ≡ true
    → (length (get_tips s) ≤ 2)
      × (JsMap.has x s.nodes ≡ true)
      × (includes x (all_parents s.nodes) ≡ false)
unfolding get_tips
get_tips_childless s x h =
    let tips = keep_if (childless s) (JsMap.keys s.nodes) in
    let sorted = sort (heavier_id s.nodes) tips in
    let found = count-includes x (take 2 sorted) h in
    let (there, free) =
      count-childless s x s.nodes
        (omega (arith, found, count-take-le x 2 sorted, count-sort (heavier_id s.nodes) x tips)) in
    (omega (arith, length-take 2 sorted), there, ground arith)

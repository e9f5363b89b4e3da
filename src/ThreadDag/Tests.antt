-- ===== src/ThreadDag/Tests.antt =====
-- A thread of four posts that were added in another order.
use aether_web_lite.Prelude.{
  ℕ, ◌≡◌, refl, true, false, Bool, none, some, List, [], ◌∷◌, arith, includes, map, ◌==◌,
  if◌then◌else◌, ltb, number_key,
}
use aether_web_lite.Prelude.Text.{Text, text, text_eq}
use aether_web_lite.JsMap
use aether_web_lite.ThreadDag.{
  DagPost, ThreadDag, add_post, get_sorted_posts, get_tips, process, release, count_parents,
  list_children, add_child, tie_breaker_value,
}
use aether_web_lite.ThreadDag.Order.{ParentsFirst}
use aether_web_lite.ThreadDag.Complete.{
  add_all, new_thread, Ranked, get_sorted_posts_ordered, get_sorted_posts_complete,
}

abbrev post : Text → List Text → ℕ → DagPost
post id parents time = record {
  packet_id = id;
  content = [];
  post_number = 0;
  created_at = time;
  board_id = text "b";
  thread_id = text "t";
  parents = parents;
  cumulative_pow = time;
  thread_root = text "1";
  trip_pubkey = none;
  session_pubkey = none;
}

abbrev posts : List DagPost
posts =
    post (text "4") (text "2" ∷ text "3" ∷ []) 40
    ∷ post (text "2") (text "1" ∷ []) 30
    ∷ post (text "3") (text "1" ∷ text "9" ∷ []) 20
    ∷ post (text "1") [] 10
    ∷ []

-- The order of the character codes.
abbrev code_le : Text → Text → Bool
code_le [] b = true
code_le (x ∷ a) [] = false
code_le (x ∷ a) (y ∷ b) = let rest = code_le a b in if x == y then rest else ltb x y

abbrev thread : ThreadDag
thread = add_all posts (new_thread (text "t"))

shown :
    get_sorted_posts code_le thread
    ≡ some (
        post (text "1") [] 10
        ∷ post (text "3") (text "1" ∷ text "9" ∷ []) 20
        ∷ post (text "2") (text "1" ∷ []) 30
        ∷ post (text "4") (text "2" ∷ text "3" ∷ []) 40
        ∷ [])
unfolding get_sorted_posts add_all add_post process release count_parents list_children add_child
    tie_breaker_value JsMap.get JsMap.set JsMap.has
shown = refl

tips : get_tips thread ≡ text "4" ∷ []
unfolding get_tips add_all add_post JsMap.set JsMap.has JsMap.get
tips = refl

get_sorted_posts_ordered_example :
    (out : List DagPost) × (get_sorted_posts code_le thread ≡ some out)
    × ParentsFirst thread.nodes [] out
get_sorted_posts_ordered_example = get_sorted_posts_ordered code_le posts (text "t")

-- Two posts, the second an answer to the first.
abbrev pair : List DagPost
pair = post (text "2") (text "1" ∷ []) 30 ∷ post (text "1") [] 10 ∷ []

abbrev rank : Text → ℕ
rank id = if id == text "1" then 0 else 1

pair-Ranked : Ranked (add_all pair (new_thread (text "t"))) rank
unfolding add_all add_post JsMap.set JsMap.has JsMap.get
pair-Ranked = ((λ h. omega arith, tt), (tt, tt))

get_sorted_posts_complete_example :
    (out : List DagPost) × (get_sorted_posts code_le (add_all pair (new_thread (text "t")))
      ≡ some out)
    × (includes (text "2") (map (λ n. n.packet_id) out) ≡ true)
unfolding add_all add_post JsMap.set JsMap.has
get_sorted_posts_complete_example =
    get_sorted_posts_complete code_le pair (text "t") (text "2") rank pair-Ranked refl

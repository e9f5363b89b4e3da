-- ===== src/ThreadDag.antt =====
-- packages/core/src/logic/ThreadDAGManager.ts: the posts of a thread, which name the posts they
-- answer, and the order they are shown in. Numbers that come with a post are natural numbers.
-- localeCompare depends on the user's language and is a parameter: `locale_le a b` is
-- `a.localeCompare(b) <= 0`.
pub mod Degrees
pub mod Queue
pub mod Start
pub mod Order
pub mod Complete
pub mod Tips
pub mod Tests
use aether_web_lite.Prelude.{
  ℕ, zero, suc, ◌+◌, ◌-◌, ◌/◌, ◌%◌, Bool, true, false, not, ◌||◌, Option, none, some, List, [], ◌∷◌,
  ◌++◌, map, ltb, leb, nat_beq, if◌then◌else◌, ◌==◌, includes, length, take, keep_if, sort, is_some,
}
use aether_web_lite.Prelude.Text.{Text, text_eq}
use aether_web_lite.Bytes.{Bytes}
use aether_web_lite.JsMap
use aether_web_lite.JsMap.{JsMap}

pub record DagPost : Type 0 where
  pub packet_id : Text
  pub content : Text
  pub post_number : ℕ
  pub created_at : ℕ
  pub board_id : Text
  pub thread_id : Text
  pub parents : List Text
  pub cumulative_pow : ℕ
  pub thread_root : Text
  pub trip_pubkey : Option Bytes
  pub session_pubkey : Option Bytes

pub record ThreadDag : Type 0 where
  pub nodes : JsMap Text DagPost
  pub thread_id : Text

unfoldable pub add_post : DagPost → ThreadDag → Bool × ThreadDag
add_post post s =
    if JsMap.has post.packet_id s.nodes
    then (false, s)
    else if not (post.thread_id == s.thread_id)
    then (false, s)
    else (true, record s { nodes = JsMap.set post.packet_id post s.nodes })

-- `node.parents.filter(p => this.nodes.has(p))`
abbrev pub valid_parents : JsMap Text DagPost → DagPost → List Text
valid_parents nodes post = keep_if (λ p. JsMap.has p nodes) post.parents

-- A number of parents that are left, or `none` for one below 0: no test tells those apart.
abbrev pub Degree : Type 0
Degree = Option ℕ

abbrev pub minus_one : Degree → Degree
minus_one none = none
minus_one (some zero) = none
minus_one (some (suc n)) = some n

-- `map.get(id) || 0`
abbrev pub degree_of : Text → JsMap Text Degree → Degree
degree_of id degrees = elim (JsMap.get id degrees) [ none ↦ some 0 | some d ↦ d ]

abbrev pub is_zero : Degree → Bool
is_zero none = false
is_zero (some n) = nat_beq n 0

-- The loop that counts the parents.
unfoldable pub count_parents :
    JsMap Text DagPost → JsMap Text DagPost → JsMap Text Degree → JsMap Text Degree
count_parents nodes [] degrees = degrees
count_parents nodes ((id, post) ∷ rest) degrees =
    count_parents nodes rest
      (JsMap.set post.packet_id (some (length (valid_parents nodes post))) degrees)

-- `childrenMap.get(p)`, with no children where there is no entry.
abbrev pub children_of : Text → JsMap Text (List Text) → List Text
children_of p children = elim (JsMap.get p children) [ none ↦ [] | some ids ↦ ids ]

-- A child is added to each of its parents, as often as it names it.
unfoldable pub add_child : Text → List Text → JsMap Text (List Text) → JsMap Text (List Text)
add_child id [] children = children
add_child id (p ∷ parents) children =
    add_child id parents (JsMap.set p (children_of p children ++ id ∷ []) children)

unfoldable pub list_children :
    JsMap Text DagPost → JsMap Text DagPost → JsMap Text (List Text) → JsMap Text (List Text)
list_children nodes [] children = children
list_children nodes ((id, post) ∷ rest) children =
    list_children nodes rest (add_child post.packet_id (valid_parents nodes post) children)

-- The decimal digits of a number, with the rounds that are left.
abbrev pub digits : ℕ → ℕ → Text → Text
digits zero n text = text
digits (suc left) n text =
    let more = digits left (n / 10) ((n % 10 + b'0') ∷ text) in
    if ltb n 10 then (n % 10 + b'0') ∷ text else more

abbrev pub zeros_before : ℕ → Text → Text
zeros_before zero text = text
zeros_before (suc n) text = b'0' ∷ zeros_before n text

-- `text.padStart(width, '0')`
abbrev pub pad_start : ℕ → Text → Text
pad_start width text = zeros_before (width - length text) text

-- `${n.created_at.toString().padStart(15, '0')}_${n.packet_id}`; every id that is sorted is one of
-- the nodes.
unfoldable pub tie_breaker_value : JsMap Text DagPost → Text → Text
tie_breaker_value nodes id = elim (JsMap.get id nodes) [
  | none ↦ []
  | some n ↦ pad_start 15 (digits (suc n.created_at) n.created_at []) ++ b'_' ∷ n.packet_id
]

module _ (locale_le : Text → Text → Bool) where
  abbrev pub sorted : JsMap Text DagPost → List Text → List Text
  sorted nodes ids =
      sort (λ a b. locale_le (tie_breaker_value nodes a) (tie_breaker_value nodes b)) ids

  -- The loop over the children of the node that was taken.
  unfoldable pub release :
      JsMap Text DagPost → List Text → List Text → JsMap Text Degree → List Text × JsMap Text Degree
  release nodes [] queue degrees = (queue, degrees)
  release nodes (child ∷ children) queue degrees =
      let degree = minus_one (degree_of child degrees) in
      let lowered = JsMap.set child degree degrees in
      release nodes children (if is_zero degree then sorted nodes (queue ++ child ∷ []) else queue)
        lowered

  -- The loop while the queue is not empty, with the rounds that are left; `none` where they do
  -- not suffice. An id of the queue that were no node would be skipped.
  unfoldable pub process :
      JsMap Text DagPost
      → JsMap Text (List Text)
      → ℕ
      → List Text
      → JsMap Text Degree
      → Option (List DagPost)
  process nodes children zero queue degrees = none
  process nodes children (suc left) [] degrees = some []
  process nodes children (suc left) (id ∷ queue) degrees =
      let (next, lowered) = release nodes (children_of id children) queue degrees in
      let rest = process nodes children left next lowered in
      elim (JsMap.get id nodes) [
        | none ↦ rest
        | some post ↦ elim rest [ none ↦ none | some posts ↦ some (post ∷ posts) ]
      ]

  -- One round for each node, and one to find the queue empty.
  unfoldable pub get_sorted_posts : ThreadDag → Option (List DagPost)
  get_sorted_posts s =
      let degrees = count_parents s.nodes s.nodes [] in
      let children = list_children s.nodes s.nodes [] in
      let first =
        keep_if (λ id. is_zero (degree_of id degrees))
          (map (λ n. n.packet_id) (JsMap.values s.nodes)) in
      process s.nodes children (suc (JsMap.size s.nodes)) (sorted s.nodes first) degrees

-- The loops over the nodes and their parents.
abbrev pub all_parents : JsMap Text DagPost → List Text
all_parents [] = []
all_parents ((id, node) ∷ nodes) = node.parents ++ all_parents nodes

-- `nodeB.cumulative_pow - nodeA.cumulative_pow || nodeB.created_at - nodeA.created_at`, at most 0.
abbrev pub heavier : DagPost → DagPost → Bool
heavier a b =
    if nat_beq a.cumulative_pow b.cumulative_pow
    then leb b.created_at a.created_at
    else ltb b.cumulative_pow a.cumulative_pow

-- Every id that is sorted is one of the nodes.
abbrev pub heavier_id : JsMap Text DagPost → Text → Text → Bool
heavier_id nodes a b = elim (JsMap.get a nodes) [
  | none ↦ true
  | some x ↦ elim (JsMap.get b nodes) [ none ↦ true | some y ↦ heavier x y ]
]

unfoldable pub get_tips : ThreadDag → List Text
get_tips s = take 2 (
    sort (heavier_id s.nodes)
      (keep_if (λ id. not (includes id (all_parents s.nodes))) (JsMap.keys s.nodes)))

abbrev pub max_pow : JsMap Text DagPost → ℕ → ℕ
max_pow [] most = most
max_pow ((id, node) ∷ nodes) most =
    max_pow nodes (if ltb most node.cumulative_pow then node.cumulative_pow else most)

abbrev pub get_max_cumulative_pow : ThreadDag → ℕ
get_max_cumulative_pow s = max_pow s.nodes 0

-- ===== src/ThreadDag/Degrees.antt =====
-- What the first loops of getSortedPosts compute: each node's number of parents, and its children.
use aether_web_lite.Prelude.{
  ◌+◌, ◌≡◌, refl, Option, none, some, List, [], ◌∷◌, ◌++◌, arith, if◌then◌else◌, ◌==◌, eq_iff,
  length, count, count-append, All,
}
use aether_web_lite.Prelude.Text.{Text, text_eq}
use aether_web_lite.JsMap
use aether_web_lite.JsMap.{JsMap}
use aether_web_lite.JsMap.Laws.{get-set, has-get}
use aether_web_lite.ThreadDag.{
  DagPost, Degree, valid_parents, count_parents, children_of, add_child, list_children,
}

-- Each post stands under its own id.
abbrev pub Keyed : JsMap Text DagPost → Type 0
Keyed = All (λ e. e.1.packet_id ≡ e.0)

pub get-Keyed :
    (id : Text) (post : DagPost) (nodes : JsMap Text DagPost)
    → Keyed nodes
    → JsMap.get id nodes ≡ some post
    → post.packet_id ≡ id
unfolding JsMap.get
get-Keyed id post [] k h = cc
get-Keyed id post ((j, p) ∷ nodes) k h = ground (arith, get-Keyed id post nodes k.1, eq_iff j id)

-- The parents of an id that are nodes.
abbrev pub parents_at : JsMap Text DagPost → Option DagPost → List Text
parents_at nodes none = []
parents_at nodes (some post) = valid_parents nodes post

abbrev pub parents_in : JsMap Text DagPost → JsMap Text DagPost → Text → List Text
parents_in nodes part v = parents_at nodes (JsMap.get v part)

abbrev pub parents_of : JsMap Text DagPost → Text → List Text
parents_of nodes v = parents_in nodes nodes v

pub get-count_parents :
    (nodes rest : JsMap Text DagPost) (degrees : JsMap Text Degree) (v : Text)
    → Keyed rest
    → JsMap.Distinct rest
    → JsMap.get v (count_parents nodes rest degrees) ≡ (
        if JsMap.has v rest
        then some (some (length (parents_in nodes rest v)))
        else JsMap.get v degrees)
unfolding count_parents JsMap.get JsMap.has
get-count_parents nodes [] degrees v k d = refl
get-count_parents nodes ((id, post) ∷ rest) degrees v k d =
    let number : Degree = some (length (valid_parents nodes post)) in
    ground (
      arith,
      get-count_parents nodes rest (JsMap.set post.packet_id number degrees) v k.1 d.1,
      get-set post.packet_id v number degrees,
      has-get v rest,
      eq_iff id v,
    )

children_of-set :
    (p q : Text) (ids : List Text) (children : JsMap Text (List Text))
    → children_of p (JsMap.set q ids children) ≡ (if q == p then ids else children_of p children)
children_of-set p q ids children = ground (arith, get-set q p ids children)

count-add_child :
    (v p id : Text) (parents : List Text) (children : JsMap Text (List Text))
    → count v (children_of p (add_child id parents children))
      ≡ count v (children_of p children) + (if id == v then count p parents else 0)
unfolding add_child
count-add_child v p id [] children = ground arith
count-add_child v p id (q ∷ parents) children =
    let more = children_of q children ++ id ∷ [] in
    ground (
      arith,
      count-add_child v p id parents (JsMap.set q more children),
      children_of-set p q more children,
      count-append v (children_of q children) (id ∷ []),
      eq_iff q p,
    )

count-list_children :
    (v p : Text) (nodes rest : JsMap Text DagPost) (children : JsMap Text (List Text))
    → Keyed rest
    → JsMap.Distinct rest
    → count v (children_of p (list_children nodes rest children))
      ≡ count v (children_of p children) + count p (parents_in nodes rest v)
unfolding list_children JsMap.get
count-list_children v p nodes [] children k d = ground arith
count-list_children v p nodes ((id, post) ∷ rest) children k d = ground (
  arith,
  count-list_children v p nodes rest (add_child post.packet_id (valid_parents nodes post) children)
      k.1 d.1,
  count-add_child v p post.packet_id (valid_parents nodes post) children,
  has-get v rest,
  eq_iff id v,
)

-- A node is listed as a child of another as often as it names it as a parent.
pub count-children :
    (v p : Text) (nodes : JsMap Text DagPost)
    → Keyed nodes
    → JsMap.Distinct nodes
    → count v (children_of p (list_children nodes nodes [])) ≡ count p (parents_of nodes v)
unfolding JsMap.get
count-children v p nodes k d = ground (arith, count-list_children v p nodes nodes [] k d)

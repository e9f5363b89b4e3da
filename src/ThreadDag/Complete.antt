-- ===== src/ThreadDag/Complete.antt =====
-- The order of a thread is found, and it is complete when no post is its own ancestor.
use aether_web_lite.Prelude.{
  ℕ, zero, suc, ◌<◌, ◌≡◌, refl, ap, sym, subst, ◌∙◌, Bool, true, false, some, List, [], ◌∷◌, arith,
  ◌||◌, ◌==◌, eq_iff, eq_self, keep_if, includes, All, map, Option-cases, Bool-cases, inl, inr,
}
use aether_web_lite.Prelude.Text.{Text, text_eq}
use aether_web_lite.JsMap
use aether_web_lite.JsMap.{JsMap}
use aether_web_lite.ThreadDag.{
  add_post, DagPost, ThreadDag, degree_of, is_zero, count_parents, sorted, get_sorted_posts,
}
use aether_web_lite.ThreadDag.Degrees.{Keyed, parents_at, parents_of}
use aether_web_lite.ThreadDag.Queue.{left_of}
use aether_web_lite.JsMap.Laws.{Distinct-set}
use aether_web_lite.ThreadDag.Order.{ParentsFirst, after, waiting-size, Outcome, process-ends}
use aether_web_lite.ThreadDag.Start.{ids, start-IsQueue}

-- A thread that some posts were added to, one after the other.
unfoldable pub add_all : List DagPost → ThreadDag → ThreadDag
add_all [] s = s
add_all (post ∷ posts) s = add_all posts (add_post post s).1

abbrev pub new_thread : Text → ThreadDag
new_thread id = record { nodes = []; thread_id = id }

abbrev pub IsDag : ThreadDag → Type 0
IsDag s = Keyed s.nodes × JsMap.Distinct s.nodes

Keyed-set :
    (post : DagPost) (nodes : JsMap Text DagPost)
    → Keyed nodes
    → Keyed (JsMap.set post.packet_id post nodes)
unfolding JsMap.set
Keyed-set post [] k = (refl, tt)
Keyed-set post ((id, p) ∷ nodes) k =
    ground (arith, Keyed-set post nodes k.1, eq_iff id post.packet_id)

add_post-IsDag : (post : DagPost) (s : ThreadDag) → IsDag s → IsDag (add_post post s).1
unfolding add_post
add_post-IsDag post s d =
    ground (arith, Keyed-set post s.nodes d.0, Distinct-set post.packet_id post s.nodes d.1)

pub add_all-IsDag : (posts : List DagPost) (s : ThreadDag) → IsDag s → IsDag (add_all posts s)
unfolding add_all
add_all-IsDag [] s d = d
add_all-IsDag (post ∷ posts) s d = add_all-IsDag posts (add_post post s).1 (add_post-IsDag post s d)

includes-after :
    (v : Text) (done : List Text) (out : List DagPost)
    → includes v (after done out) ≡ includes v done || includes v (map (λ n. n.packet_id) out)
includes-after v done [] = ground arith
includes-after v done (p ∷ out) = ground (arith, includes-after v (p.packet_id ∷ done) out)

-- If each of the parents was taken, none is left.
none_left :
    (done ps : List Text)
    → ((q : Text) → includes q ps ≡ true → includes q done ≡ true)
    → left_of done ps ≡ 0
none_left done [] h = refl
none_left done (p ∷ ps) h =
    let here : includes p done ≡ true = h p (ground (arith, eq_self p)) in
    let rest = none_left done ps (λ q m. h q (ground arith)) in ground arith

-- A rank that is higher for each post than for those of its parents that are in the thread: no
-- post is its own ancestor.
abbrev pub Ranked : ThreadDag → (Text → ℕ) → Type 0
Ranked s rank =
    All (λ e. All (λ q. JsMap.has q s.nodes ≡ true → rank q < rank e.0) e.1.parents) s.nodes

All-get {κ} :
    (P : Text × DagPost → Type κ) (v : Text) (post : DagPost) (nodes : JsMap Text DagPost)
    → All P nodes
    → JsMap.get v nodes ≡ some post
    → P (v, post)
unfolding JsMap.get
All-get P v post [] a h = cc
All-get P v post ((id, p) ∷ nodes) a h = elim (Bool-cases (id == v)) [
  | inl t ↦
      let same : id ≡ v = (eq_iff id v).0 t in
      let found : p ≡ post = ground (arith, t) in subst (λ x. P x) (rw (same, found) refl) a.0
  | inr f ↦ All-get P v post nodes a.1 (ground (arith, f))
]

All-includes {κ} :
    (P : Text → Type κ) (q : Text) (ps : List Text) → All P ps → includes q ps ≡ true → P q
All-includes P q [] a h = cc
All-includes P q (p ∷ ps) a h = elim (Bool-cases (p == q)) [
  | inl t ↦ subst P ((eq_iff p q).0 t) a.0
  | inr f ↦ All-includes P q ps a.1 (ground (arith, f))
]

includes-keep_if :
    (q : Text) (test : Text → Bool) (ps : List Text)
    → includes q (keep_if test ps) ≡ true
    → test q ≡ true
includes-keep_if q test [] h = cc
includes-keep_if q test (p ∷ ps) h = elim (Bool-cases (p == q)) [
  | inl t ↦
      let same : p ≡ q = (eq_iff p q).0 t in
      elim (Bool-cases (test p)) [
        | inl kept ↦ ap test (sym same) ∙ kept
        | inr cut ↦ includes-keep_if q test ps (ground (arith, cut))
      ]
  | inr f ↦ includes-keep_if q test ps (ground (arith, f))
]

includes_kept :
    (q : Text) (test : Text → Bool) (ps : List Text)
    → includes q (keep_if test ps) ≡ true
    → includes q ps ≡ true
includes_kept q test [] h = cc
includes_kept q test (p ∷ ps) h = ground (arith, includes_kept q test ps)

-- A parent that is a node ranks below.
parent_below :
    (s : ThreadDag) (rank : Text → ℕ) (v q : Text)
    → Ranked s rank
    → includes q (parents_of s.nodes v) ≡ true
    → (rank q < rank v) × (JsMap.has q s.nodes ≡ true)
parent_below s rank v q ranked h = elim (Option-cases (JsMap.get v s.nodes)) [
  | inl e ↦ let gone : false ≡ true = sym (ap (λ o. includes q (parents_at s.nodes o)) e) ∙ h in cc
  | inr (post, e) ↦
      let valid = sym (ap (λ o. includes q (parents_at s.nodes o)) e) ∙ h in
      let test : Text → Bool = λ p. JsMap.has p s.nodes in
      let there = includes-keep_if q test post.parents valid in
      let P : Text × DagPost → Type 0 =
        λ x. All (λ q. JsMap.has q s.nodes ≡ true → rank q < rank x.0) x.1.parents in
      let of_post : P (v, post) = All-get P v post s.nodes ranked e in
      (
        All-includes (λ q. JsMap.has q s.nodes ≡ true → rank q < rank v) q post.parents of_post
            (includes_kept q test post.parents valid) there,
        there,
      )
]

module _ (locale_le : Text → Text → Bool) (s : ThreadDag) (d : IsDag s) where
  pub outcome :
      Outcome locale_le s.nodes d.0 d.1
        (suc (JsMap.size s.nodes))
        []
        (sorted locale_le s.nodes (
          keep_if
            (λ id. is_zero (degree_of id (count_parents s.nodes s.nodes [])))
            (ids locale_le s d.0 d.1 s.nodes)))
        (count_parents s.nodes s.nodes [])
  outcome =
      process-ends locale_le s.nodes d.0 d.1 (suc (JsMap.size s.nodes)) [] _ _
        (start-IsQueue locale_le s d.0 d.1) (omega (arith, waiting-size s.nodes))

  pub get_sorted_posts-out : get_sorted_posts locale_le s ≡ some outcome.out
  unfolding get_sorted_posts
  get_sorted_posts-out = outcome.ends

  taken_below :
      (rank : Text → ℕ)
      → Ranked s rank
      → (n : ℕ) (v : Text) → rank v < n
      → JsMap.has v s.nodes ≡ true
      → includes v (after [] outcome.out) ≡ true
  taken_below rank ranked zero v lt h = absurd (omega arith)
  taken_below rank ranked (suc n) v lt h = elim (Bool-cases (includes v (after [] outcome.out))) [
    | inl t ↦ t
    | inr f ↦ absurd (
        outcome.stuck v h f (
          none_left (after [] outcome.out) (parents_of s.nodes v) (λ q m.
            let (lower, there) = parent_below s rank v q ranked m in
            taken_below rank ranked n q (omega arith) there)))
  ]

-- The order of a thread is always found, whatever posts were added to it: the loop ends. Each post
-- in it is one of the thread's, comes once, and comes after those posts of the thread that it
-- names as its parents.
pub get_sorted_posts_ordered :
    (locale_le : Text → Text → Bool) (posts : List DagPost) (thread : Text)
    → (out : List DagPost) × (get_sorted_posts locale_le (add_all posts (new_thread thread))
        ≡ some out)
      × ParentsFirst (add_all posts (new_thread thread)).nodes [] out
get_sorted_posts_ordered locale_le posts thread =
    let s = add_all posts (new_thread thread) in
    let d = add_all-IsDag posts (new_thread thread) (tt, tt) in
    let o = outcome locale_le s d in (o.out, get_sorted_posts-out locale_le s d, o.ordered)

-- When no post is its own ancestor, every post of the thread is in the order.
pub get_sorted_posts_complete :
    (locale_le : Text → Text → Bool) (posts : List DagPost) (thread v : Text) (rank : Text → ℕ)
    → Ranked (add_all posts (new_thread thread)) rank
    → JsMap.has v (add_all posts (new_thread thread)).nodes ≡ true
    → (out : List DagPost) × (get_sorted_posts locale_le (add_all posts (new_thread thread))
        ≡ some out)
      × (includes v (map (λ n. n.packet_id) out) ≡ true)
get_sorted_posts_complete locale_le posts thread v rank ranked h =
    let s = add_all posts (new_thread thread) in
    let d = add_all-IsDag posts (new_thread thread) (tt, tt) in
    let o = outcome locale_le s d in
    (
      o.out,
      get_sorted_posts-out locale_le s d,
      sym (includes-after v [] o.out)
          ∙ taken_below locale_le s d rank ranked (suc (rank v)) v (omega arith) h,
    )

-- ===== src/ThreadDag/Order.antt =====
-- The loop over the queue ends, and gives out no post before one that it answers.
use aether_web_lite.Prelude.{
  ℕ, zero, suc, ◌+◌, ◌<◌, ◌≡◌, refl, ap, sym, subst, ◌∙◌, Bool, true, false, none, some, List, [],
  ◌∷◌, arith, if◌then◌else◌, eq_iff, eq_self, count, includes, All, Option-cases, inl, inr,
}
use aether_web_lite.Prelude.Text.{Text, text_eq}
use aether_web_lite.JsMap
use aether_web_lite.JsMap.{JsMap}
use aether_web_lite.JsMap.Laws.{has-get}
use aether_web_lite.ThreadDag.{
  DagPost, Degree, valid_parents, children_of, list_children, release, process,
}
use aether_web_lite.ThreadDag.Degrees.{Keyed, get-Keyed, parents_at, parents_of, count-children}
use aether_web_lite.ThreadDag.Queue.{left_of, left_of-cons, ready, IsQueue, release-IsQueue}

-- Each post is a node, comes once, and comes after those of its parents that are nodes.
abbrev pub ParentsFirst : JsMap Text DagPost → List Text → List DagPost → Type 0
ParentsFirst nodes done [] = Unit
ParentsFirst nodes done (p ∷ ps) =
    (JsMap.get p.packet_id nodes ≡ some p)
    × (includes p.packet_id done ≡ false)
    × All (λ q. includes q done ≡ true) (valid_parents nodes p)
    × ParentsFirst nodes (p.packet_id ∷ done) ps

-- The ids that were taken when the posts are out.
abbrev pub after : List Text → List DagPost → List Text
after done [] = done
after done (p ∷ ps) = after (p.packet_id ∷ done) ps

-- How many entries were not taken.
abbrev pub waiting : List Text → JsMap Text DagPost → ℕ
waiting done [] = 0
waiting done ((id, post) ∷ nodes) = (if includes id done then 0 else 1) + waiting done nodes

waiting_same :
    (c : Text) (done : List Text) (nodes : JsMap Text DagPost)
    → JsMap.has c nodes ≡ false
    → waiting (c ∷ done) nodes ≡ waiting done nodes
unfolding JsMap.has
waiting_same c done [] h = refl
waiting_same c done ((id, post) ∷ nodes) h =
    ground (arith, waiting_same c done nodes, eq_iff c id, eq_iff id c)

waiting_less :
    (c : Text) (done : List Text) (nodes : JsMap Text DagPost)
    → JsMap.Distinct nodes
    → JsMap.has c nodes ≡ true
    → includes c done ≡ false
    → waiting done nodes ≡ suc (waiting (c ∷ done) nodes)
unfolding JsMap.has
waiting_less c done [] d h f = cc
waiting_less c done ((id, post) ∷ nodes) d h f =
    ground
      (arith, waiting_less c done nodes d.1, waiting_same c done nodes, eq_iff c id, eq_iff id c)

pub waiting-size : (nodes : JsMap Text DagPost) → waiting [] nodes ≡ JsMap.size nodes
waiting-size [] = refl
waiting-size ((id, post) ∷ nodes) = omega (arith, waiting-size nodes)

left_of-zero : (done ps : List Text) → left_of done ps ≡ 0 → All (λ q. includes q done ≡ true) ps
left_of-zero done [] h = tt
left_of-zero done (p ∷ ps) h = ground (arith, left_of-zero done ps)

module _ (locale_le : Text → Text → Bool) (nodes : JsMap Text DagPost) (keyed : Keyed nodes)
    (distinct : JsMap.Distinct nodes) where
  abbrev pub children : JsMap Text (List Text)
  children = list_children nodes nodes []

  no_parents : (v p : Text) → JsMap.get v nodes ≡ none → ¬ (0 < count p (parents_of nodes v))
  no_parents v p e h =
      let none_there : parents_of nodes v ≡ [] = ap (parents_at nodes) e in
      omega (arith, ap (count p) none_there)

  head_ready :
      (id : Text) (done queue : List Text) (degrees : JsMap Text Degree)
      → IsQueue nodes done [] (id ∷ queue) degrees
      → ready nodes done id 0 ≡ true
  head_ready id done queue degrees q = ground (arith, q.queued id, eq_self id)

  is_node : (v p : Text) → 0 < count p (parents_of nodes v) → JsMap.has v nodes ≡ true
  is_node v p h = elim (Option-cases (JsMap.get v nodes)) [
    | inl e ↦ absurd (no_parents v p e h)
    | inr (post, e) ↦ has-get v nodes ∙ rw e refl
  ]

  -- Taking the head: its children's turns are all to come.
  take_head :
      (id : Text) (done queue : List Text) (degrees : JsMap Text Degree)
      → IsQueue nodes done [] (id ∷ queue) degrees
      → IsQueue nodes (id ∷ done) (children_of id children) queue degrees
  take_head id done queue degrees q =
      let r = head_ready id done queue degrees q in
      let new : includes id done ≡ false = ground arith in
      record {
        degree = λ v h. ground (
          arith,
          q.degree v h,
          count-children v id nodes keyed distinct,
          left_of-cons id done (parents_of nodes v) new,
        );
        queued = λ v. ground (
          arith,
          q.queued v,
          count-children v id nodes keyed distinct,
          left_of-cons id done (parents_of nodes v) new,
          eq_iff id v,
        );
        children = λ v h. is_node v id (omega (arith, count-children v id nodes keyed distinct));
        settled = λ v h. ground (
          arith,
          q.settled v,
          count-children v id nodes keyed distinct,
          left_of-cons id done (parents_of nodes v) new,
          eq_iff id v,
        );
      }

  not_ready :
      (v : Text) (done : List Text) (degrees : JsMap Text Degree)
      → IsQueue nodes done [] [] degrees
      → JsMap.has v nodes ≡ true
      → includes v done ≡ false
      → ¬ (left_of done (parents_of nodes v) ≡ 0)
  not_ready v done degrees q h new zero_left = ground (arith, q.queued v)

  node_post :
      (id : Text) → JsMap.has id nodes ≡ true → (post : DagPost) × (JsMap.get id nodes ≡ some post)
  node_post id h = elim (Option-cases (JsMap.get id nodes)) [
    | inl e ↦ let gone : false ≡ true = sym (has-get id nodes ∙ rw e refl) ∙ h in cc
    | inr found ↦ found
  ]

  -- What the loop gives out from a state of the queue on, and what is left at its end.
  pub record Outcome (fuel : ℕ) (done queue : List Text) (degrees : JsMap Text Degree)
      : Type 0 where
    pub out : List DagPost
    pub ends : process locale_le nodes children fuel queue degrees ≡ some out
    pub ordered : ParentsFirst nodes done out
    pub stuck :
        (v : Text)
        → JsMap.has v nodes ≡ true
        → includes v (after done out) ≡ false
        → ¬ (left_of (after done out) (parents_of nodes v) ≡ 0)

  process-empty :
      (fuel : ℕ) (done : List Text) (degrees : JsMap Text Degree)
      → IsQueue nodes done [] [] degrees
      → Outcome (suc fuel) done [] degrees
  unfolding process
  process-empty fuel done degrees q = record {
    out = [];
    ends = refl;
    ordered = tt;
    stuck = λ v h new zero_left. absurd (not_ready v done degrees q h new zero_left);
  }

  process-head :
      (fuel : ℕ) (id : Text) (done queue : List Text) (degrees : JsMap Text Degree) (post : DagPost)
      → JsMap.get id nodes ≡ some post
      → IsQueue nodes done [] (id ∷ queue) degrees
      → Outcome fuel
          (id ∷ done)
          (release locale_le nodes (children_of id children) queue degrees).0
          (release locale_le nodes (children_of id children) queue degrees).1
      → Outcome (suc fuel) done (id ∷ queue) degrees
  unfolding process
  process-head fuel id done queue degrees post e q o =
      let k = get-Keyed id post nodes keyed e in
      let r = head_ready id done queue degrees q in
      let parents_is : parents_of nodes id ≡ valid_parents nodes post = ap (parents_at nodes) e in
      let all_left : left_of done (valid_parents nodes post) ≡ 0 =
        sym (ap (left_of done) parents_is) ∙ ground arith in
      let new : includes id done ≡ false = ground arith in
      record {
        out = post ∷ o.out;
        ends = rw (process, e, o.ends) refl;
        ordered = (
          ap (λ i. JsMap.get i nodes) k ∙ e,
          ap (λ i. includes i done) k ∙ new,
          left_of-zero done (valid_parents nodes post) all_left,
          subst (λ i. ParentsFirst nodes (i ∷ done) o.out) (sym k) o.ordered,
        );
        stuck =
            subst
              (λ i.
                (v : Text)
                → JsMap.has v nodes ≡ true
                → includes v (after (i ∷ done) o.out) ≡ false
                → ¬ (left_of (after (i ∷ done) o.out) (parents_of nodes v) ≡ 0))
              (sym k) o.stuck;
      }

  pub process-ends :
      (fuel : ℕ) (done queue : List Text) (degrees : JsMap Text Degree)
      → IsQueue nodes done [] queue degrees
      → waiting done nodes < fuel
      → Outcome fuel done queue degrees
  process-ends zero done queue degrees q m = absurd (omega arith)
  process-ends (suc fuel) done [] degrees q m = process-empty fuel done degrees q
  process-ends (suc fuel) done (id ∷ queue) degrees q m =
      let r = head_ready id done queue degrees q in
      let there : JsMap.has id nodes ≡ true = ground arith in
      let new : includes id done ≡ false = ground arith in
      let (post, e) = node_post id there in
      process-head fuel id done queue degrees post e q (
        process-ends fuel (id ∷ done)
          (release locale_le nodes (children_of id children) queue degrees).0
          (release locale_le nodes (children_of id children) queue degrees).1
          (release-IsQueue locale_le nodes (id ∷ done) (children_of id children) queue degrees
            (take_head id done queue degrees q))
          (omega (arith, waiting_less id done nodes distinct there new)))

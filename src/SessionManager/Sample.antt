-- ===== src/SessionManager/Sample.antt =====
-- The sample of peers that bootstraps a node.
use aether_web_lite.Prelude.{
  count, count-take-le, ℕ, zero, suc, ◌+◌, ◌-◌, ◌≤◌, min, ◌≡◌, refl, ◌∙◌, true, some, List, [], ◌∷◌,
  arith, if◌then◌else◌, ◌==◌, eq_iff, not, ◌&&◌, length, get_elem?, keep_if, length-take,
  Option-cases, inl, inr,
}
use aether_web_lite.Prelude.Text.{Text, text_eq}
use aether_web_lite.JsMap
use aether_web_lite.JsMap.{JsMap}
use aether_web_lite.SessionManager.{
  PeerSession, SessionManager, set_elem, swap, shuffle, get_random_peers,
}

abbrev hit : Text → Text → ℕ
hit x y = if y == x then 1 else 0

length-set_elem : (i : ℕ) (a : Text) (xs : List Text) → length (set_elem i a xs) ≡ length xs
unfolding set_elem
length-set_elem i a [] = refl
length-set_elem zero a (x ∷ xs) = refl
length-set_elem (suc i) a (x ∷ xs) = omega (arith, length-set_elem i a xs)

count-set_elem :
    (x a old : Text) (i : ℕ) (xs : List Text)
    → get_elem? xs i ≡ some old
    → count x (set_elem i a xs) + hit x old ≡ count x xs + hit x a
unfolding set_elem
count-set_elem x a old i [] h = ground arith
count-set_elem x a old zero (y ∷ xs) h = ground arith
count-set_elem x a old (suc i) (y ∷ xs) h = omega (arith, count-set_elem x a old i xs h)

get_elem?-set_elem :
    (i j : ℕ) (a b : Text) (xs : List Text)
    → get_elem? xs i ≡ some a
    → get_elem? xs j ≡ some b
    → get_elem? (set_elem i b xs) j ≡ some b
unfolding set_elem
get_elem?-set_elem i j a b [] h k = ground arith
get_elem?-set_elem zero zero a b (x ∷ xs) h k = refl
get_elem?-set_elem zero (suc j) a b (x ∷ xs) h k = k
get_elem?-set_elem (suc i) zero a b (x ∷ xs) h k = k
get_elem?-set_elem (suc i) (suc j) a b (x ∷ xs) h k = get_elem?-set_elem i j a b xs h k

count-swap : (x : Text) (i j : ℕ) (xs : List Text) → count x (swap i j xs) ≡ count x xs
unfolding swap
count-swap x i j xs = elim (Option-cases (get_elem? xs i)) [
  | inl e ↦ ground arith
  | inr (a, e) ↦ elim (Option-cases (get_elem? xs j)) [
    | inl f ↦ ground arith
    | inr (b, f) ↦ ground (
      arith,
      count-set_elem x b a i xs e,
      count-set_elem x a b j (set_elem i b xs) (get_elem?-set_elem i j a b xs e f),
    )
  ]
]

length-swap : (i j : ℕ) (xs : List Text) → length (swap i j xs) ≡ length xs
unfolding swap
length-swap i j xs = elim (Option-cases (get_elem? xs i)) [
  | inl e ↦ ground arith
  | inr (a, e) ↦ elim (Option-cases (get_elem? xs j)) [
    | inl f ↦ ground arith
    | inr (b, f) ↦ ground (arith, length-set_elem i b xs, length-set_elem j a (set_elem i b xs))
  ]
]

count-shuffle :
    (x : Text) (random_int : ℕ → ℕ) (i : ℕ) (xs : List Text)
    → count x (shuffle random_int i xs) ≡ count x xs
unfolding shuffle
count-shuffle x random_int zero xs = refl
count-shuffle x random_int (suc i) xs =
    let j = random_int (suc i + 1) in
    count-shuffle x random_int i (swap (suc i) j xs) ∙ count-swap x (suc i) j xs

length-shuffle :
    (random_int : ℕ → ℕ) (i : ℕ) (xs : List Text) → length (shuffle random_int i xs) ≡ length xs
unfolding shuffle
length-shuffle random_int zero xs = refl
length-shuffle random_int (suc i) xs =
    let j = random_int (suc i + 1) in
    length-shuffle random_int i (swap (suc i) j xs) ∙ length-swap (suc i) j xs

count-others :
    (x exclude : Text) (xs : List Text)
    → count x (keep_if (λ id. not (id == exclude)) xs) ≡ (if exclude == x then 0 else count x xs)
count-others x exclude [] = ground arith
count-others x exclude (y ∷ xs) =
    ground (arith, count-others x exclude xs, eq_iff exclude x, eq_iff y x, eq_iff y exclude)

count-keys :
    (x : Text) (m : JsMap Text PeerSession)
    → JsMap.Distinct m
    → count x (JsMap.keys m) ≡ (if JsMap.has x m then 1 else 0)
unfolding JsMap.has
count-keys x [] d = refl
count-keys x ((y, s) ∷ m) d = ground (arith, count-keys x m d.1, eq_iff y x)

has-size : (x : Text) (m : JsMap Text PeerSession) → JsMap.has x m ≡ true → 1 ≤ JsMap.size m
unfolding JsMap.has
has-size x [] h = ground arith
has-size x ((y, s) ∷ m) h = omega arith

length-others :
    (exclude : Text) (m : JsMap Text PeerSession)
    → JsMap.Distinct m
    → length (keep_if (λ id. not (id == exclude)) (JsMap.keys m))
      ≡ JsMap.size m - (if JsMap.has exclude m then 1 else 0)
unfolding JsMap.has
length-others exclude [] d = refl
length-others exclude ((y, s) ∷ m) d =
    ground (arith, length-others exclude m d.1, eq_iff y exclude, has-size exclude m)

-- Whatever the random numbers are, the sample holds a session's id once at most, and no other id;
-- the id that asks is left out.
pub get_random_peers_once :
    (x exclude : Text) (max_peers : ℕ) (random_int : ℕ → ℕ) (s : SessionManager)
    → JsMap.Distinct s.sessions
    → count x (get_random_peers exclude max_peers random_int s)
      ≤ (if not (exclude == x) && JsMap.has x s.sessions then 1 else 0)
unfolding get_random_peers
get_random_peers_once x exclude max_peers random_int s d =
    let ids = keep_if (λ id. not (id == exclude)) (JsMap.keys s.sessions) in
    let mixed = shuffle random_int (length ids - 1) ids in
    ground (
      arith,
      count-take-le x max_peers mixed,
      count-shuffle x random_int (length ids - 1) ids,
      count-others x exclude (JsMap.keys s.sessions),
      count-keys x s.sessions d,
    )

-- The sample is as large as the limit asked for and the number of other sessions allow.
pub length-get_random_peers :
    (exclude : Text) (max_peers : ℕ) (random_int : ℕ → ℕ) (s : SessionManager)
    → JsMap.Distinct s.sessions
    → length (get_random_peers exclude max_peers random_int s)
      ≡ min max_peers (JsMap.size s.sessions - (if JsMap.has exclude s.sessions then 1 else 0))
unfolding get_random_peers
length-get_random_peers exclude max_peers random_int s d =
    let ids = keep_if (λ id. not (id == exclude)) (JsMap.keys s.sessions) in
    let mixed = shuffle random_int (length ids - 1) ids in
    ground (
      arith,
      length-take max_peers mixed,
      length-shuffle random_int (length ids - 1) ids,
      length-others exclude s.sessions d,
    )

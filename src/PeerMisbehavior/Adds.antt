-- ===== src/PeerMisbehavior/Adds.antt =====
-- Penalties at one time add up.
use aether_web_lite.Prelude.{
  ℕ, ◌+◌, ◌<◌, ◌≡◌, refl, sym, subst, ap, ◌∙◌, true, false, none, some, List, [], ◌∷◌, arith, leb,
  Bool-cases, inl, inr,
}
use aether_web_lite.Prelude.Text.{Text, text_eq}
use aether_web_lite.JsMap
use aether_web_lite.JsMap.Laws.{get-set_self}
use aether_web_lite.PeerMisbehavior.{
  MisbehaviorOptions, PeerScoreRecord, Manager, record_violation, is_banned, get_score, punish,
}
use aether_web_lite.PeerMisbehavior.Agree.{record_violation_agrees, record_violation-banned}

-- The penalties of several violations at one time, in their order.
pub record_all : MisbehaviorOptions → Text → ℕ → List ℕ → Manager → Manager
record_all o peer now [] m = m
record_all o peer now (v ∷ vs) m = record_all o peer now vs (record_violation o peer v now m).1

pub total : List ℕ → ℕ
total [] = 0
total (v ∷ vs) = v + total vs

-- What a peer's next penalty adds to: the score it has, unless it is banned.
abbrev pub Standing : Text → ℕ → ℕ → Manager → Type 0
Standing peer score now m =
    (JsMap.get peer m.banned_peers ≡ none)
    × (JsMap.get peer m.scores ≡ some (record { score = score; last_updated = now }))

is_banned-absent :
    (peer : Text) (now : ℕ) (m : Manager)
    → JsMap.get peer m.banned_peers ≡ none
    → is_banned peer now m ≡ (false, m)
unfolding is_banned
is_banned-absent peer now m h = rw (is_banned, h) refl

get_score_now :
    (o : MisbehaviorOptions) (peer : Text) (score now : ℕ) (m : Manager)
    → 0 < o.decay_interval_ms
    → JsMap.get peer m.scores ≡ some (record { score = score; last_updated = now })
    → get_score o peer now m ≡ (score, m)
unfolding get_score
get_score_now o peer score now m pos h = rw (get_score, h) (ground arith)

record_violation-Standing :
    (o : MisbehaviorOptions) (peer : Text) (score v now : ℕ) (m : Manager)
    → 0 < o.decay_interval_ms
    → Standing peer score now m
    → record_violation o peer v now m ≡ punish o peer (score + v) now m
unfolding record_violation punish
record_violation-Standing o peer score v now m pos s =
    rw (record_violation, is_banned-absent peer now m s.0)
      (ap (λ x. punish o peer (x.0 + v) now x.1) (get_score_now o peer score now m pos s.1))

punish-Standing :
    (o : MisbehaviorOptions) (peer : Text) (score now : ℕ) (m : Manager)
    → JsMap.get peer m.banned_peers ≡ none
    → score < o.ban_threshold
    → Standing peer score now (punish o peer score now m).1
unfolding punish
punish-Standing o peer score now m nb lt =
    let entry : PeerScoreRecord = record { score = score; last_updated = now } in
    ground (arith, get-set_self peer entry m.scores)

record_all-banned :
    (o : MisbehaviorOptions) (peer : Text) (now : ℕ) (vs : List ℕ) (m : Manager)
    → 0 < o.ban_duration_ms
    → (is_banned peer now m).0 ≡ true
    → (is_banned peer now (record_all o peer now vs m)).0 ≡ true
unfolding record_all
record_all-banned o peer now [] m pos h = h
record_all-banned o peer now (v ∷ vs) m pos h =
    record_all-banned o peer now vs (record_violation o peer v now m).1 pos (
      record_violation_agrees o peer v now m pos
      ∙ ap (λ x. x.0) (record_violation-banned o peer v now m h))

is_banned-Standing :
    (peer : Text) (score now : ℕ) (m : Manager)
    → Standing peer score now m
    → (is_banned peer now m).0 ≡ false
is_banned-Standing peer score now m s = ap (λ x. x.0) (is_banned-absent peer now m s.0)

punish_iff :
    (o : MisbehaviorOptions) (peer : Text) (score now : ℕ) (m : Manager)
    → (punish o peer score now m).0 ≡ leb o.ban_threshold score
unfolding punish
punish_iff o peer score now m = ground arith

-- Penalties at one time add up: a peer with a score below the threshold is banned after them
-- exactly when the score and all the penalties together reach the threshold. The interval of the
-- decay and the duration of a ban are positive.
pub record_all_adds :
    (o : MisbehaviorOptions) (peer : Text) (score now : ℕ) (vs : List ℕ) (m : Manager)
    → 0 < o.decay_interval_ms
    → 0 < o.ban_duration_ms
    → score < o.ban_threshold
    → Standing peer score now m
    → (is_banned peer now (record_all o peer now vs m)).0 ≡ leb o.ban_threshold (score + total vs)
unfolding record_all total
record_all_adds o peer score now [] m decays pos lt s =
    is_banned-Standing peer score now m s ∙ ground arith
record_all_adds o peer score now (v ∷ vs) m decays pos lt s =
    let once = record_violation-Standing o peer score v now m decays s in
    let next = (record_violation o peer v now m).1 in
    let told = record_violation_agrees o peer v now m pos ∙ ap (λ x. x.0) once in
    elim (Bool-cases (leb o.ban_threshold (score + v))) [
      | inl t ↦
          record_all-banned o peer now vs next pos (told ∙ punish_iff o peer (score + v) now m ∙ t)
          ∙ ground arith
      | inr f ↦
          record_all_adds o peer (score + v) now vs next decays pos (ground arith) (
            subst (λ x. Standing peer (score + v) now x.1) (sym once)
              (punish-Standing o peer (score + v) now m s.0 (ground arith)))
          ∙ ap (leb o.ban_threshold) (omega arith)
    ]

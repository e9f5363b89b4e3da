-- ===== src/PeerMisbehavior/Agree.antt =====
-- The scores that may be stored, and the answer to a violation.
use aether_web_lite.Prelude.{
  ℕ, ◌+◌, ◌-◌, ◌/◌, ◌^◌, ◌<◌, ◌≤◌, ◌≡◌, refl, sym, subst, ap, ◌∙◌, true, false, none, some, arith,
  eq_iff, eq_self, Option-cases, Bool-cases, inl, inr,
}
use aether_web_lite.Prelude.Text.{Text, text_eq}
use aether_web_lite.JsMap
use native.Mathlib.Nat.{div-le_self}
use aether_web_lite.JsMap.Laws.{get-set, get-delete}
use aether_web_lite.PeerMisbehavior.{
  MisbehaviorOptions, PeerScoreRecord, Manager, Op, violates, asks_ban, asks_score, unbans, bans,
  clears, step, record_violation, is_banned, get_score, unban_peer, ban_peer, punish, no_records,
  put_score, drop_score, decayed,
}

-- A stored score is below the threshold, and its peer is not banned.
abbrev pub WellFormed : MisbehaviorOptions → Manager → Type 0
WellFormed o m =
    (p : Text) (r : PeerScoreRecord)
    → JsMap.get p m.scores ≡ some r
    → (r.score < o.ban_threshold) × (JsMap.get p m.banned_peers ≡ none)

unban_peer-WellFormed :
    (o : MisbehaviorOptions) (peer : Text) (m : Manager)
    → WellFormed o m
    → WellFormed o (unban_peer peer m)
unfolding unban_peer
unban_peer-WellFormed o peer m w p r h =
    ground (arith, get-delete peer p m.scores, get-delete peer p m.banned_peers, w p r)

ban_peer-WellFormed :
    (o : MisbehaviorOptions) (peer : Text) (duration now : ℕ) (m : Manager)
    → WellFormed o m
    → WellFormed o (ban_peer peer duration now m)
unfolding ban_peer
ban_peer-WellFormed o peer duration now m w p r h =
    ground
      (arith, get-delete peer p m.scores, get-set peer p (now + duration) m.banned_peers, w p r)

put_score-WellFormed :
    (o : MisbehaviorOptions) (peer : Text) (score now : ℕ) (m : Manager)
    → score < o.ban_threshold
    → JsMap.get peer m.banned_peers ≡ none
    → WellFormed o m
    → WellFormed o (put_score peer score now m)
put_score-WellFormed o peer score now m lt nb w p r h = ground (
  arith,
  get-set peer p (record { score = score; last_updated = now }) m.scores,
  eq_iff peer p,
  w p r,
)

drop_score-WellFormed :
    (o : MisbehaviorOptions) (peer : Text) (m : Manager)
    → WellFormed o m
    → WellFormed o (drop_score peer m)
drop_score-WellFormed o peer m w p r h = ground (arith, get-delete peer p m.scores, w p r)

is_banned-WellFormed :
    (o : MisbehaviorOptions) (peer : Text) (now : ℕ) (m : Manager)
    → WellFormed o m
    → WellFormed o (is_banned peer now m).1
unfolding is_banned unban_peer
is_banned-WellFormed o peer now m w p r h =
    ground (arith, get-delete peer p m.scores, get-delete peer p m.banned_peers, w p r)

-- Asking for a score bans and pardons nobody, and the score is below a positive threshold.
get_score-banned_peers :
    (o : MisbehaviorOptions) (peer : Text) (now : ℕ) (m : Manager)
    → (get_score o peer now m).1.banned_peers ≡ m.banned_peers
unfolding get_score
get_score-banned_peers o peer now m = ground arith

decayed-le : (o : MisbehaviorOptions) (now : ℕ) (r : PeerScoreRecord) → decayed o now r ≤ r.score
decayed-le o now r = div-le_self r.score (2 ^ ((now - r.last_updated) / o.decay_interval_ms))

get_score-WellFormed :
    (o : MisbehaviorOptions) (peer : Text) (now : ℕ) (m : Manager)
    → WellFormed o m
    → WellFormed o (get_score o peer now m).1
unfolding get_score
get_score-WellFormed o peer now m w p r h = elim (Option-cases (JsMap.get peer m.scores)) [
  | inl e ↦ ground (arith, w p r)
  | inr (q, e) ↦
      let score = decayed o now q in
      ground (
        arith,
        get-delete peer p m.scores,
        get-set peer p (record { score = score; last_updated = now }) m.scores,
        eq_iff peer p,
        decayed-le o now q,
        w peer q,
        w p r,
      )
]

punish-WellFormed :
    (o : MisbehaviorOptions) (peer : Text) (score now : ℕ) (m : Manager)
    → JsMap.get peer m.banned_peers ≡ none
    → WellFormed o m
    → WellFormed o (punish o peer score now m).1
unfolding punish ban_peer
punish-WellFormed o peer score now m nb w p r h =
    let entry : PeerScoreRecord = record { score = score; last_updated = now } in
    ground (
      arith,
      get-delete peer p (JsMap.set peer entry m.scores),
      get-set peer p entry m.scores,
      get-set peer p (now + o.ban_duration_ms) m.banned_peers,
      eq_iff peer p,
      w p r,
    )

-- A peer that does not count as banned has no entry once it has been asked for.
pub is_banned_absent :
    (peer : Text) (now : ℕ) (m : Manager)
    → (is_banned peer now m).0 ≡ false
    → JsMap.get peer (is_banned peer now m).1.banned_peers ≡ none
unfolding is_banned unban_peer
is_banned_absent peer now m h = ground (arith, get-delete peer peer m.banned_peers, eq_self peer)

pub record_violation-banned :
    (o : MisbehaviorOptions) (peer : Text) (v now : ℕ) (m : Manager)
    → (is_banned peer now m).0 ≡ true
    → record_violation o peer v now m ≡ (true, (is_banned peer now m).1)
unfolding record_violation
record_violation-banned o peer v now m h = rw h refl

record_violation-free :
    (o : MisbehaviorOptions) (peer : Text) (v now : ℕ) (m : Manager)
    → (is_banned peer now m).0 ≡ false
    → record_violation o peer v now m ≡ (
        let scored = get_score o peer now (is_banned peer now m).1 in
        punish o peer (scored.0 + v) now scored.1)
unfolding record_violation
record_violation-free o peer v now m h = rw h refl

record_violation-WellFormed :
    (o : MisbehaviorOptions) (peer : Text) (v now : ℕ) (m : Manager)
    → WellFormed o m
    → WellFormed o (record_violation o peer v now m).1
record_violation-WellFormed o peer v now m w =
    let m1 = (is_banned peer now m).1 in
    let scored = get_score o peer now m1 in
    let w1 = is_banned-WellFormed o peer now m w in
    elim (Bool-cases (is_banned peer now m).0) [
      | inl t ↦ subst (λ x. WellFormed o x.1) (sym (record_violation-banned o peer v now m t)) w1
      | inr f ↦
          subst (λ x. WellFormed o x.1) (sym (record_violation-free o peer v now m f))
            (punish-WellFormed o peer (scored.0 + v) now scored.1
              (ap (JsMap.get peer) (get_score-banned_peers o peer now m1)
                ∙ is_banned_absent peer now m f)
              (get_score-WellFormed o peer now m1 w1))
    ]

no_records-WellFormed : (o : MisbehaviorOptions) → WellFormed o no_records
unfolding JsMap.get
no_records-WellFormed o p r h = ground arith

-- Every call keeps a stored score below the threshold, and no score is stored for a banned peer.
pub step-WellFormed :
    (o : MisbehaviorOptions) (now : ℕ) (m : Manager) (op : Op)
    → WellFormed o m
    → WellFormed o (step o now m op)
unfolding step
step-WellFormed o now m (violates q v) w = record_violation-WellFormed o q v now m w
step-WellFormed o now m (asks_ban q) w = is_banned-WellFormed o q now m w
step-WellFormed o now m (asks_score q) w = get_score-WellFormed o q now m w
step-WellFormed o now m (unbans q) w = unban_peer-WellFormed o q m w
step-WellFormed o now m (bans q duration) w = ban_peer-WellFormed o q duration now m w
step-WellFormed o now m clears w = no_records-WellFormed o

punish_asked :
    (o : MisbehaviorOptions) (peer : Text) (score now : ℕ) (m : Manager)
    → 0 < o.ban_duration_ms
    → JsMap.get peer m.banned_peers ≡ none
    → (is_banned peer now (punish o peer score now m).1).0 ≡ (punish o peer score now m).0
unfolding punish ban_peer is_banned
punish_asked o peer score now m pos nb =
    ground (arith, get-set peer peer (now + o.ban_duration_ms) m.banned_peers, eq_self peer)

is_banned_again :
    (peer : Text) (now : ℕ) (m : Manager)
    → (is_banned peer now (is_banned peer now m).1).0 ≡ (is_banned peer now m).0
unfolding is_banned unban_peer
is_banned_again peer now m = ground (arith, get-delete peer peer m.banned_peers, eq_self peer)

-- The answer to a recorded violation is whether the peer counts as banned from then on, when
-- bans have a positive duration.
pub record_violation_agrees :
    (o : MisbehaviorOptions) (peer : Text) (v now : ℕ) (m : Manager)
    → 0 < o.ban_duration_ms
    → (is_banned peer now (record_violation o peer v now m).1).0
      ≡ (record_violation o peer v now m).0
record_violation_agrees o peer v now m pos =
    let m1 = (is_banned peer now m).1 in
    let scored = get_score o peer now m1 in
    elim (Bool-cases (is_banned peer now m).0) [
      | inl t ↦
          subst (λ x. (is_banned peer now x.1).0 ≡ x.0)
            (sym (record_violation-banned o peer v now m t)) (is_banned_again peer now m ∙ t)
      | inr f ↦
          subst (λ x. (is_banned peer now x.1).0 ≡ x.0)
            (sym (record_violation-free o peer v now m f))
            (punish_asked o peer (scored.0 + v) now scored.1 pos (
              ap (JsMap.get peer) (get_score-banned_peers o peer now m1)
              ∙ is_banned_absent peer now m f))
    ]

-- ===== src/PeerMisbehavior/Other.antt =====
-- A call about one peer leaves the others alone.
use aether_web_lite.Prelude.{
  ℕ, ◌+◌, ◌≡◌, Bool, true, false, arith, ◌==◌, not, Option-cases, inl, inr, Option,
}
use aether_web_lite.Prelude.Text.{Text, text_eq}
use aether_web_lite.JsMap
use aether_web_lite.JsMap.Laws.{get-set, get-delete}
use aether_web_lite.PeerMisbehavior.{
  MisbehaviorOptions, PeerScoreRecord, Manager, Op, violates, asks_ban, asks_score, unbans, bans,
  clears, step, record_violation, is_banned, get_score, unban_peer, ban_peer, punish, decayed,
}

-- All that the manager holds on a peer.
abbrev pub file_of : Text → Manager → Option PeerScoreRecord × Option ℕ
file_of q m = (JsMap.get q m.scores, JsMap.get q m.banned_peers)

is_banned_other :
    (peer q : Text) (now : ℕ) (m : Manager)
    → (peer == q) ≡ false
    → file_of q (is_banned peer now m).1 ≡ file_of q m
unfolding is_banned unban_peer
is_banned_other peer q now m ne =
    ground (arith, get-delete peer q m.scores, get-delete peer q m.banned_peers)

get_score_other :
    (o : MisbehaviorOptions) (peer q : Text) (now : ℕ) (m : Manager)
    → (peer == q) ≡ false
    → file_of q (get_score o peer now m).1 ≡ file_of q m
unfolding get_score
get_score_other o peer q now m ne = elim (Option-cases (JsMap.get peer m.scores)) [
  | inl e ↦ ground arith
  | inr (r, e) ↦
      let entry : PeerScoreRecord = record { score = decayed o now r; last_updated = now } in
      ground (arith, get-delete peer q m.scores, get-set peer q entry m.scores)
]

unban_peer_other :
    (peer q : Text) (m : Manager)
    → (peer == q) ≡ false
    → file_of q (unban_peer peer m) ≡ file_of q m
unfolding unban_peer
unban_peer_other peer q m ne =
    ground (arith, get-delete peer q m.scores, get-delete peer q m.banned_peers)

ban_peer_other :
    (peer q : Text) (duration now : ℕ) (m : Manager)
    → (peer == q) ≡ false
    → file_of q (ban_peer peer duration now m) ≡ file_of q m
unfolding ban_peer
ban_peer_other peer q duration now m ne =
    ground (arith, get-delete peer q m.scores, get-set peer q (now + duration) m.banned_peers)

punish_other :
    (o : MisbehaviorOptions) (peer q : Text) (score now : ℕ) (m : Manager)
    → (peer == q) ≡ false
    → file_of q (punish o peer score now m).1 ≡ file_of q m
unfolding punish ban_peer
punish_other o peer q score now m ne =
    let entry : PeerScoreRecord = record { score = score; last_updated = now } in
    ground (
      arith,
      get-delete peer q (JsMap.set peer entry m.scores),
      get-set peer q entry m.scores,
      get-set peer q (now + o.ban_duration_ms) m.banned_peers,
    )

record_violation_other :
    (o : MisbehaviorOptions) (peer q : Text) (v now : ℕ) (m : Manager)
    → (peer == q) ≡ false
    → file_of q (record_violation o peer v now m).1 ≡ file_of q m
unfolding record_violation
record_violation_other o peer q v now m ne =
    let m1 = (is_banned peer now m).1 in
    let scored = get_score o peer now m1 in
    ground (
      arith,
      is_banned_other peer q now m ne,
      get_score_other o peer q now m1 ne,
      punish_other o peer q (scored.0 + v) now scored.1 ne,
    )

-- The call is about another peer than this one.
abbrev pub about_other : Text → Op → Bool
about_other q (violates peer v) = not (peer == q)
about_other q (asks_ban peer) = not (peer == q)
about_other q (asks_score peer) = not (peer == q)
about_other q (unbans peer) = not (peer == q)
about_other q (bans peer duration) = not (peer == q)
about_other q clears = false

false_of_not : (b : Bool) → not b ≡ true → b ≡ false
false_of_not b h = ground arith

-- A call about one peer, whichever it is, changes neither the score nor the ban of another.
pub step_other :
    (o : MisbehaviorOptions) (q : Text) (now : ℕ) (m : Manager) (op : Op)
    → about_other q op ≡ true
    → file_of q (step o now m op) ≡ file_of q m
unfolding step
step_other o q now m (violates peer v) h =
    record_violation_other o peer q v now m (false_of_not (peer == q) h)
step_other o q now m (asks_ban peer) h = is_banned_other peer q now m (false_of_not (peer == q) h)
step_other o q now m (asks_score peer) h =
    get_score_other o peer q now m (false_of_not (peer == q) h)
step_other o q now m (unbans peer) h = unban_peer_other peer q m (false_of_not (peer == q) h)
step_other o q now m (bans peer duration) h =
    ban_peer_other peer q duration now m (false_of_not (peer == q) h)
step_other o q now m clears h = ground arith

-- ===== src/PeerMisbehavior/Ban.antt =====
-- How long a ban lasts, whatever else happens.
use aether_web_lite.Prelude.{
  ℕ, ◌+◌, ◌<◌, ◌≡◌, ap, ◌∙◌, Bool, true, false, some, List, [], ◌∷◌, arith, ltb, ◌==◌, eq_iff, All,
  not,
}
use aether_web_lite.Prelude.Text.{Text, text_eq}
use aether_web_lite.JsMap
use aether_web_lite.JsMap.Laws.{get-set, get-delete, get-set_self}
use aether_web_lite.PeerMisbehavior.{
  MisbehaviorOptions, Manager, Op, violates, asks_ban, asks_score, unbans, bans, clears, step,
  record_violation, is_banned, get_score, unban_peer, ban_peer, punish,
}

-- What a call at a time may be, so that it does not end the ban of a peer before its expiry.
pub data Event : Type 0 where
  at_time : ℕ → Op → Event

-- The call names another peer, or is none of those that change a ban by hand.
abbrev pub spares : Text → Op → Bool
spares peer (violates q v) = true
spares peer (asks_ban q) = true
spares peer (asks_score q) = true
spares peer (unbans q) = not (q == peer)
spares peer (bans q duration) = not (q == peer)
spares peer clears = false

abbrev pub Before : Text → ℕ → Event → Type 0
Before peer expiry (at_time now op) = (now < expiry) × (spares peer op ≡ true)

pub run : MisbehaviorOptions → Manager → List Event → Manager
run o m [] = m
run o m (at_time now op ∷ events) = run o (step o now m op) events

get_score-bans :
    (o : MisbehaviorOptions) (peer : Text) (now : ℕ) (m : Manager)
    → (get_score o peer now m).1.banned_peers ≡ m.banned_peers
unfolding get_score
get_score-bans o peer now m = ground arith

is_banned_keeps :
    (peer q : Text) (now expiry : ℕ) (m : Manager)
    → now < expiry
    → JsMap.get peer m.banned_peers ≡ some expiry
    → JsMap.get peer (is_banned q now m).1.banned_peers ≡ some expiry
unfolding is_banned unban_peer
is_banned_keeps peer q now expiry m lt h =
    ground (arith, get-delete q peer m.banned_peers, eq_iff q peer)

still_banned :
    (peer : Text) (now expiry : ℕ) (m : Manager)
    → now < expiry
    → JsMap.get peer m.banned_peers ≡ some expiry
    → (is_banned peer now m).0 ≡ true
unfolding is_banned
still_banned peer now expiry m lt h = ground arith

punish_keeps :
    (o : MisbehaviorOptions) (peer q : Text) (score now expiry : ℕ) (m : Manager)
    → (q == peer) ≡ false
    → JsMap.get peer m.banned_peers ≡ some expiry
    → JsMap.get peer (punish o q score now m).1.banned_peers ≡ some expiry
unfolding punish ban_peer
punish_keeps o peer q score now expiry m ne h =
    ground (arith, get-set q peer (now + o.ban_duration_ms) m.banned_peers)

record_violation_keeps :
    (o : MisbehaviorOptions) (peer q : Text) (v now expiry : ℕ) (m : Manager)
    → now < expiry
    → JsMap.get peer m.banned_peers ≡ some expiry
    → JsMap.get peer (record_violation o q v now m).1.banned_peers ≡ some expiry
unfolding record_violation
record_violation_keeps o peer q v now expiry m lt h =
    let m1 = (is_banned q now m).1 in
    let kept = is_banned_keeps peer q now expiry m lt h in
    let scored = ap (JsMap.get peer) (get_score-bans o q now m1) ∙ kept in
    ground (
      arith,
      eq_iff q peer,
      kept,
      still_banned peer now expiry m lt h,
      punish_keeps o peer q ((get_score o q now m1).0 + v) now expiry (get_score o q now m1).1,
      scored,
    )

step_keeps :
    (o : MisbehaviorOptions) (peer : Text) (now expiry : ℕ) (m : Manager) (op : Op)
    → now < expiry
    → spares peer op ≡ true
    → JsMap.get peer m.banned_peers ≡ some expiry
    → JsMap.get peer (step o now m op).banned_peers ≡ some expiry
unfolding step unban_peer ban_peer
step_keeps o peer now expiry m (violates q v) lt s h =
    record_violation_keeps o peer q v now expiry m lt h
step_keeps o peer now expiry m (asks_ban q) lt s h = is_banned_keeps peer q now expiry m lt h
step_keeps o peer now expiry m (asks_score q) lt s h =
    ap (JsMap.get peer) (get_score-bans o q now m) ∙ h
step_keeps o peer now expiry m (unbans q) lt s h = ground (arith, get-delete q peer m.banned_peers)
step_keeps o peer now expiry m (bans q duration) lt s h =
    ground (arith, get-set q peer (now + duration) m.banned_peers)
step_keeps o peer now expiry m clears lt s h = ground arith

run_keeps :
    (o : MisbehaviorOptions) (peer : Text) (expiry : ℕ) (m : Manager) (events : List Event)
    → All (Before peer expiry) events
    → JsMap.get peer m.banned_peers ≡ some expiry
    → JsMap.get peer (run o m events).banned_peers ≡ some expiry
unfolding run
run_keeps o peer expiry m [] a h = h
run_keeps o peer expiry m (at_time now op ∷ events) a h =
    run_keeps o peer expiry (step o now m op) events a.1
      (step_keeps o peer now expiry m op a.0.0 a.0.1 h)

-- A peer that is banned for a duration counts as banned exactly until the duration is over,
-- whatever violations, questions, and bans and pardons of other peers come before that time.
pub ban_lasts :
    (o : MisbehaviorOptions) (peer : Text) (start duration now : ℕ) (m : Manager)
    (events : List Event)
    → All (Before peer (start + duration)) events
    → (is_banned peer now (run o (ban_peer peer duration start m) events)).0
      ≡ ltb now (start + duration)
unfolding is_banned ban_peer
ban_lasts o peer start duration now m events a =
    rw
      (
        is_banned,
        run_keeps o peer (start + duration) (ban_peer peer duration start m) events a
            (get-set_self peer (start + duration) m.banned_peers),
      )
      (ground arith)

-- ===== src/SessionManager/Bounds.antt =====
-- The number of sessions stays at the limit or below, one for each id.
use aether_web_lite.Prelude.{ℕ, ◌≤◌, List, [], ◌∷◌, arith, number_key, Option-cases, inl, inr}
use aether_web_lite.Prelude.Text.{Text, text_eq}
use aether_web_lite.JsMap
use aether_web_lite.JsMap.{JsMap}
use aether_web_lite.JsMap.Laws.{has-get, size-set, size-delete-le, Distinct-set, Distinct-delete}
use aether_web_lite.SessionManager.{
  PeerSession, SessionManager, session_of, register_session, on_close, on_pong, cleanup_sessions,
  cleanup_pings, SessionOp, registers, pongs, closes, cleans, step, run,
}

-- One entry for each id, and no more entries than the limit.
abbrev pub Bounded : SessionManager → Type 0
Bounded s = JsMap.Distinct s.sessions × (JsMap.size s.sessions ≤ s.max_sessions)

register_session-Bounded :
    (ws : ℕ) (peer : Text) (now : ℕ) (s : SessionManager)
    → Bounded s
    → Bounded (register_session ws peer now s).1
unfolding register_session
register_session-Bounded ws peer now s b = elim (Option-cases (JsMap.get peer s.sessions)) [
  | inl e ↦
      let new = session_of peer ws now in
      ground (
        arith,
        has-get peer s.sessions,
        size-set peer new s.sessions,
        Distinct-set peer new s.sessions b.0,
      )
  | inr (old, e) ↦
      let new = session_of peer ws now in
      let same : PeerSession = record old { last_active = now } in
      ground (
        arith,
        has-get peer s.sessions,
        size-set peer new s.sessions,
        Distinct-set peer new s.sessions b.0,
        size-set peer same s.sessions,
        Distinct-set peer same s.sessions b.0,
      )
]

on_pong-Bounded :
    (ws : ℕ) (peer : Text) (now : ℕ) (s : SessionManager)
    → Bounded s
    → Bounded (on_pong ws peer now s)
unfolding on_pong
on_pong-Bounded ws peer now s b = elim (Option-cases (JsMap.get peer s.sessions)) [
  | inl e ↦ ground arith
  | inr (old, e) ↦
      let same : PeerSession = record old { last_active = now } in
      ground (
        arith,
        has-get peer s.sessions,
        size-set peer same s.sessions,
        Distinct-set peer same s.sessions b.0,
      )
]

on_close-Bounded :
    (ws : ℕ) (peer : Text) (s : SessionManager) → Bounded s → Bounded (on_close ws peer s)
unfolding on_close
on_close-Bounded ws peer s b =
    ground (arith, size-delete-le peer s.sessions, Distinct-delete peer s.sessions b.0)

cleanup_sessions-Bounded :
    (now : ℕ) (rest : JsMap Text PeerSession) (s : SessionManager)
    → Bounded s
    → Bounded (cleanup_sessions now rest s).1
unfolding cleanup_sessions
cleanup_sessions-Bounded now [] s b = b
cleanup_sessions-Bounded now ((peer, session) ∷ rest) s b = ground (
  arith,
  cleanup_sessions-Bounded now rest s b,
  cleanup_sessions-Bounded now rest (record s { sessions = JsMap.delete peer s.sessions }),
  size-delete-le peer s.sessions,
  Distinct-delete peer s.sessions b.0,
)

step-Bounded : (s : SessionManager) (op : SessionOp) → Bounded s → Bounded (step s op)
unfolding step cleanup_pings
step-Bounded s (registers ws peer now) b = register_session-Bounded ws peer now s b
step-Bounded s (pongs ws peer now) b = on_pong-Bounded ws peer now s b
step-Bounded s (closes ws peer) b = on_close-Bounded ws peer s b
step-Bounded s (cleans now) b = cleanup_sessions-Bounded now s.sessions s b

-- Whatever happens to a manager within its limit, in whatever order, it stays within its limit,
-- and it holds one session at most for each id.
pub run-Bounded : (s : SessionManager) (ops : List SessionOp) → Bounded s → Bounded (run s ops)
unfolding run
run-Bounded s [] b = b
run-Bounded s (op ∷ ops) b = run-Bounded (step s op) ops (step-Bounded s op b)

-- ===== src/SessionManager/Owner.antt =====
-- Which socket holds an id's session, and what may end it.
use aether_web_lite.Prelude.{
  ℕ, ◌≡◌, Bool, true, false, Option, none, some, List, [], ◌∷◌, arith, if◌then◌else◌, ◌==◌,
  number_key, eq_iff, Option-cases, inl, inr, not, ◌||◌, All,
}
use aether_web_lite.Prelude.Text.{Text, text_eq}
use aether_web_lite.JsMap
use aether_web_lite.JsMap.{JsMap}
use aether_web_lite.JsMap.Laws.{get-set, get-delete, has-get}
use aether_web_lite.SessionManager.{
  PeerSession, SessionManager, session_of, register_session, on_close, on_pong, cleanup_sessions,
  cleanup_pings, SessionOp, registers, pongs, closes, cleans, step, run, idle,
}

abbrev pub ws_of : Option PeerSession → Option ℕ
ws_of none = none
ws_of (some session) = some session.ws

abbrev pub owner : Text → SessionManager → Option ℕ
owner peer s = ws_of (JsMap.get peer s.sessions)

-- The operation is neither a cleanup, nor the close of the socket that holds the id, nor a
-- registration of the id by another socket.
abbrev pub keeps : Text → ℕ → SessionOp → Bool
keeps peer ws (registers other p now) = not (p == peer) || other == ws
keeps peer ws (pongs other p now) = true
keeps peer ws (closes other p) = not (p == peer) || not (other == ws)
keeps peer ws (cleans now) = false

owner-register_session :
    (peer p : Text) (ws other now : ℕ) (s : SessionManager)
    → (not (p == peer) || other == ws) ≡ true
    → owner peer s ≡ some ws
    → owner peer (register_session other p now s).1 ≡ some ws
unfolding register_session
owner-register_session peer p ws other now s k h = elim (Option-cases (JsMap.get p s.sessions)) [
  | inl e ↦
      ground
        (arith, get-set p peer (session_of p other now) s.sessions, eq_iff p peer, eq_iff other ws)
  | inr (old, e) ↦
      let same : PeerSession = record old { last_active = now } in
      ground (
        arith,
        get-set p peer (session_of p other now) s.sessions,
        get-set p peer same s.sessions,
        eq_iff p peer,
        eq_iff other ws,
        eq_iff old.ws other,
      )
]

owner-on_pong :
    (peer p : Text) (ws other now : ℕ) (s : SessionManager)
    → owner peer s ≡ some ws
    → owner peer (on_pong other p now s) ≡ some ws
unfolding on_pong
owner-on_pong peer p ws other now s h = elim (Option-cases (JsMap.get p s.sessions)) [
  | inl e ↦ ground arith
  | inr (old, e) ↦
      let same : PeerSession = record old { last_active = now } in
      ground (arith, get-set p peer same s.sessions, eq_iff p peer)
]

owner-on_close :
    (peer p : Text) (ws other : ℕ) (s : SessionManager)
    → (not (p == peer) || not (other == ws)) ≡ true
    → owner peer s ≡ some ws
    → owner peer (on_close other p s) ≡ some ws
unfolding on_close
owner-on_close peer p ws other s k h = elim (Option-cases (JsMap.get p s.sessions)) [
  | inl e ↦ ground arith
  | inr (old, e) ↦
      ground
        (arith, get-delete p peer s.sessions, eq_iff p peer, eq_iff other ws, eq_iff old.ws other)
]

owner-step :
    (peer : Text) (ws : ℕ) (s : SessionManager) (op : SessionOp)
    → keeps peer ws op ≡ true
    → owner peer s ≡ some ws
    → owner peer (step s op) ≡ some ws
unfolding step
owner-step peer ws s (registers other p now) k h = owner-register_session peer p ws other now s k h
owner-step peer ws s (pongs other p now) k h = owner-on_pong peer p ws other now s h
owner-step peer ws s (closes other p) k h = owner-on_close peer p ws other s k h
owner-step peer ws s (cleans now) k h = ground arith

-- A socket that holds an id's session goes on to hold it through any operations that are not a
-- cleanup, its own close or a registration of the id by another socket: the late close of a
-- socket that it replaced does not end it.
pub owner-run :
    (peer : Text) (ws : ℕ) (s : SessionManager) (ops : List SessionOp)
    → All (λ op. keeps peer ws op ≡ true) ops
    → owner peer s ≡ some ws
    → owner peer (run s ops) ≡ some ws
unfolding run
owner-run peer ws s [] a h = h
owner-run peer ws s (op ∷ ops) a h =
    owner-run peer ws (step s op) ops a.1 (owner-step peer ws s op a.0 h)

-- What the cleanup leaves of an entry.
abbrev pub unless_idle : ℕ → SessionManager → Option PeerSession → Option PeerSession
unless_idle now s none = none
unless_idle now s (some session) = if idle now session s then none else some session

abbrev rest_idle : ℕ → SessionManager → Option PeerSession → Bool
rest_idle now s none = false
rest_idle now s (some session) = idle now session s

get-cleanup_sessions :
    (peer : Text) (now : ℕ) (rest : JsMap Text PeerSession) (s : SessionManager)
    → JsMap.Distinct rest
    → JsMap.get peer (cleanup_sessions now rest s).1.sessions
      ≡ (if rest_idle now s (JsMap.get peer rest) then none else JsMap.get peer s.sessions)
unfolding cleanup_sessions JsMap.get
get-cleanup_sessions peer now [] s d = ground arith
get-cleanup_sessions peer now ((p, session) ∷ rest) s d =
    let without : SessionManager = record s { sessions = JsMap.delete p s.sessions } in
    ground (
      arith,
      get-cleanup_sessions peer now rest s d.1,
      get-cleanup_sessions peer now rest without d.1,
      get-delete p peer s.sessions,
      has-get p rest,
      eq_iff p peer,
    )

-- A cleanup ends exactly the sessions that were silent for longer than the limit, and leaves the
-- others as they were, when the manager holds one session at most for each id.
pub get-cleanup_pings :
    (peer : Text) (now : ℕ) (s : SessionManager)
    → JsMap.Distinct s.sessions
    → JsMap.get peer (cleanup_pings now s).1.sessions
      ≡ unless_idle now s (JsMap.get peer s.sessions)
unfolding cleanup_pings
get-cleanup_pings peer now s d = ground (arith, get-cleanup_sessions peer now s.sessions s d)

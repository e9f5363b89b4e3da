-- ===== src/SessionManager.antt =====
-- packages/tracker/src/SessionManager.ts: the tracker's registered nodes. A WebSocket is the
-- number that tells it from the others; what is done to it is an effect. Time is an argument.
-- The listeners that a registration installs are the operations on_close and on_pong, at the
-- socket and the id they were installed for.
pub mod Bounds
pub mod Owner
pub mod Sample
pub mod Tests
use aether_web_lite.Prelude.{
  ℕ, zero, suc, ◌+◌, ◌-◌, Bool, true, false, not, Option, none, some, List, [], ◌∷◌, ltb, leb,
  if◌then◌else◌, ◌==◌, number_key, length, take, get_elem?, keep_if, map,
}
use aether_web_lite.Prelude.Text.{Text, text_eq}
use aether_web_lite.JsMap
use aether_web_lite.JsMap.{JsMap}

pub record PeerSession : Type 0 where
  pub peer_id : Text
  pub ws : ℕ
  pub last_active : ℕ

pub record SessionManager : Type 0 where
  pub sessions : JsMap Text PeerSession
  pub max_sessions : ℕ
  pub idle_timeout_ms : ℕ

-- `{ ok: true, replaced }` or `{ ok: false, reason: 'capacity' }`.
pub data RegisterResult : Type 0 where
  registered : Option ℕ → RegisterResult
  capacity : RegisterResult

pub data SocketEffect : Type 0 where
  terminate ping : ℕ → SocketEffect

abbrev pub put_session : PeerSession → SessionManager → SessionManager
put_session session s = record s { sessions = JsMap.set session.peer_id session s.sessions }

abbrev pub session_of : Text → ℕ → ℕ → PeerSession
session_of peer ws now = record { peer_id = peer; ws = ws; last_active = now }

-- The session object is changed in place, so it keeps its own `peerId`.
abbrev pub refresh : Text → ℕ → PeerSession → SessionManager → SessionManager
refresh peer now session s = record s {
  sessions = JsMap.set peer (record session { last_active = now }) s.sessions;
}

unfoldable pub register_session : ℕ → Text → ℕ → SessionManager → RegisterResult × SessionManager
register_session ws peer now s = elim (JsMap.get peer s.sessions) [
  | none ↦
      if leb s.max_sessions (JsMap.size s.sessions)
      then (capacity, s)
      else (registered none, put_session (session_of peer ws now) s)
  | some existing ↦
      if existing.ws == ws
      then (registered none, refresh peer now existing s)
      else (registered (some existing.ws), put_session (session_of peer ws now) s)
]

-- The `close` listener.
unfoldable pub on_close : ℕ → Text → SessionManager → SessionManager
on_close ws peer s = elim (JsMap.get peer s.sessions) [
  | none ↦ s
  | some current ↦
      if current.ws == ws then record s { sessions = JsMap.delete peer s.sessions } else s
]

-- The `pong` listener.
unfoldable pub on_pong : ℕ → Text → ℕ → SessionManager → SessionManager
on_pong ws peer now s = elim (JsMap.get peer s.sessions) [
  | none ↦ s
  | some session ↦ if session.ws == ws then refresh peer now session s else s
]

-- `list[i] = a`, at a place that is there.
unfoldable pub set_elem : ℕ → Text → List Text → List Text
set_elem i a [] = []
set_elem zero a (x ∷ xs) = a ∷ xs
set_elem (suc i) a (x ∷ xs) = x ∷ set_elem i a xs

-- `[ids[i], ids[j]] = [ids[j], ids[i]]`. Both places are there when `randomInt(n)` is below n.
unfoldable pub swap : ℕ → ℕ → List Text → List Text
swap i j ids = elim (get_elem? ids i) [
  | none ↦ ids
  | some a ↦ elim (get_elem? ids j) [ none ↦ ids | some b ↦ set_elem j a (set_elem i b ids) ]
]

-- The Fisher-Yates loop from i down to 1; `random_int n` is what the call with n returns.
unfoldable pub shuffle : (ℕ → ℕ) → ℕ → List Text → List Text
shuffle random_int zero ids = ids
shuffle random_int (suc i) ids = shuffle random_int i (swap (suc i) (random_int (suc i + 1)) ids)

unfoldable pub get_random_peers : Text → ℕ → (ℕ → ℕ) → SessionManager → List Text
get_random_peers exclude max_peers random_int s =
    let ids = keep_if (λ id. not (id == exclude)) (JsMap.keys s.sessions) in
    take max_peers (shuffle random_int (length ids - 1) ids)

abbrev pub idle : ℕ → PeerSession → SessionManager → Bool
idle now session s = ltb s.idle_timeout_ms (now - session.last_active)

-- The loop over the entries, with its effects.
unfoldable pub cleanup_sessions :
    ℕ → JsMap Text PeerSession → SessionManager → List SocketEffect × SessionManager
cleanup_sessions now [] s = ([], s)
cleanup_sessions now ((peer, session) ∷ rest) s =
    let gone = cleanup_sessions now rest (record s { sessions = JsMap.delete peer s.sessions }) in
    let kept = cleanup_sessions now rest s in
    if idle now session s
    then (terminate session.ws ∷ gone.0, gone.1)
    else (ping session.ws ∷ kept.0, kept.1)

unfoldable pub cleanup_pings : ℕ → SessionManager → List SocketEffect × SessionManager
cleanup_pings now s = cleanup_sessions now s.sessions s

unfoldable pub destroy : SessionManager → List SocketEffect × SessionManager
destroy s =
    (map (λ session. terminate session.ws) (JsMap.values s.sessions), record s { sessions = [] })

-- What happens to the manager, each at its time.
pub data SessionOp : Type 0 where
  registers pongs : ℕ → Text → ℕ → SessionOp
  closes : ℕ → Text → SessionOp
  cleans : ℕ → SessionOp

unfoldable pub step : SessionManager → SessionOp → SessionManager
step s (registers ws peer now) = (register_session ws peer now s).1
step s (pongs ws peer now) = on_pong ws peer now s
step s (closes ws peer) = on_close ws peer s
step s (cleans now) = (cleanup_pings now s).1

pub run : SessionManager → List SessionOp → SessionManager
run s [] = s
run s (op ∷ ops) = run (step s op) ops

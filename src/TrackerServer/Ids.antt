-- ===== src/TrackerServer/Ids.antt =====
-- Which connections the tracker takes for which node, and what leaves that alone.
use aether_web_lite.Prelude.{
  ℕ, ◌+◌, ◌≡◌, refl, subst, true, false, Option, none, some, List, [], ◌∷◌, ◌++◌, map, arith,
  number_key, eq_iff, Option-cases, inl, inr,
}
use aether_web_lite.Prelude.Text.{Text, text_eq}
use aether_web_lite.JsMap
use aether_web_lite.JsMap.{JsMap}
use aether_web_lite.JsMap.Laws.{get-set, get-delete}
use aether_web_lite.Bytes.{Bytes}
use aether_web_lite.Json.{Fields}
use aether_web_lite.NodeIdentity.{Sodium}
use aether_web_lite.SessionManager.{SocketEffect, terminate, ping, cleanup_pings, destroy}
use aether_web_lite.TrackerServer.{
  Connection, TrackerServer, shut, put_connection, reject, accept, release, new_connection,
}
use aether_web_lite.TrackerServer.Handlers.{
  disown, retire, forward, handle_relay, greet, handshake_timeout, end_session, closed, pong,
  apply_effects, maintain, shutdown,
}

abbrev pub id_in : Option Connection → Option Text
id_in none = none
id_in (some conn) = conn.peer_id

-- The id for which the tracker takes a socket.
abbrev pub id_of : ℕ → TrackerServer → Option Text
id_of ws s = id_in (JsMap.get ws s.connections)

-- No socket is taken for a node that it was not taken for.
abbrev pub NoNewIds : TrackerServer → TrackerServer → Type 0
NoNewIds s t = (v : ℕ) (p : Text) → id_of v t ≡ some p → id_of v s ≡ some p

pub put_connection-NoNewIds :
    (ws : ℕ) (old new : Connection) (s : TrackerServer)
    → JsMap.get ws s.connections ≡ some old
    → ((p : Text) → new.peer_id ≡ some p → old.peer_id ≡ some p)
    → NoNewIds s (put_connection ws new s)
put_connection-NoNewIds ws old new s e h v p i =
    ground (arith, get-set ws v new s.connections, eq_iff ws v, h p)

disown-NoNewIds : (old : ℕ) (s : TrackerServer) → NoNewIds s (disown old s)
unfolding disown
disown-NoNewIds old s v p i = elim (Option-cases (JsMap.get old s.connections)) [
  | inl e ↦ ground (arith, i)
  | inr (conn, e) ↦
      let none_left : Connection = record conn { peer_id = none } in
      ground (arith, i, get-set old v none_left s.connections, eq_iff old v)
]

pub retire-NoNewIds : (ws : ℕ) (old : Option ℕ) (s : TrackerServer) → NoNewIds s (retire ws old s).1
unfolding retire
retire-NoNewIds ws none s v p i = i
retire-NoNewIds ws (some old) s v p i = ground (arith, disown-NoNewIds old s v p)

pub accept-NoNewIds :
    (ws : ℕ) (address : Text) (header : Option Text) (s : TrackerServer)
    → NoNewIds s (accept ws address header s).1
unfolding accept reject
accept-NoNewIds ws address header s v p i =
    let conn = new_connection (s.conn_seq + 1) header address in
    ground (arith, i, get-set ws v conn s.connections, eq_iff ws v)

apply_effects-connections :
    (es : List SocketEffect) (s : TrackerServer)
    → (apply_effects es s).1.connections ≡ s.connections
unfolding apply_effects
apply_effects-connections [] s = refl
apply_effects-connections (terminate ws ∷ es) s = apply_effects-connections es (shut ws s)
apply_effects-connections (ping ws ∷ es) s = apply_effects-connections es s

same_connections-NoNewIds : (s t : TrackerServer) → t.connections ≡ s.connections → NoNewIds s t
same_connections-NoNewIds s t e v p i = subst (λ m. id_in (JsMap.get v m) ≡ some p) e i

pub maintain-NoNewIds : (now : ℕ) (s : TrackerServer) → NoNewIds s (maintain now s).1
unfolding maintain
maintain-NoNewIds now s =
    let (effects, sessions) = cleanup_pings now s.sessions in
    let s1 : TrackerServer = record s { sessions = sessions } in
    same_connections-NoNewIds s (apply_effects effects s1).1 (apply_effects-connections effects s1)

pub shutdown-NoNewIds : (s : TrackerServer) → NoNewIds s (shutdown s).1
unfolding shutdown JsMap.get
shutdown-NoNewIds s v p i =
    let effects = map terminate (JsMap.keys s.connections) ++ (destroy s.sessions).0 in
    let emptied : TrackerServer = record s {
      stopped = true;
      connections = [];
      per_address = [];
      sessions = (destroy s.sessions).1;
    } in
    let gone = apply_effects-connections effects emptied in ground (arith, i, gone)

pub greet-NoNewIds :
    (sodium : Sodium) (ws : ℕ) (nonce : Bytes) (s : TrackerServer)
    → NoNewIds s (greet sodium ws nonce s).1
unfolding greet
greet-NoNewIds sodium ws nonce s v p i = elim (Option-cases (JsMap.get ws s.connections)) [
  | inl e ↦ ground (arith, i)
  | inr (conn, e) ↦
      let greeted : Connection = record conn { nonce = nonce } in
      ground (arith, i, put_connection-NoNewIds ws conn greeted s e (λ q h. h) v p)
]

pub handshake_timeout-NoNewIds :
    (ws : ℕ) (s : TrackerServer) → NoNewIds s (handshake_timeout ws s).1
unfolding handshake_timeout reject
handshake_timeout-NoNewIds ws s v p i = elim (Option-cases (JsMap.get ws s.connections)) [
  | inl e ↦ ground (arith, i)
  | inr (conn, e) ↦
      let fired : Connection = record conn { handshake_timer = false } in
      ground (arith, i, put_connection-NoNewIds ws conn fired s e (λ q h. h) v p)
]

end_session-connections :
    (ws : ℕ) (peer : Option Text) (s : TrackerServer)
    → (end_session ws peer s).connections ≡ s.connections
unfolding end_session
end_session-connections ws none s = refl
end_session-connections ws (some peer) s = refl

pub closed-NoNewIds : (ws : ℕ) (s : TrackerServer) → NoNewIds s (closed ws s)
unfolding closed release
closed-NoNewIds ws s v p i = elim (Option-cases (JsMap.get ws s.connections)) [
  | inl e ↦ ground (arith, i)
  | inr (conn, e) ↦
      let ended = end_session-connections ws conn.listens (release ws (shut ws s)) in
      ground (arith, i, ended, get-delete ws v s.connections, eq_iff ws v)
]

pub pong-NoNewIds : (ws now : ℕ) (s : TrackerServer) → NoNewIds s (pong ws now s)
unfolding pong
pong-NoNewIds ws now s v p i = elim (Option-cases (JsMap.get ws s.connections)) [
  | inl e ↦ ground (arith, i)
  | inr (conn, e) ↦ ground (arith, i)
]

pub handle_relay-connections :
    (ws : ℕ) (conn : Connection) (target : Text) (payload : Fields) (now : ℕ) (s : TrackerServer)
    → (handle_relay ws conn target payload now s).1.connections ≡ s.connections
unfolding handle_relay forward reject
handle_relay-connections ws conn target payload now s = ground arith

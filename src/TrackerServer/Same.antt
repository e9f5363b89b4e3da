-- ===== src/TrackerServer/Same.antt =====
-- The handlers of messages and timers leave the addresses and their counts as they are.
use aether_web_lite.Prelude.{
  ℕ, ◌≡◌, refl, ◌∙◌, true, false, not, includes, keep_if, eq_iff, Option, none, some, List, [], ◌∷◌,
  arith, ◌==◌, number_key, Option-cases, Bool-cases, inl, inr,
}
use aether_web_lite.Prelude.Text.{Text, text, text_eq}
use aether_web_lite.JsMap
use aether_web_lite.JsMap.{JsMap}
use aether_web_lite.JsMap.Laws.{get-set, get-set_self, Distinct-set}
use aether_web_lite.Json.{Json, Fields}
use aether_web_lite.RateLimiter.{RateLimiter, allow}
use aether_web_lite.SessionManager.{
  SessionManager, SocketEffect, terminate, ping, RegisterResult, registered, capacity,
  register_session, cleanup_pings, on_close, on_pong,
}
use aether_web_lite.NodeIdentity.{Sodium}
use aether_web_lite.Bytes.{Bytes}
use aether_web_lite.TrackerProtocol.{
  TrackerErrorCode, at_capacity, bad_signature, bad_message, unsupported_version, bad_host,
  invalid_identity, not_joined, timed_out, TrackerJoin, TrackerClientMessage, join, relay_out,
}
use aether_web_lite.TrackerServer.{Connection, TrackerServer, shut, is_open, put_connection, reject}
use aether_web_lite.TrackerServer.Handlers.{
  disown, retire, as_joined, enter, check_signature, check_join, handle_join, forward, handle_relay,
  dispatch, message_in, handle_message, greet, handshake_timeout, end_session, pong, apply_effects,
  maintain,
}

abbrev pub addresses : JsMap ℕ Connection → List Text
addresses [] = []
addresses ((ws, conn) ∷ m) = conn.address ∷ addresses m

pub addresses-set :
    (ws : ℕ) (old new : Connection) (m : JsMap ℕ Connection)
    → JsMap.get ws m ≡ some old
    → new.address ≡ old.address
    → addresses (JsMap.set ws new m) ≡ addresses m
unfolding JsMap.get JsMap.set
addresses-set ws old new [] h e = cc
addresses-set ws old new ((w, conn) ∷ m) h e = ground (arith, addresses-set ws old new m)

abbrev pub address_in : Option Connection → Option Text
address_in none = none
address_in (some conn) = some conn.address

-- The address of a socket's entry, if it has one.
abbrev pub address_of : ℕ → TrackerServer → Option Text
address_of ws s = address_in (JsMap.get ws s.connections)

pub address_of-set :
    (ws v : ℕ) (old new : Connection) (m : JsMap ℕ Connection)
    → JsMap.get ws m ≡ some old
    → new.address ≡ old.address
    → address_in (JsMap.get v (JsMap.set ws new m)) ≡ address_in (JsMap.get v m)
address_of-set ws v old new m h e = ground (arith, get-set ws v new m, eq_iff ws v, h, e)

pub open-shut :
    (ws v : ℕ) (open_ones : List ℕ)
    → includes v (keep_if (λ w. not (w == ws)) open_ones) ≡ true
    → (includes v open_ones ≡ true) × ((ws == v) ≡ false)
open-shut ws v [] h = cc
open-shut ws v (w ∷ open_ones) h =
    ground (arith, open-shut ws v open_ones, eq_iff w v, eq_iff w ws, eq_iff ws v)

pub record Same (s t : TrackerServer) : Type 0 where
  pub counts : t.per_address ≡ s.per_address
  pub limit : t.max_connections_per_address ≡ s.max_connections_per_address
  pub from : addresses t.connections ≡ addresses s.connections
  pub distinct : JsMap.Distinct s.connections → JsMap.Distinct t.connections
  pub open_before : (v : ℕ) → is_open v t ≡ true → is_open v s ≡ true
  pub places : (v : ℕ) → address_of v t ≡ address_of v s

pub Same-refl : (s : TrackerServer) → Same s s
Same-refl s = record {
  counts = refl;
  limit = refl;
  from = refl;
  distinct = λ d. d;
  open_before = λ v h. h;
  places = λ v. refl;
}

pub Same-trans : (s t u : TrackerServer) → Same s t → Same t u → Same s u
Same-trans s t u a b = record {
  counts = b.counts ∙ a.counts;
  limit = b.limit ∙ a.limit;
  from = b.from ∙ a.from;
  distinct = λ d. b.distinct (a.distinct d);
  open_before = λ v h. a.open_before v (b.open_before v h);
  places = λ v. b.places v ∙ a.places v;
}

put_connection-Same :
    (ws : ℕ) (old new : Connection) (s : TrackerServer)
    → JsMap.get ws s.connections ≡ some old
    → new.address ≡ old.address
    → Same s (put_connection ws new s)
put_connection-Same ws old new s h e = record {
  counts = refl;
  limit = refl;
  from = addresses-set ws old new s.connections h e;
  distinct = Distinct-set ws new s.connections;
  open_before = λ v h. h;
  places = λ v. address_of-set ws v old new s.connections h e;
}

pub reject-Same :
    (ws : ℕ) (code : TrackerErrorCode) (s : TrackerServer) → Same s (reject ws code s).1
unfolding reject
reject-Same ws code s = record {
  counts = refl;
  limit = refl;
  from = refl;
  distinct = λ d. d;
  open_before = λ v h. (open-shut ws v s.open_sockets h).0;
  places = λ v. refl;
}

pub shut-Same : (ws : ℕ) (s t : TrackerServer) → Same s t → Same s (shut ws t)
shut-Same ws s t a = record {
  counts = a.counts;
  limit = a.limit;
  from = a.from;
  distinct = a.distinct;
  open_before = λ v h. a.open_before v (open-shut ws v t.open_sockets h).0;
  places = a.places;
}

-- What the tracker is told of its sessions, its limiter and its sockets is no matter of addresses.
with_sessions : (m : SessionManager) (s : TrackerServer) → Same s (record s { sessions = m })
with_sessions m s = record {
  counts = refl;
  limit = refl;
  from = refl;
  distinct = λ d. d;
  open_before = λ v h. h;
  places = λ v. refl;
}

with_limiter : (m : RateLimiter) (s : TrackerServer) → Same s (record s { rate_limiter = m })
with_limiter m s = record {
  counts = refl;
  limit = refl;
  from = refl;
  distinct = λ d. d;
  open_before = λ v h. h;
  places = λ v. refl;
}

disown-Same : (old : ℕ) (s : TrackerServer) → Same s (disown old s)
unfolding disown
disown-Same old s = elim (Option-cases (JsMap.get old s.connections)) [
  | inl e ↦ rw (e, disown) (Same-refl s)
  | inr (conn, e) ↦
      rw (e, disown) (put_connection-Same old conn (record conn { peer_id = none }) s e refl)
]

retire-Same : (ws : ℕ) (old : Option ℕ) (s : TrackerServer) → Same s (retire ws old s).1
unfolding retire
retire-Same ws none s = Same-refl s
retire-Same ws (some old) s = elim (Bool-cases (old == ws)) [
  | inl e ↦ rw (e, retire) (Same-refl s)
  | inr e ↦ rw (e, retire) (shut-Same old s (disown old s) (disown-Same old s))
]

module _ (sodium : Sodium) (random_int : ℕ → ℕ) where
  enter-Same :
      (ws : ℕ) (conn : Connection) (peer : Text) (r : RegisterResult × SessionManager)
      (s : TrackerServer)
      → JsMap.get ws s.connections ≡ some conn
      → Same s (enter sodium random_int ws conn peer r s).1
  unfolding enter
  enter-Same ws conn peer (capacity, m) s h = reject-Same ws at_capacity s
  enter-Same ws conn peer (registered replaced, m) s h =
      let s1 : TrackerServer =
        put_connection ws (as_joined peer conn) (record s { sessions = m }) in
      Same-trans s s1 (retire ws replaced s1).1
        (Same-trans s (record s { sessions = m }) s1 (with_sessions m s)
          (put_connection-Same ws conn (as_joined peer conn) (record s { sessions = m }) h refl))
        (retire-Same ws replaced s1)

  check_signature-Same :
      (ws : ℕ) (conn : Connection) (m : TrackerJoin) (now : ℕ) (s : TrackerServer)
      → JsMap.get ws s.connections ≡ some conn
      → Same s (check_signature sodium random_int ws conn m now s).1
  unfolding check_signature
  check_signature-Same ws conn m now s h =
      let used : Connection = record conn { nonce = [] } in
      let s1 : TrackerServer = put_connection ws used s in
      let first = put_connection-Same ws conn used s h refl in
      let entered =
        enter-Same ws used m.peer_id (register_session ws m.peer_id now s1.sessions) s1
          (get-set_self ws used s.connections) in
      ground (
        arith,
        first,
        Same-trans s s1 (reject ws bad_signature s1).1 first (reject-Same ws bad_signature s1),
        Same-trans s s1 _ first entered,
      )

  check_join-Same :
      (ws : ℕ) (conn : Connection) (m : TrackerJoin) (now : ℕ) (s : TrackerServer)
      → JsMap.get ws s.connections ≡ some conn
      → Same s (check_join sodium random_int ws conn m now s).1
  unfolding check_join
  check_join-Same ws conn m now s h = ground (
    arith,
    Same-refl s,
    reject-Same ws bad_message s,
    reject-Same ws unsupported_version s,
    reject-Same ws bad_host s,
    reject-Same ws invalid_identity s,
    check_signature-Same ws conn m now s h,
  )

  handle_join-Same :
      (ws : ℕ) (conn : Connection) (m : TrackerJoin) (now : ℕ) (s : TrackerServer)
      → JsMap.get ws s.connections ≡ some conn
      → Same s (handle_join sodium random_int ws conn m now s).1
  unfolding handle_join
  handle_join-Same ws conn m now s h =
      let limiter = (allow conn.id (text "join") now s.rate_limiter).1 in
      let s1 : TrackerServer = record s { rate_limiter = limiter } in
      let first = with_limiter limiter s in
      ground (arith, first, Same-trans s s1 _ first (check_join-Same ws conn m now s1 h))

forward-Same :
    (sender target : Text) (payload : Fields) (s : TrackerServer)
    → Same s (forward sender target payload s).1
unfolding forward
forward-Same sender target payload s = ground (arith, Same-refl s)

handle_relay-Same :
    (ws : ℕ) (conn : Connection) (target : Text) (payload : Fields) (now : ℕ) (s : TrackerServer)
    → Same s (handle_relay ws conn target payload now s).1
unfolding handle_relay
handle_relay-Same ws conn target payload now s =
    let limiter = (allow conn.id (text "relay") now s.rate_limiter).1 in
    let s1 : TrackerServer = record s { rate_limiter = limiter } in
    let first = with_limiter limiter s in
    elim (Option-cases conn.peer_id) [
      | inl e ↦ rw (e, handle_relay) (reject-Same ws not_joined s)
      | inr (sender, e) ↦
          ground (arith, first, Same-trans s s1 _ first (forward-Same sender target payload s1))
    ]

pub end_session-Same :
    (ws : ℕ) (peer : Option Text) (s : TrackerServer) → Same s (end_session ws peer s)
unfolding end_session
end_session-Same ws none s = Same-refl s
end_session-Same ws (some peer) s = with_sessions (on_close ws peer s.sessions) s

pub pong-Same : (ws now : ℕ) (s : TrackerServer) → Same s (pong ws now s)
unfolding pong
pong-Same ws now s = elim (Option-cases (JsMap.get ws s.connections)) [
  | inl e ↦ rw (e, pong) (Same-refl s)
  | inr (conn, e) ↦ elim (Option-cases conn.listens) [
    | inl l ↦ rw (e, l, pong) (Same-refl s)
    | inr (peer, l) ↦ rw (e, l, pong) (with_sessions (on_pong ws peer now s.sessions) s)
  ]
]

pub apply_effects-Same :
    (es : List SocketEffect) (s : TrackerServer) → Same s (apply_effects es s).1
unfolding apply_effects
apply_effects-Same [] s = Same-refl s
apply_effects-Same (terminate ws ∷ es) s =
    Same-trans s (shut ws s) (apply_effects es (shut ws s)).1 (shut-Same ws s s (Same-refl s))
      (apply_effects-Same es (shut ws s))
apply_effects-Same (ping ws ∷ es) s = apply_effects-Same es s

pub maintain-Same : (now : ℕ) (s : TrackerServer) → Same s (maintain now s).1
unfolding maintain
maintain-Same now s =
    let (effects, sessions) = cleanup_pings now s.sessions in
    let s1 : TrackerServer = record s { sessions = sessions } in
    Same-trans s s1 (apply_effects effects s1).1 (with_sessions sessions s)
      (apply_effects-Same effects s1)

pub handshake_timeout-Same : (ws : ℕ) (s : TrackerServer) → Same s (handshake_timeout ws s).1
unfolding handshake_timeout
handshake_timeout-Same ws s = elim (Option-cases (JsMap.get ws s.connections)) [
  | inl e ↦ rw (e, handshake_timeout) (Same-refl s)
  | inr (conn, e) ↦
      let fired : Connection = record conn { handshake_timer = false } in
      let s1 : TrackerServer = put_connection ws fired s in
      let first = put_connection-Same ws conn fired s e refl in
      ground (
        arith,
        Same-refl s,
        first,
        Same-trans s s1 (reject ws timed_out s1).1 first (reject-Same ws timed_out s1),
      )
]

pub greet-Same :
    (sodium : Sodium) (ws : ℕ) (nonce : Bytes) (s : TrackerServer)
    → Same s (greet sodium ws nonce s).1
unfolding greet
greet-Same sodium ws nonce s = elim (Option-cases (JsMap.get ws s.connections)) [
  | inl e ↦ rw (e, greet) (Same-refl s)
  | inr (conn, e) ↦
      let first = put_connection-Same ws conn (record conn { nonce = nonce }) s e refl in
      ground (arith, Same-refl s, first)
]

module _ (sodium : Sodium) (random_int : ℕ → ℕ) (json_parse : Text → Option Json) where
  dispatch-Same :
      (ws : ℕ) (conn : Connection) (m : Option TrackerClientMessage) (now : ℕ) (s : TrackerServer)
      → JsMap.get ws s.connections ≡ some conn
      → Same s (dispatch sodium random_int json_parse ws conn m now s).1
  unfolding dispatch
  dispatch-Same ws conn none now s h = reject-Same ws bad_message s
  dispatch-Same ws conn (some (join m)) now s h =
      handle_join-Same sodium random_int ws conn m now s h
  dispatch-Same ws conn (some (relay_out target payload)) now s h =
      handle_relay-Same ws conn target payload now s

  pub handle_message-Same :
      (ws : ℕ) (raw : Option Text) (now : ℕ) (s : TrackerServer)
      → Same s (handle_message sodium random_int json_parse ws raw now s).1
  unfolding handle_message
  handle_message-Same ws raw now s = elim (Option-cases (JsMap.get ws s.connections)) [
    | inl e ↦ rw (e, handle_message) (Same-refl s)
    | inr (conn, e) ↦
        rw (e, handle_message) (dispatch-Same ws conn (message_in json_parse raw) now s e)
  ]

-- ===== src/TrackerServer/Handlers.antt =====
-- packages/tracker/src/TrackerServer.ts: what the tracker does with a message, a timer, the close
-- of a socket and its own end.
use aether_web_lite.Prelude.{
  ℕ, Bool, true, false, not, Option, none, some, List, [], ◌∷◌, ◌++◌, nat_beq, if◌then◌else◌, ◌==◌,
  number_key, includes, map, is_some, length, ◌>>=◌,
}
use aether_web_lite.Prelude.Text.{Text, text, text_eq}
use aether_web_lite.JsMap
use aether_web_lite.JsMap.{JsMap}
use aether_web_lite.Bytes.{Bytes}
use aether_web_lite.Json.{ℤ, pos, negsuc, Json, Fields}
use aether_web_lite.PowPolicy.{int}
use aether_web_lite.RateLimiter.{allow}
use aether_web_lite.SessionManager.{
  SocketEffect, terminate, ping, registered, capacity, register_session, on_close, on_pong,
  cleanup_pings, destroy, get_random_peers, SessionManager, RegisterResult,
}
use aether_web_lite.NodeIdentity.{
  Sodium, NodeClaim, verify_claim, signed_message, tracker_join_message,
}
use aether_web_lite.TrackerProtocol.{
  TrackerJoin, TrackerClientMessage, join, relay_out, hello, peers, relay_in, bad_message,
  unsupported_version, invalid_identity, bad_signature, bad_host, rate_limited, at_capacity,
  not_joined, timed_out, tracker_protocol_version, normalize_host_header, raw_text,
  parse_tracker_client_message,
}
use aether_web_lite.TrackerServer.{
  Connection, TrackerServer, Effect, closes, terminates, pings, shut, is_open, send, send_error,
  reject, release, put_connection,
}

abbrev pub is_version : ℤ → Bool
is_version (pos n) = nat_beq n tracker_protocol_version
is_version (negsuc n) = false

-- `claimedHost !== null && (allowedHosts ? allowedHosts.has(claimedHost) : claimedHost === host)`
abbrev pub host_ok : Option Text → Option (List Text) → Option Text → Bool
host_ok none allowed host = false
host_ok (some claimed) (some hosts) host = includes claimed hosts
host_ok (some claimed) none none = false
host_ok (some claimed) none (some host) = claimed == host

-- `if (old) old.peerId = null`
unfoldable pub disown : ℕ → TrackerServer → TrackerServer
disown old s = elim (JsMap.get old s.connections) [
  | none ↦ s
  | some conn ↦ put_connection old (record conn { peer_id = none }) s
]

-- The older connection of the same node, which is closed.
unfoldable pub retire : ℕ → Option ℕ → TrackerServer → List Effect × TrackerServer
retire ws none s = ([], s)
retire ws (some old) s = if old == ws then ([], s) else (closes old ∷ [], shut old (disown old s))

abbrev pub as_joined : Text → Connection → Connection
as_joined peer conn = record conn {
  peer_id = some peer;
  handshake_timer = false;
  listens = some peer;
}

module _ (sodium : Sodium) where
  abbrev pub claim_in : TrackerJoin → NodeClaim
  claim_in m = record {
    peer_id = m.peer_id;
    pubkey = sodium.from_hex m.pubkey;
    pow_counter = int m.pow_counter;
  }

  abbrev pub is_signed : Bytes → TrackerJoin → Bool
  is_signed nonce m =
      signed_message sodium (sodium.from_hex m.sig) (sodium.from_hex m.pubkey)
        (tracker_join_message nonce m.peer_id m.host)

module _ (sodium : Sodium) (random_int : ℕ → ℕ) where
  -- What follows the checks: the session, the older connection, and the sample of peers.
  unfoldable pub enter :
      ℕ
      → Connection
      → Text
      → RegisterResult × SessionManager
      → TrackerServer
      → List Effect × TrackerServer
  enter ws conn peer (capacity, sessions) s = reject ws at_capacity s
  enter ws conn peer (registered replaced, sessions) s =
      let s1 : TrackerServer =
        put_connection ws (as_joined peer conn) (record s { sessions = sessions }) in
      let (closed, s2) = retire ws replaced s1 in
      let sample = get_random_peers peer s2.peers_per_join random_int s2.sessions in
      (closed ++ send ws (peers sample) s2, s2)

  -- The signature and the nonce, which is used up whatever comes of it.
  unfoldable pub check_signature :
      ℕ → Connection → TrackerJoin → ℕ → TrackerServer → List Effect × TrackerServer
  check_signature ws conn m now s0 =
      let used : Connection = record conn { nonce = [] } in
      let s : TrackerServer = put_connection ws used s0 in
      if not (is_signed sodium conn.nonce m)
      then reject ws bad_signature s
      else if not (is_open ws s)
      then ([], s)
      else enter ws used m.peer_id (register_session ws m.peer_id now s.sessions) s

  -- The checks behind the rate limit.
  unfoldable pub check_join :
      ℕ → Connection → TrackerJoin → ℕ → TrackerServer → List Effect × TrackerServer
  check_join ws conn m now s =
      if is_some conn.peer_id
      then (send_error ws bad_message s, s)
      else if nat_beq (length conn.nonce) 0
      then reject ws bad_message s
      else if not (is_version m.v)
      then reject ws unsupported_version s
      else if not (host_ok (normalize_host_header (some m.host)) s.allowed_hosts conn.host)
      then reject ws bad_host s
      else if not (verify_claim sodium (claim_in sodium m) s.pow_params)
      then reject ws invalid_identity s
      else check_signature ws conn m now s

  unfoldable pub handle_join :
      ℕ → Connection → TrackerJoin → ℕ → TrackerServer → List Effect × TrackerServer
  handle_join ws conn m now before =
      let (allowed, limiter) = allow conn.id (text "join") now before.rate_limiter in
      let s : TrackerServer = record before { rate_limiter = limiter } in
      if not allowed then (send_error ws rate_limited s, s) else check_join ws conn m now s

-- To the target's session, if it is there and not the sender's own.
unfoldable pub forward : Text → Text → Fields → TrackerServer → List Effect × TrackerServer
forward sender target payload s =
    if target == sender then ([], s) else elim (JsMap.get target s.sessions.sessions) [
      | none ↦ ([], s)
      | some session ↦ (send session.ws (relay_in sender payload) s, s)
    ]

unfoldable pub handle_relay :
    ℕ → Connection → Text → Fields → ℕ → TrackerServer → List Effect × TrackerServer
handle_relay ws conn target payload now before = elim conn.peer_id [
  | none ↦ reject ws not_joined before
  | some sender ↦
      let (allowed, limiter) = allow conn.id (text "relay") now before.rate_limiter in
      let s : TrackerServer = record before { rate_limiter = limiter } in
      if not allowed then ([], s) else forward sender target payload s
]

-- `none` is a binary frame; the decoding of bytes is not reached.
abbrev pub message_in : (Text → Option Json) → Option Text → Option TrackerClientMessage
message_in json_parse raw = do
  t ← raw
  parse_tracker_client_message json_parse (λ bytes. []) (raw_text t)

module _ (sodium : Sodium) (random_int : ℕ → ℕ) (json_parse : Text → Option Json) where
  unfoldable pub dispatch :
      ℕ → Connection → Option TrackerClientMessage → ℕ → TrackerServer → List Effect × TrackerServer
  dispatch ws conn none now s = reject ws bad_message s
  dispatch ws conn (some (join m)) now s = handle_join sodium random_int ws conn m now s
  dispatch ws conn (some (relay_out target payload)) now s =
      handle_relay ws conn target payload now s

  -- A socket hands over no message after its close.
  unfoldable pub handle_message : ℕ → Option Text → ℕ → TrackerServer → List Effect × TrackerServer
  handle_message ws raw now s = elim (JsMap.get ws s.connections) [
    | none ↦ ([], s)
    | some conn ↦ dispatch ws conn (message_in json_parse raw) now s
  ]

-- When libsodium is ready: the hello with the connection's nonce.
unfoldable pub greet : Sodium → ℕ → Bytes → TrackerServer → List Effect × TrackerServer
greet sodium ws nonce s = elim (JsMap.get ws s.connections) [
  | none ↦ ([], s)
  | some conn ↦
      let greeted : TrackerServer = put_connection ws (record conn { nonce = nonce }) s in
      if not (is_open ws s)
      then ([], s)
      else (send ws (hello (pos tracker_protocol_version) (sodium.hex_of nonce)) greeted, greeted)
]

-- The handshake timer fires, if it was not cleared.
unfoldable pub handshake_timeout : ℕ → TrackerServer → List Effect × TrackerServer
handshake_timeout ws before = elim (JsMap.get ws before.connections) [
  | none ↦ ([], before)
  | some conn ↦
      let s : TrackerServer = put_connection ws (record conn { handshake_timer = false }) before in
      if not conn.handshake_timer
      then ([], before)
      else if is_some conn.peer_id
      then ([], s)
      else reject ws timed_out s
]

-- The listener of SessionManager, if one is installed.
unfoldable pub end_session : ℕ → Option Text → TrackerServer → TrackerServer
end_session ws none s = s
end_session ws (some peer) s = record s { sessions = on_close ws peer s.sessions }

-- The socket is closed: `release`, then the listener.
unfoldable pub closed : ℕ → TrackerServer → TrackerServer
closed ws s = elim (JsMap.get ws s.connections) [
  | none ↦ shut ws s
  | some conn ↦ end_session ws conn.listens (release ws (shut ws s))
]

unfoldable pub pong : ℕ → ℕ → TrackerServer → TrackerServer
pong ws now s = elim (JsMap.get ws s.connections) [
  | none ↦ s
  | some conn ↦ elim conn.listens [
    | none ↦ s
    | some peer ↦ record s { sessions = on_pong ws peer now s.sessions }
  ]
]

-- What SessionManager does to the sockets.
unfoldable pub apply_effects : List SocketEffect → TrackerServer → List Effect × TrackerServer
apply_effects [] s = ([], s)
apply_effects (terminate ws ∷ es) s =
    let (rest, s1) = apply_effects es (shut ws s) in (terminates ws ∷ rest, s1)
apply_effects (ping ws ∷ es) s = let (rest, s1) = apply_effects es s in (pings ws ∷ rest, s1)

unfoldable pub maintain : ℕ → TrackerServer → List Effect × TrackerServer
maintain now s =
    let (effects, sessions) = cleanup_pings now s.sessions in
    apply_effects effects (record s { sessions = sessions })

unfoldable pub shutdown : TrackerServer → List Effect × TrackerServer
shutdown s =
    let (effects, sessions) = destroy s.sessions in
    if s.stopped
    then ([], s)
    else apply_effects (map terminate (JsMap.keys s.connections) ++ effects)
        (record s { stopped = true; connections = []; per_address = []; sessions = sessions })

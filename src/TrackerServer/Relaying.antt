-- ===== src/TrackerServer/Relaying.antt =====
-- Who a relayed message says that it is from, and where it goes.
use aether_web_lite.Prelude.{
  ℕ, ◌≡◌, ◌≢◌, Option, none, some, List, [], ◌∷◌, arith, ◌==◌, number_key, eq_iff, Option-cases,
  Bool-cases, inl, inr, All, All-append,
}
use aether_web_lite.Prelude.Text.{Text, text, text_eq}
use aether_web_lite.JsMap
use aether_web_lite.Json.{Json, Fields}
use aether_web_lite.RateLimiter.{RateLimiter, allow}
use aether_web_lite.SessionManager.{
  SessionManager, RegisterResult, registered, capacity, register_session, get_random_peers,
}
use aether_web_lite.SessionManager.Owner.{owner}
use aether_web_lite.NodeIdentity.{Sodium}
use aether_web_lite.TrackerProtocol.{
  TrackerErrorCode, TrackerServerMessage, error, hello, peers, relay_in, TrackerJoin,
  TrackerClientMessage, join, relay_out, bad_message, bad_signature, bad_host, invalid_identity,
  unsupported_version, rate_limited, not_joined, at_capacity,
}
use aether_web_lite.TrackerServer.{
  Connection, TrackerServer, Effect, sends, closes, terminates, pings, send, send_error, reject,
  put_connection, is_open,
}
use aether_web_lite.TrackerServer.Handlers.{
  retire, as_joined, enter, check_signature, check_join, handle_join, forward, handle_relay,
  dispatch, message_in, handle_message,
}
use aether_web_lite.TrackerServer.Ids.{id_of}

-- If the effect is a relayed message, its sender is the id that the socket `ws` is taken for, and
-- it goes to the session of another id.
abbrev pub RelayedFrom : ℕ → TrackerServer → Effect → Type 0
RelayedFrom ws s (sends w (relay_in id payload)) =
    (id_of ws s ≡ some id) × ((target : Text) × (target ≢ id) × (owner target s.sessions ≡ some w))
RelayedFrom ws s (sends w (hello v nonce)) = Unit
RelayedFrom ws s (sends w (peers ids)) = Unit
RelayedFrom ws s (sends w (error code)) = Unit
RelayedFrom ws s (closes w) = Unit
RelayedFrom ws s (terminates w) = Unit
RelayedFrom ws s (pings w) = Unit

module _ (ws : ℕ) (s : TrackerServer) where
  send-RelayedFrom :
      (w : ℕ) (m : TrackerServerMessage) (t : TrackerServer)
      → RelayedFrom ws s (sends w m)
      → All (RelayedFrom ws s) (send w m t)
  unfolding send
  send-RelayedFrom w m t h = elim (Bool-cases (is_open w t)) [
    | inl e ↦ rw (e, send) (h, tt)
    | inr e ↦ rw (e, send) tt
  ]

  reject-RelayedFrom :
      (w : ℕ) (code : TrackerErrorCode) (t : TrackerServer)
      → All (RelayedFrom ws s) (reject w code t).0
  unfolding reject
  reject-RelayedFrom w code t =
      All-append (RelayedFrom ws s) (send_error w code t) (closes w ∷ [])
        (send-RelayedFrom w (error code) t tt) (tt, tt)

  retire-RelayedFrom :
      (w : ℕ) (old : Option ℕ) (t : TrackerServer) → All (RelayedFrom ws s) (retire w old t).0
  unfolding retire
  retire-RelayedFrom w none t = tt
  retire-RelayedFrom w (some old) t = elim (Bool-cases (old == w)) [
    | inl e ↦ rw (e, retire) tt
    | inr e ↦ rw (e, retire) (tt, tt)
  ]

  forward-RelayedFrom :
      (sender target : Text) (payload : Fields) (limiter : RateLimiter)
      → id_of ws s ≡ some sender
      → All
          (RelayedFrom ws s)
          (forward sender target payload (record s { rate_limiter = limiter })).0
  unfolding forward
  forward-RelayedFrom sender target payload limiter h = elim (Bool-cases (target == sender)) [
    | inl e ↦ rw (forward, e) tt
    | inr e ↦ elim (Option-cases (JsMap.get target s.sessions.sessions)) [
      | inl g ↦ rw (forward, e, g) tt
      | inr (session, g) ↦
          rw (forward, e, g)
            (send-RelayedFrom session.ws (relay_in sender payload)
              (record s { rate_limiter = limiter })
              (h, (target, ground (arith, eq_iff target sender), ground (arith, g))))
    ]
  ]

  handle_relay-RelayedFrom :
      (conn : Connection) (target : Text) (payload : Fields) (now : ℕ)
      → JsMap.get ws s.connections ≡ some conn
      → All (RelayedFrom ws s) (handle_relay ws conn target payload now s).0
  unfolding handle_relay
  handle_relay-RelayedFrom conn target payload now h = elim (Option-cases conn.peer_id) [
    | inl e ↦ rw (handle_relay, e) (reject-RelayedFrom ws not_joined s)
    | inr (sender, e) ↦
        let limiter = (allow conn.id (text "relay") now s.rate_limiter).1 in
        let sent = forward-RelayedFrom sender target payload limiter (ground (arith, h, e)) in
        elim (Bool-cases (allow conn.id (text "relay") now s.rate_limiter).0) [
          | inl a ↦ rw (handle_relay, e, a) sent
          | inr a ↦ rw (handle_relay, e, a) tt
        ]
  ]

-- Every relayed message among the effects is from that id.
pub record Honest (ws : ℕ) (s : TrackerServer) (r : List Effect × TrackerServer) : Type 0 where
  pub relays : All (RelayedFrom ws s) r.0

module _ (ws : ℕ) (s : TrackerServer) (sodium : Sodium) (random_int : ℕ → ℕ) where
  enter-RelayedFrom :
      (conn : Connection) (peer : Text) (r : RegisterResult × SessionManager) (t : TrackerServer)
      → All (RelayedFrom ws s) (enter sodium random_int ws conn peer r t).0
  unfolding enter
  enter-RelayedFrom conn peer (capacity, m) t = reject-RelayedFrom ws s ws at_capacity t
  enter-RelayedFrom conn peer (registered replaced, m) t =
      let t1 : TrackerServer =
        put_connection ws (as_joined peer conn) (record t { sessions = m }) in
      let t2 = (retire ws replaced t1).1 in
      let sample = get_random_peers peer t2.peers_per_join random_int t2.sessions in
      All-append (RelayedFrom ws s) (retire ws replaced t1).0 (send ws (peers sample) t2)
        (retire-RelayedFrom ws s ws replaced t1) (send-RelayedFrom ws s ws (peers sample) t2 tt)

  check_signature-Honest :
      (conn : Connection) (m : TrackerJoin) (now : ℕ) (t : TrackerServer)
      → Honest ws s (check_signature sodium random_int ws conn m now t)
  unfolding check_signature
  check_signature-Honest conn m now t =
      let used : Connection = record conn { nonce = [] } in
      let t1 : TrackerServer = put_connection ws used t in
      let entered = register_session ws m.peer_id now t1.sessions in
      let bad : Honest ws s (reject ws bad_signature t1) = record {
        relays = reject-RelayedFrom ws s ws bad_signature t1;
      } in
      let late : Honest ws s ([], t1) = record { relays = tt } in
      let good : Honest ws s (enter sodium random_int ws used m.peer_id entered t1) = record {
        relays = enter-RelayedFrom used m.peer_id entered t1;
      } in
      ground (arith, bad, late, good)

  reject-Honest : (code : TrackerErrorCode) (t : TrackerServer) → Honest ws s (reject ws code t)
  reject-Honest code t = record { relays = reject-RelayedFrom ws s ws code t }

  error-Honest :
      (code : TrackerErrorCode) (t : TrackerServer) → Honest ws s (send_error ws code t, t)
  error-Honest code t = record { relays = send-RelayedFrom ws s ws (error code) t tt }

  check_join-Honest :
      (conn : Connection) (m : TrackerJoin) (now : ℕ) (t : TrackerServer)
      → Honest ws s (check_join sodium random_int ws conn m now t)
  unfolding check_join
  check_join-Honest conn m now t = ground (
    arith,
    error-Honest bad_message t,
    reject-Honest bad_message t,
    reject-Honest unsupported_version t,
    reject-Honest bad_host t,
    reject-Honest invalid_identity t,
    check_signature-Honest conn m now t,
  )

  handle_join-Honest :
      (conn : Connection) (m : TrackerJoin) (now : ℕ)
      → Honest ws s (handle_join sodium random_int ws conn m now s)
  unfolding handle_join
  handle_join-Honest conn m now =
      let limiter = (allow conn.id (text "join") now s.rate_limiter).1 in
      let s1 : TrackerServer = record s { rate_limiter = limiter } in
      ground (arith, error-Honest rate_limited s1, check_join-Honest conn m now s1)

  dispatch-Honest :
      (json_parse : Text → Option Json) (conn : Connection) (m : Option TrackerClientMessage)
      (now : ℕ)
      → JsMap.get ws s.connections ≡ some conn
      → Honest ws s (dispatch sodium random_int json_parse ws conn m now s)
  unfolding dispatch
  dispatch-Honest json_parse conn none now h = reject-Honest bad_message s
  dispatch-Honest json_parse conn (some (join m)) now h = handle_join-Honest conn m now
  dispatch-Honest json_parse conn (some (relay_out target payload)) now h = record {
    relays = handle_relay-RelayedFrom ws s conn target payload now h;
  }

  -- Every message that the tracker relays because of what a socket sent names as its sender the id
  -- that it takes that socket for, whatever the message said, and goes to the socket that holds
  -- the session of another id.
  pub handle_message-Honest :
      (json_parse : Text → Option Json) (raw : Option Text) (now : ℕ)
      → Honest ws s (handle_message sodium random_int json_parse ws raw now s)
  unfolding handle_message
  handle_message-Honest json_parse raw now = elim (Option-cases (JsMap.get ws s.connections)) [
    | inl e ↦ rw (handle_message, e) (record { relays = tt })
    | inr (conn, e) ↦
        rw (handle_message, e) (dispatch-Honest json_parse conn (message_in json_parse raw) now e)
  ]

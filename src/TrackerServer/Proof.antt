-- ===== src/TrackerServer/Proof.antt =====
-- A socket is taken for a node only after a join that proved the node's key.
use aether_web_lite.Prelude.{
  ℕ, ◌≡◌, ◌⊎◌, true, false, Option, none, some, [], arith, number_key, eq_iff, Option-cases,
  Bool-cases, inl, inr, is_some, nat_beq, length, subst, sym,
}
use aether_web_lite.Prelude.Text.{Text, text, text_eq}
use aether_web_lite.JsMap
use aether_web_lite.JsMap.Laws.{get-set}
use aether_web_lite.Json.{Json}
use aether_web_lite.RateLimiter.{allow}
use aether_web_lite.SessionManager.{
  SessionManager, RegisterResult, registered, capacity, register_session,
}
use aether_web_lite.NodeIdentity.{Sodium, verify_claim}
use aether_web_lite.TrackerProtocol.{
  TrackerJoin, TrackerClientMessage, join, relay_out, normalize_host_header,
}
use aether_web_lite.TrackerServer.{Connection, TrackerServer, put_connection, reject}
use aether_web_lite.TrackerServer.Handlers.{
  is_version, host_ok, claim_in, is_signed, as_joined, enter, check_signature, check_join,
  handle_join, dispatch, message_in, handle_message,
}
use aether_web_lite.TrackerServer.Steps.{
  Step, accepts, greets, receives, times_out, pongs, maintains, shuts_down,
}
use aether_web_lite.TrackerServer.Steps
use aether_web_lite.TrackerServer.Ids.{
  id_in, id_of, put_connection-NoNewIds, retire-NoNewIds, accept-NoNewIds, maintain-NoNewIds,
  shutdown-NoNewIds, greet-NoNewIds, handshake_timeout-NoNewIds, closed-NoNewIds, pong-NoNewIds,
  handle_relay-connections,
}

module _ (sodium : Sodium) where
  -- What a join has shown: its version, the host that it meant, the work behind its id, and that its
  -- key signed the nonce of this very connection, which had not joined before.
  pub record Proved (s : TrackerServer) (conn : Connection) (m : TrackerJoin) : Type 0 where
    pub first : is_some conn.peer_id ≡ false
    pub greeted : nat_beq (length conn.nonce) 0 ≡ false
    pub version : is_version m.v ≡ true
    pub host : host_ok (normalize_host_header (some m.host)) s.allowed_hosts conn.host ≡ true
    pub claim : verify_claim sodium (claim_in sodium m) s.pow_params ≡ true
    pub signed : is_signed sodium conn.nonce m ≡ true

  -- The socket has joined as the node.
  pub record Joined (s : TrackerServer) (ws : ℕ) (p : Text) : Type 0 where
    pub conn : Connection
    pub message : TrackerJoin
    pub held : JsMap.get ws s.connections ≡ some conn
    pub named : message.peer_id ≡ p
    pub proved : Proved s conn message

  -- Each id that a socket is taken for afterwards is one that it had, or one that it proved.
  abbrev pub OnlyJoined : TrackerServer → TrackerServer → Type 0
  OnlyJoined s t = (v : ℕ) (p : Text) → id_of v t ≡ some p → (id_of v s ≡ some p) ⊎ Joined s v p

module _ (sodium : Sodium) (random_int : ℕ → ℕ) where
  enter_ids :
      (ws v : ℕ) (conn : Connection) (peer p : Text) (r : RegisterResult × SessionManager)
      (s : TrackerServer)
      → id_of v (enter sodium random_int ws conn peer r s).1 ≡ some p
      → (id_of v s ≡ some p) ⊎ ((v ≡ ws) × (peer ≡ p))
  unfolding enter reject
  enter_ids ws v conn peer p (capacity, m) s i = inl i
  enter_ids ws v conn peer p (registered replaced, m) s i =
      let after : Connection = as_joined peer conn in
      let s1 : TrackerServer = put_connection ws after (record s { sessions = m }) in
      let before = retire-NoNewIds ws replaced s1 v p i in
      ground (arith, before, get-set ws v after s.connections, eq_iff ws v)

  check_signature_ids :
      (ws v : ℕ) (conn : Connection) (m : TrackerJoin) (p : Text) (now : ℕ) (s : TrackerServer)
      → JsMap.get ws s.connections ≡ some conn
      → id_of v (check_signature sodium random_int ws conn m now s).1 ≡ some p
      → (id_of v s ≡ some p) ⊎ ((v ≡ ws) × (m.peer_id ≡ p) × (is_signed sodium conn.nonce m ≡ true))
  unfolding check_signature reject
  check_signature_ids ws v conn m p now s h i =
      let used : Connection = record conn { nonce = [] } in
      let s1 : TrackerServer = put_connection ws used s in
      ground (
        arith,
        i,
        put_connection-NoNewIds ws conn used s h (λ q k. k) v p,
        enter_ids ws v used m.peer_id p (register_session ws m.peer_id now s1.sessions) s1,
      )

  check_join_ids :
      (ws v : ℕ) (conn : Connection) (m : TrackerJoin) (p : Text) (now : ℕ) (s : TrackerServer)
      → JsMap.get ws s.connections ≡ some conn
      → id_of v (check_join sodium random_int ws conn m now s).1 ≡ some p
      → (id_of v s ≡ some p) ⊎ ((v ≡ ws) × (m.peer_id ≡ p) × Proved sodium s conn m)
  unfolding check_join reject
  check_join_ids ws v conn m p now s h i =
      ground (arith, i, check_signature_ids ws v conn m p now s h)

  handle_join-OnlyJoined :
      (ws : ℕ) (conn : Connection) (m : TrackerJoin) (now : ℕ) (s : TrackerServer)
      → JsMap.get ws s.connections ≡ some conn
      → OnlyJoined sodium s (handle_join sodium random_int ws conn m now s).1
  unfolding handle_join
  handle_join-OnlyJoined ws conn m now s h v p i =
      let limiter = (allow conn.id (text "join") now s.rate_limiter).1 in
      let s1 : TrackerServer = record s { rate_limiter = limiter } in
      elim (Bool-cases (allow conn.id (text "join") now s.rate_limiter).0) [
        | inr often ↦ ground (arith, often, i)
        | inl allowed ↦ elim (check_join_ids ws v conn m p now s1 h (ground (arith, allowed, i))) [
          | inl old ↦ inl old
          | inr (here_now, named, q) ↦ inr (record {
            conn = conn;
            message = m;
            held = subst (λ w. JsMap.get w s.connections ≡ some conn) (sym here_now) h;
            named = named;
            proved = record {
              first = q.first;
              greeted = q.greeted;
              version = q.version;
              host = q.host;
              claim = q.claim;
              signed = q.signed;
            };
          })
        ]
      ]

module _ (sodium : Sodium) (random_int : ℕ → ℕ) (json_parse : Text → Option Json) where
  dispatch-OnlyJoined :
      (ws : ℕ) (conn : Connection) (m : Option TrackerClientMessage) (now : ℕ) (s : TrackerServer)
      → JsMap.get ws s.connections ≡ some conn
      → OnlyJoined sodium s (dispatch sodium random_int json_parse ws conn m now s).1
  unfolding dispatch reject
  dispatch-OnlyJoined ws conn none now s h v p i = inl i
  dispatch-OnlyJoined ws conn (some (join m)) now s h v p i =
      handle_join-OnlyJoined sodium random_int ws conn m now s h v p i
  dispatch-OnlyJoined ws conn (some (relay_out target payload)) now s h v p i =
      let kept = handle_relay-connections ws conn target payload now s in
      inl (subst (λ m. id_in (JsMap.get v m) ≡ some p) kept i)

  handle_message-OnlyJoined :
      (ws : ℕ) (raw : Option Text) (now : ℕ) (s : TrackerServer)
      → OnlyJoined sodium s (handle_message sodium random_int json_parse ws raw now s).1
  unfolding handle_message
  handle_message-OnlyJoined ws raw now s = elim (Option-cases (JsMap.get ws s.connections)) [
    | inl e ↦ rw (e, handle_message) (λ v p i. inl i)
    | inr (conn, e) ↦
        rw (e, handle_message) (dispatch-OnlyJoined ws conn (message_in json_parse raw) now s e)
  ]

moved : (v : ℕ) (p : Text) (t u : TrackerServer) → t ≡ u → id_of v t ≡ some p → id_of v u ≡ some p
moved v p t u e i = subst (λ x. id_of v x ≡ some p) e i

module _ (sodium : Sodium) (json_parse : Text → Option Json) where
  -- In every step of the tracker, an id that a socket is taken for afterwards is one that it was taken
  -- for before, or that of a join for this tracker's host whose id is bound to its key and whose
  -- key signed the nonce that was sent to this socket, which had not joined.
  pub Step-OnlyJoined : (s t : TrackerServer) → Step sodium json_parse s t → OnlyJoined sodium s t
  Step-OnlyJoined s t (accepts ws address header live new e) v p i =
      inl (accept-NoNewIds ws address header s v p (moved v p t _ e i))
  Step-OnlyJoined s t (greets ws nonce e) v p i =
      inl (greet-NoNewIds sodium ws nonce s v p (moved v p t _ e i))
  Step-OnlyJoined s t (receives ws raw now random_int e) v p i =
      handle_message-OnlyJoined sodium random_int json_parse ws raw now s v p (moved v p t _ e i)
  Step-OnlyJoined s t (times_out ws e) v p i =
      inl (handshake_timeout-NoNewIds ws s v p (moved v p t _ e i))
  Step-OnlyJoined s t (Steps.closes ws e) v p i = inl (closed-NoNewIds ws s v p (moved v p t _ e i))
  Step-OnlyJoined s t (pongs ws now e) v p i = inl (pong-NoNewIds ws now s v p (moved v p t _ e i))
  Step-OnlyJoined s t (maintains now e) v p i =
      inl (maintain-NoNewIds now s v p (moved v p t _ e i))
  Step-OnlyJoined s t (shuts_down e) v p i = inl (shutdown-NoNewIds s v p (moved v p t _ e i))

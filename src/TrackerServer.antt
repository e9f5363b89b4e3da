-- ===== src/TrackerServer.antt =====
-- packages/tracker/src/TrackerServer.ts: the tracker's connections and what it answers. A
-- WebSocket is the number that tells it from the others. A handler takes the state and returns its
-- effects on sockets in their order with the new state; the calls of libsodium are the parameter
-- `sodium`, and JSON.parse the parameter `json_parse`.
pub mod Handlers
pub mod Steps
pub mod Same
pub mod Placed
pub mod Counting
pub mod Ids
pub mod Joining
pub mod Proof
pub mod Relaying
pub mod Tests
use aether_web_lite.Prelude.{
  min, ℕ, suc, ◌+◌, ◌-◌, Bool, true, false, not, Option, none, some, List, [], ◌∷◌, ◌++◌, leb,
  nat_beq, if◌then◌else◌, ◌==◌, number_key, includes, keep_if, map, is_some, length,
}
use aether_web_lite.Prelude.Text.{Text, text, text_eq}
use aether_web_lite.JsMap
use aether_web_lite.JsMap.{JsMap}
use aether_web_lite.Bytes.{Bytes}
use aether_web_lite.ThreadDag.{digits}
use aether_web_lite.RateLimiter.{RateLimiter, RateLimitConfig, new_limiter, forget}
use aether_web_lite.SessionManager.{SessionManager}
use aether_web_lite.NodeIdentity.{NodeIdPowParams}
use aether_web_lite.TrackerProtocol.{
  TrackerErrorCode, TrackerServerMessage, error, at_capacity, tracker_max_peers,
  normalize_host_header,
}

-- `peer_id` is `none` for `null`; a checked id is never the empty text. `listens` is the id for
-- which SessionManager's listeners are installed at the socket.
pub record Connection : Type 0 where
  pub id : Text
  pub nonce : Bytes
  pub host : Option Text
  pub address : Text
  pub peer_id : Option Text
  pub handshake_timer : Bool
  pub listens : Option Text

-- `open_sockets` are those whose readyState is OPEN.
pub record TrackerServer : Type 0 where
  pub sessions : SessionManager
  pub connections : JsMap ℕ Connection
  pub per_address : JsMap Text ℕ
  pub rate_limiter : RateLimiter
  pub pow_params : NodeIdPowParams
  pub allowed_hosts : Option (List Text)
  pub max_connections_per_address : ℕ
  pub peers_per_join : ℕ
  pub conn_seq : ℕ
  pub stopped : Bool
  pub open_sockets : List ℕ

abbrev pub tracker_limits : JsMap Text RateLimitConfig
tracker_limits =
    (text "join", record { rate_milli = 200; burst = 3 })
    ∷ (text "relay", record { rate_milli = 20_000; burst = 60 })
    ∷ []

-- The options with the defaults filled in.
pub record TrackerOptions : Type 0 where
  pub pow_params : NodeIdPowParams
  pub allowed_hosts : Option (List Text)
  pub max_sessions : ℕ
  pub idle_timeout_ms : ℕ
  pub max_connections_per_address : ℕ
  pub peers_per_join : ℕ

-- `map(normalizeHostHeader)` and `filter`.
unfoldable pub normalized : List Text → List Text
normalized [] = []
normalized (h ∷ hs) = elim (normalize_host_header (some h)) [
  | none ↦ normalized hs
  | some n ↦ n ∷ normalized hs
]

abbrev pub allowed_of : Option (List Text) → Option (List Text)
allowed_of none = none
allowed_of (some hs) = some (normalized hs)

unfoldable pub new_tracker : TrackerOptions → TrackerServer
new_tracker options = record {
  sessions = record {
    sessions = [];
    max_sessions = options.max_sessions;
    idle_timeout_ms = options.idle_timeout_ms;
  };
  connections = [];
  per_address = [];
  rate_limiter = new_limiter tracker_limits;
  pow_params = options.pow_params;
  allowed_hosts = allowed_of options.allowed_hosts;
  max_connections_per_address = options.max_connections_per_address;
  peers_per_join = min options.peers_per_join tracker_max_peers;
  conn_seq = 0;
  stopped = false;
  open_sockets = [];
}

pub data Effect : Type 0 where
  sends : ℕ → TrackerServerMessage → Effect
  closes terminates pings : ℕ → Effect

abbrev pub shut : ℕ → TrackerServer → TrackerServer
shut ws s = record s { open_sockets = keep_if (λ w. not (w == ws)) s.open_sockets }

abbrev pub is_open : ℕ → TrackerServer → Bool
is_open ws s = includes ws s.open_sockets

unfoldable pub send : ℕ → TrackerServerMessage → TrackerServer → List Effect
send ws msg s = if is_open ws s then sends ws msg ∷ [] else []

abbrev pub send_error : ℕ → TrackerErrorCode → TrackerServer → List Effect
send_error ws code s = send ws (error code) s

unfoldable pub reject : ℕ → TrackerErrorCode → TrackerServer → List Effect × TrackerServer
reject ws code s = (send_error ws code s ++ closes ws ∷ [], shut ws s)

abbrev pub or_else : ℕ → Option ℕ → ℕ
or_else n none = n
or_else n (some m) = m

abbrev pub count_at : Text → TrackerServer → ℕ
count_at address s = or_else 0 (JsMap.get address s.per_address)

-- `c${++this.connSeq}`
abbrev pub conn_id : ℕ → Text
conn_id n = text "c" ++ digits (suc n) n []

abbrev pub new_connection : ℕ → Option Text → Text → Connection
new_connection n header address = record {
  id = conn_id n;
  nonce = [];
  host = normalize_host_header header;
  address = address;
  peer_id = none;
  handshake_timer = true;
  listens = none;
}

-- The new socket is open.
unfoldable pub accept : ℕ → Text → Option Text → TrackerServer → List Effect × TrackerServer
accept ws address header before =
    let s : TrackerServer = record before { open_sockets = ws ∷ before.open_sockets } in
    let count = count_at address s in
    if leb s.max_connections_per_address count then reject ws at_capacity s else (
      [],
      record s {
        per_address = JsMap.set address (count + 1) s.per_address;
        conn_seq = s.conn_seq + 1;
        connections = JsMap.set ws (new_connection (s.conn_seq + 1) header address) s.connections;
      },
    )

-- One connection fewer from the address.
abbrev pub leave_address : Text → JsMap Text ℕ → JsMap Text ℕ
leave_address address m =
    let left = or_else 1 (JsMap.get address m) - 1 in
    if nat_beq left 0 then JsMap.delete address m else JsMap.set address left m

unfoldable pub release : ℕ → TrackerServer → TrackerServer
release ws s = elim (JsMap.get ws s.connections) [
  | none ↦ s
  | some conn ↦ record s {
    connections = JsMap.delete ws s.connections;
    rate_limiter = forget conn.id s.rate_limiter;
    per_address = leave_address conn.address s.per_address;
  }
]

abbrev pub put_connection : ℕ → Connection → TrackerServer → TrackerServer
put_connection ws conn s = record s { connections = JsMap.set ws conn s.connections }

-- ===== src/TrackerProtocol.antt =====
-- packages/core/src/network/TrackerProtocol.ts: the messages between a node and the tracker, and
-- the checks of what arrives. JSON.parse and the decoding of bytes as text are parameters.
pub mod Client
pub mod Server
pub mod Tests
use aether_web_lite.Prelude.{
  ◌>>=◌, >>=-eq-some, bind_cases, ◌*◌, ◌+◌, number_key, ℕ, zero, suc, Bool, true, false, not, ◌&&◌,
  ◌||◌, Option, none, some, List, [], ◌∷◌, ◌++◌, ltb, leb, nat_beq, if◌then◌else◌, ◌==◌, length,
  take, all_of, includes,
}
use aether_web_lite.Prelude.Text.{Text, text, text_eq}
use aether_web_lite.Json.{
  ℤ, pos, Json, Items, done, item, Fields, end, field, object, array, string, integer, get_field,
  plain_object, string_of, safe_integer, safe_natural, items,
}

abbrev pub tracker_protocol_version : ℕ
tracker_protocol_version = 2

abbrev pub tracker_max_frame_bytes : ℕ
tracker_max_frame_bytes = 64 * 1024

abbrev pub tracker_max_peers : ℕ
tracker_max_peers = 32

abbrev pub challenge_bytes : ℕ
challenge_bytes = 32

abbrev pub between : ℕ → ℕ → ℕ → Bool
between low high c = leb low c && leb c high

-- [0-9]
abbrev pub is_digit : ℕ → Bool
is_digit c = between b'0' b'9' c

-- [0-9a-f]
abbrev pub is_hex : ℕ → Bool
is_hex c = is_digit c || between b'a' b'f' c

-- /^[0-9a-f]{n}$/
abbrev pub hex_text : ℕ → Text → Bool
hex_text n t = nat_beq (length t) n && all_of is_hex t

-- [a-z0-9.-]
abbrev pub is_host_char : ℕ → Bool
is_host_char c = between b'a' b'z' c || is_digit c || nat_beq c b'.' || nat_beq c b'-'

-- [0-9a-f:.]
abbrev pub is_ip6_char : ℕ → Bool
is_ip6_char c = is_hex c || nat_beq c b':' || nat_beq c b'.'

-- (?::\d{1,5})?$
abbrev pub is_port : Text → Bool
is_port [] = true
is_port (c ∷ t) = nat_beq c b':' && between 1 5 (length t) && all_of is_digit t

-- [a-z0-9.-]{1,253} and the rest, after `n` of its characters. No character of a port is one of
-- the class, but the digits, which follow a colon.
unfoldable pub is_name : ℕ → Text → Bool
is_name n [] = between 1 253 n
is_name n (c ∷ t) =
    let rest = is_name (suc n) t in
    if is_host_char c then rest else between 1 253 n && is_port (c ∷ t)

-- [0-9a-f:.]{2,45}\] and the rest.
unfoldable pub is_ip6 : ℕ → Text → Bool
is_ip6 n [] = false
is_ip6 n (c ∷ t) =
    let rest = is_ip6 (suc n) t in
    if is_ip6_char c then rest else nat_beq c b']' && between 2 45 n && is_port t

-- HOST_RE
unfoldable pub is_host : Text → Bool
is_host [] = false
is_host (c ∷ t) = if nat_beq c b'[' then is_ip6 0 t else is_name 0 (c ∷ t)

-- The white space that `trim` removes.
abbrev pub is_space : ℕ → Bool
is_space c =
    between 9 13 c
    || includes c (32 ∷ 0xa0 ∷ 0x1680 ∷ 0x2028 ∷ 0x2029 ∷ 0x202f ∷ 0x205f ∷ 0x3000 ∷ 0xfeff ∷ [])
    || between 0x2000 0x200a c

unfoldable pub trim_start : Text → Text
trim_start [] = []
trim_start (c ∷ t) = if is_space c then trim_start t else c ∷ t

unfoldable pub trim_end : Text → Text
trim_end [] = []
trim_end (c ∷ t) =
    let rest = trim_end t in if is_space c && nat_beq (length rest) 0 then [] else c ∷ rest

-- A letter of the host's alphabet in lower case; the sign for kelvin is the one other character
-- whose lower case is such a letter. The others stay outside it.
abbrev pub lower : ℕ → ℕ
lower c = if between b'A' b'Z' c then c + 32 else if nat_beq c 0x212a then 107 else c

unfoldable pub to_lower_case : Text → Text
to_lower_case [] = []
to_lower_case (c ∷ t) = lower c ∷ to_lower_case t

-- `h.replace(/:(80|443)$/, '')`
unfoldable pub drop_default_port : Text → Text
drop_default_port [] = []
drop_default_port (c ∷ t) =
    let rest = drop_default_port t in
    if c ∷ t == text ":80" || c ∷ t == text ":443" then [] else c ∷ rest

-- `none` is `undefined`, and in the result `null`.
unfoldable pub normalize_host_header : Option Text → Option Text
normalize_host_header none = none
normalize_host_header (some host) =
    let h = to_lower_case (trim_end (trim_start host)) in
    if is_host h then some (drop_default_port h) else none

pub data TrackerErrorCode : Type 0 where
  bad_message unsupported_version invalid_identity bad_signature bad_host : TrackerErrorCode
  rate_limited at_capacity not_joined invalid_target too_large timed_out : TrackerErrorCode

abbrev pub code_name : TrackerErrorCode → Text
code_name bad_message = text "bad-message"
code_name unsupported_version = text "unsupported-version"
code_name invalid_identity = text "invalid-identity"
code_name bad_signature = text "bad-signature"
code_name bad_host = text "bad-host"
code_name rate_limited = text "rate-limited"
code_name at_capacity = text "capacity"
code_name not_joined = text "not-joined"
code_name invalid_target = text "invalid-target"
code_name too_large = text "too-large"
code_name timed_out = text "timeout"

abbrev pub error_codes : List TrackerErrorCode
error_codes =
    bad_message ∷ unsupported_version ∷ invalid_identity ∷ bad_signature ∷ bad_host ∷ rate_limited
    ∷ at_capacity ∷ not_joined ∷ invalid_target ∷ too_large ∷ timed_out ∷ []

pub data TrackerServerMessage : Type 0 where
  hello : ℤ → Text → TrackerServerMessage
  peers : List Text → TrackerServerMessage
  relay_in : Text → Fields → TrackerServerMessage
  error : TrackerErrorCode → TrackerServerMessage

pub record TrackerJoin : Type 0 where
  pub v : ℤ
  pub peer_id : Text
  pub pubkey : Text
  pub pow_counter : ℕ
  pub host : Text
  pub sig : Text

pub data TrackerClientMessage : Type 0 where
  join : TrackerJoin → TrackerClientMessage
  relay_out : Text → Fields → TrackerClientMessage

-- What the socket hands over.
pub data Raw : Type 0 where
  raw_text : Text → Raw
  raw_bytes : List ℕ → Raw
  raw_other : Raw

abbrev pub if_text : (Text → Bool) → Option Text → Option Text
if_text p none = none
if_text p (some t) = if p t then some t else none

abbrev pub is_peer_id : Option Json → Option Text
is_peer_id v = if_text (hex_text 32) (string_of v)

abbrev pub parse_join : Fields → Option TrackerClientMessage
parse_join d = do
  v ← safe_integer (get_field (text "v") d)
  peer_id ← is_peer_id (get_field (text "peerId") d)
  pubkey ← if_text (hex_text 64) (string_of (get_field (text "pubkey") d))
  pow_counter ← safe_natural (get_field (text "powCounter") d)
  host ← if_text is_host (string_of (get_field (text "host") d))
  sig ← if_text (hex_text 128) (string_of (get_field (text "sig") d))
  some (
      join (record {
        v = v;
        peer_id = peer_id;
        pubkey = pubkey;
        pow_counter = pow_counter;
        host = host;
        sig = sig;
      }))

abbrev pub parse_relay_out : Fields → Option TrackerClientMessage
parse_relay_out d = do
  target ← is_peer_id (get_field (text "targetPeerId") d)
  payload ← plain_object (get_field (text "payload") d)
  some (relay_out target payload)

-- `d.type === name`
abbrev pub names : Text → Option Text → Bool
names name none = false
names name (some t) = t == name

abbrev pub type_of : Fields → Option Text
type_of d = string_of (get_field (text "type") d)

unfoldable pub read_client_message : Fields → Option TrackerClientMessage
read_client_message d =
    if names (text "join") (type_of d)
    then parse_join d
    else if names (text "relay") (type_of d)
    then parse_relay_out d
    else none

-- `isPlainObject(p) && isPeerId(p.peerId)`
abbrev pub peer_id_in : Option Json → Option Text
peer_id_in v = do p ← plain_object v; is_peer_id (get_field (text "peerId") p)

-- `filter` and `map`
unfoldable pub peer_ids : List Json → List Text
peer_ids [] = []
peer_ids (p ∷ ps) =
    let rest = peer_ids ps in elim (peer_id_in (some p)) [ none ↦ rest | some id ↦ id ∷ rest ]

abbrev pub array_of : Option Json → Option (List Json)
array_of (some (array ps)) = some (items ps)
array_of _ = none

abbrev pub known_code : List TrackerErrorCode → Option Text → TrackerErrorCode
known_code [] name = bad_message
known_code (c ∷ cs) name = if names (code_name c) name then c else known_code cs name

abbrev pub parse_hello : Fields → Option TrackerServerMessage
parse_hello d = do
  v ← safe_integer (get_field (text "v") d)
  nonce ← if_text (hex_text (challenge_bytes * 2)) (string_of (get_field (text "nonce") d))
  some (hello v nonce)

abbrev pub parse_peers : Fields → Option TrackerServerMessage
parse_peers d = do
  ps ← array_of (get_field (text "peers") d)
  some (peers (peer_ids (take tracker_max_peers ps)))

abbrev pub parse_relay_in : Fields → Option TrackerServerMessage
parse_relay_in d = do
  sender ← is_peer_id (get_field (text "senderId") d)
  payload ← plain_object (get_field (text "payload") d)
  some (relay_in sender payload)

unfoldable pub read_server_message : Fields → Option TrackerServerMessage
read_server_message d =
    if names (text "hello") (type_of d)
    then parse_hello d
    else if names (text "peers") (type_of d)
    then parse_peers d
    else if names (text "relay") (type_of d)
    then parse_relay_in d
    else if names (text "error") (type_of d)
    then some (error (known_code error_codes (string_of (get_field (text "code") d))))
    else none

module _ (json_parse : Text → Option Json) (decode : List ℕ → Text) where
  -- `none` is `null`.
  abbrev pub text_of_raw : Raw → Option Text
  text_of_raw (raw_text t) = some t
  text_of_raw (raw_bytes bs) = some (decode bs)
  text_of_raw raw_other = none

  -- `none` is `undefined`, for a text that JSON.parse throws at as well.
  unfoldable pub parse_json : Raw → Option Json
  parse_json raw = do
    t ← text_of_raw raw
    if ltb tracker_max_frame_bytes (length t) then none else json_parse t

  unfoldable pub parse_tracker_client_message : Raw → Option TrackerClientMessage
  parse_tracker_client_message raw = do d ← plain_object (parse_json raw); read_client_message d

  unfoldable pub parse_tracker_server_message : Raw → Option TrackerServerMessage
  parse_tracker_server_message raw = do d ← plain_object (parse_json raw); read_server_message d

-- The objects that the two sides make of their messages, before JSON.stringify.
abbrev pub peer_items : List Text → Items
peer_items [] = done
peer_items (id ∷ ids) = item (object (field (text "peerId") (string id) end)) (peer_items ids)

unfoldable pub server_fields : TrackerServerMessage → Fields
server_fields (hello v nonce) =
    field (text "type") (string (text "hello"))
      (field (text "v") (integer v) (field (text "nonce") (string nonce) end))
server_fields (peers ids) =
    field (text "type") (string (text "peers")) (field (text "peers") (array (peer_items ids)) end)
server_fields (relay_in sender payload) =
    field (text "type") (string (text "relay"))
      (field (text "senderId") (string sender) (field (text "payload") (object payload) end))
server_fields (error c) =
    field (text "type") (string (text "error")) (field (text "code") (string (code_name c)) end)

unfoldable pub client_fields : TrackerClientMessage → Fields
client_fields (join m) = field (text "type") (string (text "join")) (
    field (text "v") (integer m.v) (
      field (text "peerId") (string m.peer_id) (
        field (text "pubkey") (string m.pubkey) (
          field (text "powCounter") (integer (pos m.pow_counter))
            (field (text "host") (string m.host) (field (text "sig") (string m.sig) end))))))
client_fields (relay_out target payload) =
    field (text "type") (string (text "relay"))
      (field (text "targetPeerId") (string target) (field (text "payload") (object payload) end))

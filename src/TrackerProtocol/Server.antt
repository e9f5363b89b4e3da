-- ===== src/TrackerProtocol/Server.antt =====
-- What a node takes from the tracker: every message that the tracker makes is read back.
use aether_web_lite.Prelude.{
  ℕ, suc, ◌≤◌, ◌≡◌, refl, true, some, List, [], ◌∷◌, arith, length, take, All, zero, ap,
}
use aether_web_lite.Prelude.Text.{Text, text_eq}
use aether_web_lite.Json.{items, get_field}
use aether_web_lite.TrackerProtocol.{
  TrackerServerMessage, hello, peers, relay_in, error, TrackerErrorCode, hex_text,
  read_server_message, server_fields, peer_items, known_code, error_codes, code_name, bad_message,
  unsupported_version, invalid_identity, bad_signature, bad_host, rate_limited, at_capacity,
  not_joined, invalid_target, too_large, timed_out, peer_ids, tracker_max_peers,
}
use aether_web_lite.TrackerProtocol.Client.{IsSafe}

-- What the tracker puts into its messages.
abbrev pub IsSent : TrackerServerMessage → Type 0
IsSent (hello v nonce) = IsSafe v × (hex_text 64 nonce ≡ true)
IsSent (peers ids) = (length ids ≤ tracker_max_peers) × All (λ id. hex_text 32 id ≡ true) ids
IsSent (relay_in sender payload) = hex_text 32 sender ≡ true
IsSent (error c) = Unit

peer_ids-take :
    (n : ℕ) (ids : List Text)
    → length ids ≤ n
    → All (λ id. hex_text 32 id ≡ true) ids
    → peer_ids (take n (items (peer_items ids))) ≡ ids
unfolding peer_ids get_field
peer_ids-take zero [] h a = refl
peer_ids-take (suc n) [] h a = refl
peer_ids-take zero (id ∷ ids) h a = absurd (omega arith)
peer_ids-take (suc n) (id ∷ ids) h a =
    rw (a.0, peer_ids) (ap (λ l. id ∷ l) (peer_ids-take n ids (omega arith) a.1))

known : (c : TrackerErrorCode) → known_code error_codes (some (code_name c)) ≡ c
known bad_message = refl
known unsupported_version = refl
known invalid_identity = refl
known bad_signature = refl
known bad_host = refl
known rate_limited = refl
known at_capacity = refl
known not_joined = refl
known invalid_target = refl
known too_large = refl
known timed_out = refl

-- A node reads each message that the tracker makes of a version, a nonce of 32 bytes, at most 32
-- ids, a sender's id or an error's code as that message.
pub read_server_message-server_fields :
    (m : TrackerServerMessage) → IsSent m → read_server_message (server_fields m) ≡ some m
unfolding read_server_message server_fields get_field
read_server_message-server_fields (hello v nonce) h = rw (h.0, h.1) refl
read_server_message-server_fields (peers ids) h =
    ap (λ l. some (peers l)) (peer_ids-take tracker_max_peers ids h.0 h.1)
read_server_message-server_fields (relay_in sender payload) h = rw h refl
read_server_message-server_fields (error c) h = ap (λ e. some (error e)) (known c)

-- ===== src/TrackerServer/Tests.antt =====
-- A tracker that two nodes join, and what it answers.
use aether_web_lite.Prelude.{
  ℕ, ◌≡◌, ◌⊎◌, refl, true, false, none, some, Option, [], ◌∷◌, number_key,
}
use aether_web_lite.Prelude.Text.{Text, text, text_eq}
use aether_web_lite.JsMap
use aether_web_lite.Json.{Json, object, end, get_field, pos}
use aether_web_lite.Bytes.{big_endian}
use aether_web_lite.PowPolicy.{to_hex, meets_difficulty, zero_bytes, masked}
use aether_web_lite.RateLimiter.{allow, key, current, count_of, spend, note_drop}
use aether_web_lite.SessionManager.{register_session}
use aether_web_lite.NodeIdentity.{
  derive_peer_id, verify_claim, node_id_pow_hash, tracker_join_message, length_prefixed, utf8,
}
use aether_web_lite.NodeIdentity.Tests.{stand_in, light, repeated}
use aether_web_lite.TrackerProtocol.{
  TrackerJoin, join, relay_out, client_fields, read_client_message, parse_tracker_client_message,
  parse_json, normalize_host_header, is_host, is_name, trim_start, trim_end, to_lower_case,
  drop_default_port, unsupported_version,
}
use aether_web_lite.TrackerServer.{TrackerServer, TrackerOptions, Connection, new_tracker, accept}
use aether_web_lite.TrackerServer.Handlers.{
  greet, handle_message, dispatch, handle_join, check_join, check_signature, enter, retire, disown,
}
use aether_web_lite.TrackerServer.Steps.{Reach, here, next, accepts, greets, receives}
use aether_web_lite.TrackerServer.Counting.{Counted, Reach-Counted}
use aether_web_lite.TrackerServer.Placed.{Placed, accepted_from}
use aether_web_lite.TrackerServer.Ids.{id_of}
use aether_web_lite.TrackerServer.Joining.{closing_with, Refused, refusal, handle_join-Refused}
use aether_web_lite.TrackerServer.Proof.{Joined, Step-OnlyJoined}
use aether_web_lite.TrackerServer.Relaying.{Honest, handle_message-Honest}

abbrev options : TrackerOptions
options = record {
  pow_params = light;
  allowed_hosts = none;
  max_sessions = 100;
  idle_timeout_ms = 120_000;
  max_connections_per_address = 2;
  peers_per_join = 8;
}

abbrev zero_id : Text
zero_id = repeated 32 b'0'

abbrev valid_join : TrackerJoin
valid_join = record {
  v = pos 2;
  peer_id = zero_id;
  pubkey = repeated 64 b'0';
  pow_counter = 0;
  host = text "t.x";
  sig = repeated 128 b'0';
}

-- What the texts of this run parse to.
abbrev parse : Text → Option Json
parse [] = some (object (client_fields (relay_out (repeated 32 b'1') end)))
parse (c ∷ t) = some (object (client_fields (join valid_join)))

abbrev first : ℕ → ℕ
first n = 0

abbrev opened : TrackerServer
opened = (accept 1 (text "10.0.0.1") (some (text "T.x")) (new_tracker options)).1

abbrev waiting : TrackerServer
waiting = (greet stand_in 1 (repeated 32 5) opened).1

abbrev entered : TrackerServer
entered = (handle_message stand_in first parse 1 (some (text "join")) 1000 waiting).1

hello_stored : JsMap.has 1 waiting.connections ≡ true
unfolding greet accept new_tracker JsMap.get JsMap.set JsMap.has
hello_stored = refl

not_stopped : (new_tracker options).stopped ≡ false
unfolding new_tracker
not_stopped = refl

none_yet : JsMap.has 1 (new_tracker options).connections ≡ false
unfolding new_tracker JsMap.has
none_yet = refl

id_proved : id_of 1 entered ≡ some zero_id
unfolding handle_message dispatch handle_join check_join check_signature enter retire disown greet
    accept new_tracker parse_tracker_client_message parse_json read_client_message client_fields
    get_field is_host is_name normalize_host_header trim_start trim_end to_lower_case
    drop_default_port allow key current count_of spend note_drop verify_claim derive_peer_id
    node_id_pow_hash meets_difficulty zero_bytes masked tracker_join_message length_prefixed utf8
    big_endian to_hex register_session repeated JsMap.get JsMap.set JsMap.has
id_proved = refl

abbrev joining : Reach stand_in parse (new_tracker options) entered
joining =
    next
      (next (next here (accepts 1 (text "10.0.0.1") (some (text "T.x")) not_stopped none_yet refl))
        (greets 1 (repeated 32 5) refl))
      (receives 1 (some (text "join")) 1000 first refl)

Reach-Counted_example : Counted entered × Placed (accepted_from stand_in parse joining) entered
Reach-Counted_example = Reach-Counted stand_in parse options entered joining

Step-OnlyJoined_example : (id_of 1 waiting ≡ some zero_id) ⊎ Joined stand_in waiting 1 zero_id
Step-OnlyJoined_example =
    Step-OnlyJoined stand_in parse waiting entered (receives 1 (some (text "join")) 1000 first refl)
      1 zero_id id_proved

abbrev old_join : TrackerJoin
old_join = record valid_join { v = pos 1 }

abbrev guest : Connection
guest = record {
  id = text "c1";
  nonce = repeated 32 5;
  host = some (text "t.x");
  address = text "10.0.0.1";
  peer_id = none;
  handshake_timer = true;
  listens = none;
}

guest_held : JsMap.get 1 waiting.connections ≡ some guest
unfolding greet accept new_tracker JsMap.get JsMap.set normalize_host_header trim_start trim_end
    to_lower_case drop_default_port is_host is_name
guest_held = refl

old_refused : refusal stand_in guest old_join 1000 waiting ≡ some (closing_with unsupported_version)
unfolding greet accept new_tracker allow key current count_of spend note_drop JsMap.get JsMap.set
    repeated
old_refused = refl

handle_join-Refused_example :
    Refused 1 1 waiting
      (closing_with unsupported_version)
      (handle_join stand_in first 1 guest old_join 1000 waiting)
handle_join-Refused_example =
    handle_join-Refused stand_in first 1 1 guest old_join 1000 waiting
      (closing_with unsupported_version) guest_held old_refused

-- A message to a node that is not there is dropped without an answer.
handle_message-Honest_example :
    Honest 1 entered (handle_message stand_in first parse 1 (some []) 2000 entered)
handle_message-Honest_example = handle_message-Honest 1 entered stand_in first parse (some []) 2000

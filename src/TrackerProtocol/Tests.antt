-- ===== src/TrackerProtocol/Tests.antt =====
-- Messages of both directions, and hosts.
use aether_web_lite.Prelude.{◌≡◌, refl, ◌++◌, none, some, [], ◌∷◌, arith}
use aether_web_lite.Prelude.Text.{Text, text, text_eq}
use aether_web_lite.Json.{pos, negsuc, integer, field, get_field}
use aether_web_lite.TrackerProtocol.{
  TrackerJoin, join, peers, read_client_message, read_server_message, client_fields, server_fields,
  normalize_host_header, is_host, is_name, is_ip6, trim_start, trim_end, to_lower_case,
  drop_default_port,
}
use aether_web_lite.TrackerProtocol.Client.{HasForm, read_client_message-HasForm}
use aether_web_lite.TrackerProtocol.Server.{read_server_message-server_fields}

abbrev pub id_a : Text
id_a = text "0123456789abcdef0123456789abcdef"

abbrev pub key_a : Text
key_a = id_a ++ id_a

abbrev pub join_a : TrackerJoin
join_a = record {
  v = pos 2;
  peer_id = id_a;
  pubkey = key_a;
  pow_counter = 77;
  host = text "tracker.example:8443";
  sig = key_a ++ key_a;
}

join_read : read_client_message (client_fields (join join_a)) ≡ some (join join_a)
unfolding read_client_message client_fields get_field is_host is_name
join_read = refl

read_client_message-HasForm_example : HasForm (join join_a)
read_client_message-HasForm_example =
    read_client_message-HasForm (client_fields (join join_a)) (join join_a) join_read

read_server_message-server_fields_example :
    read_server_message (server_fields (peers (id_a ∷ id_a ∷ []))) ≡ some (peers (id_a ∷ id_a ∷ []))
read_server_message-server_fields_example =
    read_server_message-server_fields (peers (id_a ∷ id_a ∷ [])) (omega arith, (refl, (refl, tt)))

negative_counter_refused :
    read_client_message
      (field (text "powCounter") (integer (negsuc 0)) (client_fields (join join_a)))
    ≡ none
unfolding read_client_message client_fields get_field
negative_counter_refused = refl

host_normalized :
    normalize_host_header (some (text "  Tracker.Example:443 ")) ≡ some (text "tracker.example")
unfolding normalize_host_header trim_start trim_end to_lower_case is_host is_name drop_default_port
host_normalized = refl

address_normalized : normalize_host_header (some (text "[::1]:80")) ≡ some (text "[::1]")
unfolding normalize_host_header trim_start trim_end to_lower_case is_host is_ip6 drop_default_port
address_normalized = refl

path_refused : normalize_host_header (some (text "a/b")) ≡ none
unfolding normalize_host_header trim_start trim_end to_lower_case is_host is_name
path_refused = refl

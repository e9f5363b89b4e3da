-- ===== src/TrackerProtocol/Client.antt =====
-- What the tracker takes from a node: exactly the messages whose fields have their forms.
use aether_web_lite.Prelude.{
  bind_cases, ℕ, ◌≡◌, refl, subst, Bool, true, Option, none, some, arith, Bool-cases, inl, inr,
}
use aether_web_lite.Prelude.Text.{Text, text, text_eq}
use aether_web_lite.Json.{
  ℤ, pos, negsuc, Fields, Json, null, fraction, boolean, integer, string, array, object, get_field,
  is_safe, safe_integer, safe_natural, plain_object, string_of,
}
use aether_web_lite.TrackerProtocol.{
  TrackerClientMessage, join, relay_out, hex_text, is_host, if_text, is_peer_id, parse_join,
  parse_relay_out, read_client_message, client_fields, type_of, names,
}

abbrev pub IsSafe : ℤ → Type 0
IsSafe n = is_safe n ≡ true

-- The forms that a message's fields have to have.
abbrev pub HasForm : TrackerClientMessage → Type 0
HasForm (join m) =
    IsSafe m.v
    × (hex_text 32 m.peer_id ≡ true)
    × (hex_text 64 m.pubkey ≡ true)
    × IsSafe (pos m.pow_counter)
    × (is_host m.host ≡ true)
    × (hex_text 128 m.sig ≡ true)
HasForm (relay_out target payload) = hex_text 32 target ≡ true

-- A message whose fields have their forms is read from the object that the node makes of it.
pub read_client_message-client_fields :
    (m : TrackerClientMessage) → HasForm m → read_client_message (client_fields m) ≡ some m
unfolding read_client_message client_fields get_field
read_client_message-client_fields (join m) h = rw (h.0, h.1, h.2, h.3, h.4, h.5) refl
read_client_message-client_fields (relay_out target payload) h = rw h refl

if_text-some : (p : Text → Bool) (o : Option Text) (t : Text) → if_text p o ≡ some t → p t ≡ true
if_text-some p none t h = cc
if_text-some p (some s) t h = ground arith

safe_integer-IsSafe : (o : Option Json) (n : ℤ) → safe_integer o ≡ some n → IsSafe n
safe_integer-IsSafe (some (integer m)) n h = ground arith
safe_integer-IsSafe none n h = cc
safe_integer-IsSafe (some null) n h = cc
safe_integer-IsSafe (some fraction) n h = cc
safe_integer-IsSafe (some (boolean b)) n h = cc
safe_integer-IsSafe (some (string t)) n h = cc
safe_integer-IsSafe (some (array xs)) n h = cc
safe_integer-IsSafe (some (object d)) n h = cc

safe_natural-IsSafe : (o : Option Json) (n : ℕ) → safe_natural o ≡ some n → IsSafe (pos n)
safe_natural-IsSafe (some (integer (pos m))) n h = ground arith
safe_natural-IsSafe (some (integer (negsuc m))) n h = cc
safe_natural-IsSafe none n h = cc
safe_natural-IsSafe (some null) n h = cc
safe_natural-IsSafe (some fraction) n h = cc
safe_natural-IsSafe (some (boolean b)) n h = cc
safe_natural-IsSafe (some (string t)) n h = cc
safe_natural-IsSafe (some (array xs)) n h = cc
safe_natural-IsSafe (some (object d)) n h = cc

abbrev Formed : Option TrackerClientMessage → Type 0
Formed none = Unit
Formed (some m) = HasForm m

parse_join-Formed : (d : Fields) → Formed (parse_join d)
parse_join-Formed d = bind_cases Formed (safe_integer (get_field (text "v") d)) _ tt λ v hv.
    bind_cases Formed (is_peer_id (get_field (text "peerId") d)) _ tt λ id hid.
      bind_cases Formed (if_text (hex_text 64) (string_of (get_field (text "pubkey") d))) _ tt
        λ k hk. bind_cases Formed (safe_natural (get_field (text "powCounter") d)) _ tt λ c hc.
          bind_cases Formed (if_text is_host (string_of (get_field (text "host") d))) _ tt λ h hh.
            bind_cases Formed (if_text (hex_text 128) (string_of (get_field (text "sig") d))) _ tt
              λ s hs. (
                safe_integer-IsSafe (get_field (text "v") d) v hv,
                if_text-some (hex_text 32) (string_of (get_field (text "peerId") d)) id hid,
                if_text-some (hex_text 64) (string_of (get_field (text "pubkey") d)) k hk,
                safe_natural-IsSafe (get_field (text "powCounter") d) c hc,
                if_text-some is_host (string_of (get_field (text "host") d)) h hh,
                if_text-some (hex_text 128) (string_of (get_field (text "sig") d)) s hs,
              )

parse_relay_out-Formed : (d : Fields) → Formed (parse_relay_out d)
parse_relay_out-Formed d =
    bind_cases Formed (is_peer_id (get_field (text "targetPeerId") d)) _ tt λ t ht.
      bind_cases Formed (plain_object (get_field (text "payload") d)) _ tt
        λ p hp. if_text-some (hex_text 32) (string_of (get_field (text "targetPeerId") d)) t ht

read_client_message-Formed : (d : Fields) → Formed (read_client_message d)
unfolding read_client_message
read_client_message-Formed d = elim (Bool-cases (names (text "join") (type_of d))) [
  | inl e ↦ rw e (parse_join-Formed d)
  | inr e ↦ elim (Bool-cases (names (text "relay") (type_of d))) [
    | inl r ↦ rw (e, r) (parse_relay_out-Formed d)
    | inr r ↦ rw (e, r) tt
  ]
]

-- A message that is read has a peer's id, a key, a host and a signature of their forms, and its
-- numbers are whole and within the range of exact ones.
pub read_client_message-HasForm :
    (d : Fields) (m : TrackerClientMessage) → read_client_message d ≡ some m → HasForm m
read_client_message-HasForm d m h = subst Formed h (read_client_message-Formed d)

-- ===== src/HintRouter/Tests.antt =====
-- Runs of the hint router, under a stand-in for the hash and one for the decryption.
use aether_web_lite.Prelude.{
  ℕ, ◌≡◌, refl, true, false, Option, none, some, List, [], ◌∷◌, arith, if◌then◌else◌, ◌==◌,
}
use aether_web_lite.Prelude.Text.{text, text_eq, truthy}
use aether_web_lite.Bytes.{Bytes}
use aether_web_lite.JsMap
use aether_web_lite.SeenCache.Bounds.{empty-IsValid}
use aether_web_lite.SeenCache
use aether_web_lite.PowPolicy.{int, meets_difficulty, zero_bytes, masked, to_hex}
use aether_web_lite.HintPacket.{
  HintPacket, RawHint, zeros, parse_hint_packet, verify_hint_pow, hint_id, hint_preimage,
}
use aether_web_lite.HintRouter.{
  Around, echo, new_router, id_of, Event, hint, gains_key, step, run, handle_hint,
}
use aether_web_lite.HintRouter.Veil.{observable, network, keys_hidden}
use aether_web_lite.HintRouter.Buffer.{Kept, step-Kept}
use aether_web_lite.HintRouter.Once.{Accepted, cleaned, handle_hint_twice}

abbrev zero_hash : Bytes → Bytes
zero_hash bs = zeros 32

-- The key that is the hint's tag opens it.
abbrev open_sample : Bytes → HintPacket → Option ℕ
open_sample k h = if k == h.blind_tag then some h.pow_nonce else none

abbrev raw_hint : ℕ → RawHint
raw_hint ttl = record {
  version = int 1;
  ttl = int ttl;
  blind_tag = some (1 ∷ 2 ∷ 3 ∷ 4 ∷ []);
  nonce = some (zeros 12);
  pow_nonce = int 258;
  ciphertext = some (zeros 64);
}

abbrev parsed : ℕ → HintPacket
parsed ttl = record {
  version = 1;
  ttl = ttl;
  blind_tag = 1 ∷ 2 ∷ 3 ∷ 4 ∷ [];
  nonce = zeros 12;
  pow_nonce = 258;
  ciphertext = zeros 64;
}

abbrev at : ℕ → Around
at now = record {
  my_peer_id = text "me";
  peers =
      record { peer_id = text "b"; is_connected = true; is_verified = true }
      ∷ record { peer_id = text "c"; is_connected = true; is_verified = false }
      ∷ [];
  now = now;
}

parsed_7 : Accepted zero_hash open_sample (raw_hint 7) (parsed 7)
unfolding parse_hint_packet verify_hint_pow hint_preimage meets_difficulty zero_bytes masked zeros
parsed_7 = (refl, refl)

parsed_3 : Accepted zero_hash open_sample (raw_hint 3) (parsed 3)
unfolding parse_hint_packet verify_hint_pow hint_preimage meets_difficulty zero_bytes masked zeros
parsed_3 = (refl, refl)

one_id : id_of zero_hash (parsed 3) ≡ id_of zero_hash (parsed 7)
unfolding hint_id hint_preimage
one_id = refl

named : truthy (id_of zero_hash (parsed 7)) ≡ true
unfolding hint_id hint_preimage zeros to_hex
named = refl

not_received : SeenCache.has (id_of zero_hash (parsed 7)) [] ≡ false
unfolding SeenCache.has JsMap.has
not_received = refl

handle_hint_twice_example :
    (let s1 =
        cleaned zero_hash open_sample
          (800_000 ∷ [])
          (800_000 ∷ 900_010 ∷ [])
          []
          (handle_hint zero_hash open_sample (at 10) (text "c") (raw_hint 7) new_router).1 in
      handle_hint zero_hash open_sample (at 20) (text "b") (raw_hint 3) s1
      ≡ (echo (id_of zero_hash (parsed 7)) ∷ [], s1))
handle_hint_twice_example =
    handle_hint_twice zero_hash open_sample (at 10) (at 20) (text "c") (text "b") (raw_hint 7)
      (raw_hint 3) (parsed 7) (parsed 3) new_router (800_000 ∷ []) (800_000 ∷ 900_010 ∷ []) []
      parsed_7 parsed_3 one_id named empty-IsValid not_received (omega arith, (omega arith, tt))

abbrev history : List Event
history =
    gains_key (at 5) (text "board") (1 ∷ 2 ∷ 3 ∷ 4 ∷ []) ∷ hint (at 10) (text "c") (raw_hint 7) ∷ []

keys_hidden_example :
    observable (run zero_hash open_sample history new_router)
    ≡ observable (run zero_hash open_sample (network zero_hash open_sample history) new_router)
keys_hidden_example = keys_hidden zero_hash open_sample history new_router new_router (refl, refl)

new_router-Kept : Kept zero_hash new_router
unfolding JsMap.has
new_router-Kept = record { few = omega arith; once = tt; same = λ j. refl }

step-Kept_example :
    Kept zero_hash (step zero_hash open_sample (hint (at 10) (text "c") (raw_hint 7)) new_router).1
step-Kept_example =
    step-Kept zero_hash open_sample (hint (at 10) (text "c") (raw_hint 7)) new_router
      new_router-Kept

-- ===== src/NodeIdentity/Tests.antt =====
-- Claims and messages, under stand-ins for the calls of libsodium.
use aether_web_lite.Prelude.{
  ℕ, zero, suc, ◌+◌, ◌-◌, ◌*◌, ◌≡◌, refl, true, some, [], ◌∷◌, ◌++◌, arith, ltb, if◌then◌else◌,
  nat_beq, length, All,
}
use aether_web_lite.Prelude.Text.{Text, text, text_eq}
use aether_web_lite.Bytes.{Bytes, IsByte, big_endian}
use aether_web_lite.PowPolicy.{to_hex, meets_difficulty, zero_bytes, masked}
use aether_web_lite.TrackerProtocol.{to_lower_case}
use aether_web_lite.NodeIdentity.{
  Sodium, NodeIdPowParams, JoinBinding, join_message, tracker_join_message, length_prefixed, utf8,
  claim_of, verify_claim, solve_node_id_pow, solve_id_loop, node_id_pow_hash,
}
use aether_web_lite.NodeIdentity.Bound.{verify_claim-claim_of}
use aether_web_lite.NodeIdentity.Messages.{
  Ascii, join_message-injective, tracker_join_message-injective,
}

unfoldable pub repeated : ℕ → ℕ → Bytes
repeated zero b = []
repeated (suc n) b = b ∷ repeated n b

abbrev pub digit_value : ℕ → ℕ
digit_value c = if ltb c 58 then c - 48 else c - 87

abbrev pub pairs : Text → Bytes
pairs [] = []
pairs (c ∷ []) = []
pairs (c ∷ d ∷ t) = (digit_value c * 16 + digit_value d) ∷ pairs t

-- A hash of zeros, and signatures that are checked by their length.
abbrev pub stand_in : Sodium
stand_in = record {
  sha256 = λ b. repeated 32 0;
  pwhash = λ p salt ops mem. repeated 32 0;
  verify_detached = λ sig message key. nat_beq (length sig) 64;
  from_hex = pairs;
  hex_of = to_hex;
}

abbrev pub light : NodeIdPowParams
light = record { difficulty = 4; ops_limit = 1; mem_limit = 8192 }

hash_fits : (b : Bytes) → (length (stand_in.sha256 b) ≡ 32) × All IsByte (stand_in.sha256 b)
unfolding repeated
hash_fits b = (refl, omega arith)

counter_found : solve_node_id_pow stand_in 10 (repeated 32 7) light ≡ some 0
unfolding solve_node_id_pow solve_id_loop node_id_pow_hash meets_difficulty zero_bytes masked
    repeated
counter_found = refl

key_size : length (repeated 32 7) ≡ 32
unfolding repeated
key_size = refl

verify_claim-claim_of_example :
    verify_claim stand_in (claim_of stand_in (repeated 32 7) 0) light ≡ true
verify_claim-claim_of_example =
    verify_claim-claim_of stand_in 10 (repeated 32 7) light 0 hash_fits key_size (omega arith)
      counter_found

abbrev link : JoinBinding
link = record {
  verifier_id = text "ab";
  signer_fingerprint = text "AA:01";
  verifier_fingerprint = text "BB:02";
}

abbrev pair : Bytes
pair = 1 ∷ 2 ∷ []

abbrev join_bytes : Bytes
join_bytes =
    text "AETHER/v4/join"
    ++ 1 ∷ 2 ∷ 0 ∷ 2 ∷ text "ab"
    ++ 0 ∷ 2 ∷ text "cd"
    ++ 0 ∷ 5 ∷ text "AA:01"
    ++ 0 ∷ 5 ∷ text "BB:02"

join_signed : join_message pair (text "cd") link ≡ some join_bytes
unfolding join_message length_prefixed utf8 big_endian
join_signed = refl

join_message-injective_example : (pair ≡ pair) × (text "cd" ≡ text "cd") × (link ≡ link)
join_message-injective_example =
    join_message-injective pair pair (text "cd") (text "cd") link link join_bytes refl (omega arith)
      (omega arith) (omega arith) (omega arith) join_signed join_signed

abbrev tracker_bytes : Bytes
tracker_bytes =
    text "AETHER/v1/tracker-join" ++ repeated 32 9 ++ 0 ∷ 2 ∷ text "cd" ++ 0 ∷ 3 ∷ text "t.x"

tracker_signed : tracker_join_message (repeated 32 9) (text "cd") (text "T.x") ≡ some tracker_bytes
unfolding tracker_join_message length_prefixed utf8 big_endian to_lower_case repeated
tracker_signed = refl

lower_host : Ascii (to_lower_case (text "T.x"))
unfolding to_lower_case
lower_host = omega arith

tracker_join_message-injective_example :
    (repeated 32 9 ≡ repeated 32 9)
    × (text "cd" ≡ text "cd")
    × (to_lower_case (text "T.x") ≡ to_lower_case (text "T.x"))
tracker_join_message-injective_example =
    tracker_join_message-injective (repeated 32 9) (repeated 32 9) (text "cd") (text "cd")
      (text "T.x") (text "T.x") tracker_bytes (omega arith) (omega arith) lower_host lower_host
      tracker_signed tracker_signed

-- ===== src/NodeIdentity.antt =====
-- packages/core/src/crypto/NodeIdentity.ts: what binds a node's id to its key, and the messages
-- that it signs to show that it holds the key. The calls of libsodium are the fields of Sodium.
pub mod Bound
pub mod Messages
pub mod Tests
use aether_web_lite.Prelude.{
  ◌>>=◌, >>=-eq-some, bind_cases, ℕ, zero, suc, ◌+◌, ◌-◌, ◌*◌, ◌/◌, ◌%◌, Bool, true, false, not,
  ◌&&◌, ◌||◌, Option, none, some, List, [], ◌∷◌, ◌++◌, ltb, leb, nat_beq, if◌then◌else◌, ◌==◌,
  length, take, all_of, number_key,
}
use aether_web_lite.Prelude.Text.{Text, text, text_eq}
use aether_web_lite.Bytes.{Bytes, u64be, u16be}
use aether_web_lite.PowPolicy.{Field, int, int_below, safe_limit, concat, meets_difficulty, to_hex}
use aether_web_lite.TrackerProtocol.{challenge_bytes, is_hex, to_lower_case}

-- `pwhash passwd salt ops mem` is Argon2id with an output of 32 bytes; `verify_detached` is false
-- too where the call throws. `hex_of` is `to_hex` of the library.
pub record Sodium : Type 0 where
  pub sha256 : Bytes → Bytes
  pub pwhash : Bytes → Bytes → ℕ → ℕ → Bytes
  pub verify_detached : Bytes → Bytes → Bytes → Bool
  pub from_hex : Text → Bytes
  pub hex_of : Bytes → Text

pub record NodeIdPowParams : Type 0 where
  pub difficulty : ℕ
  pub ops_limit : ℕ
  pub mem_limit : ℕ

abbrev pub node_id_pow : NodeIdPowParams
node_id_pow = record { difficulty = 10; ops_limit = 1; mem_limit = 1_048_576 }

-- "AETHER/v3/nodeid"
abbrev pub node_id_salt : Bytes
node_id_salt =
    0x41 ∷ 0x45 ∷ 0x54 ∷ 0x48 ∷ 0x45 ∷ 0x52 ∷ 0x2f ∷ 0x76 ∷ 0x33 ∷ 0x2f ∷ 0x6e ∷ 0x6f ∷ 0x64 ∷ 0x65
    ∷ 0x69 ∷ 0x64 ∷ []

abbrev pub peer_id_domain : Bytes
peer_id_domain = text "AETHER/v3/peerid"

abbrev pub join_domain : Bytes
join_domain = text "AETHER/v4/join"

abbrev pub tracker_join_domain : Bytes
tracker_join_domain = text "AETHER/v1/tracker-join"

abbrev pub peer_id_bytes : ℕ
peer_id_bytes = 16

abbrev pub public_key_bytes : ℕ
public_key_bytes = 32

abbrev pub sign_bytes : ℕ
sign_bytes = 64

pub record NodeClaim : Type 0 where
  pub peer_id : Text
  pub pubkey : Bytes
  pub pow_counter : Field

pub record SignedNodeClaim : Type 0 where
  pub claim : NodeClaim
  pub challenge : Bytes
  pub signature : Bytes

pub record JoinBinding : Type 0 where
  pub verifier_id : Text
  pub signer_fingerprint : Text
  pub verifier_fingerprint : Text

-- TextEncoder: a code point as bytes, from 0x80 on in two to four of them.
abbrev pub utf8_point : ℕ → Bytes
utf8_point c =
    if ltb c 0x80
    then c ∷ []
    else if ltb c 0x800
    then (0xc0 + c / 64) ∷ (0x80 + c % 64) ∷ []
    else if ltb c 0x10000
    then (0xe0 + c / 4096) ∷ (0x80 + c / 64 % 64) ∷ (0x80 + c % 64) ∷ []
    else (0xf0 + c / 262144) ∷ (0x80 + c / 4096 % 64) ∷ (0x80 + c / 64 % 64) ∷ (0x80 + c % 64) ∷ []

abbrev pub high_surrogate : ℕ → Bool
high_surrogate c = leb 0xd800 c && ltb c 0xdc00

abbrev pub low_surrogate : ℕ → Bool
low_surrogate c = leb 0xdc00 c && ltb c 0xe000

-- A surrogate that has no partner becomes the replacement character.
abbrev pub utf8_unit : ℕ → Bytes
utf8_unit c = utf8_point (if high_surrogate c || low_surrogate c then 0xfffd else c)

unfoldable pub utf8 : Text → Bytes
utf8 [] = []
utf8 (c ∷ []) = utf8_unit c
utf8 (c ∷ d ∷ t) =
    let pair = utf8 t in
    let rest = utf8 (d ∷ t) in
    if high_surrogate c && low_surrogate d
    then utf8_point (0x10000 + (c - 0xd800) * 1024 + (d - 0xdc00)) ++ pair
    else utf8_unit c ++ rest

-- `none` is a RangeError.
unfoldable pub length_prefixed : Text → Option Bytes
length_prefixed t =
    let bytes = utf8 t in
    if ltb 0xffff (length bytes) then none else some (u16be (length bytes) ++ bytes)

unfoldable pub join_message : Bytes → Text → JoinBinding → Option Bytes
join_message challenge signer_id binding = do
  verifier ← length_prefixed binding.verifier_id
  signer ← length_prefixed signer_id
  signer_fp ← length_prefixed binding.signer_fingerprint
  verifier_fp ← length_prefixed binding.verifier_fingerprint
  some (concat (join_domain ∷ challenge ∷ verifier ∷ signer ∷ signer_fp ∷ verifier_fp ∷ []))

unfoldable pub tracker_join_message : Bytes → Text → Text → Option Bytes
tracker_join_message nonce peer_id host =
    if not (nat_beq (length nonce) challenge_bytes) then none else do
      peer ← length_prefixed peer_id
      tracker ← length_prefixed (to_lower_case host)
      some (concat (tracker_join_domain ∷ nonce ∷ peer ∷ tracker ∷ []))

module _ (sodium : Sodium) where
  unfoldable pub derive_peer_id : Bytes → Text
  derive_peer_id pubkey =
      to_hex (take peer_id_bytes (sodium.sha256 (concat (peer_id_domain ∷ pubkey ∷ []))))

  unfoldable pub node_id_pow_hash : Bytes → ℕ → NodeIdPowParams → Bytes
  node_id_pow_hash pubkey counter params =
      sodium.pwhash (concat (pubkey ∷ u64be counter ∷ [])) node_id_salt params.ops_limit
        params.mem_limit

  abbrev pub meets_node_id_pow : Bytes → ℕ → NodeIdPowParams → Bool
  meets_node_id_pow pubkey counter params =
      meets_difficulty (node_id_pow_hash pubkey counter params) params.difficulty

  unfoldable pub verify_claim : NodeClaim → NodeIdPowParams → Bool
  verify_claim claim params =
      if not (nat_beq (length claim.peer_id) (peer_id_bytes * 2))
      then false
      else if not (all_of is_hex claim.peer_id)
      then false
      else if not (nat_beq (length claim.pubkey) public_key_bytes)
      then false
      else elim (int_below safe_limit claim.pow_counter) [
        | none ↦ false
        | some counter ↦
            if not (derive_peer_id claim.pubkey == claim.peer_id)
            then false
            else if ltb 0 params.difficulty
            then meets_node_id_pow claim.pubkey counter params
            else true
      ]

  -- The message that is signed, or the error of making it.
  abbrev pub signed_message : Bytes → Bytes → Option Bytes → Bool
  signed_message signature pubkey none = false
  signed_message signature pubkey (some message) = sodium.verify_detached signature message pubkey

  unfoldable pub verify_signed_claim :
      SignedNodeClaim → Bytes → JoinBinding → NodeIdPowParams → Bool
  verify_signed_claim signed expected_challenge binding params =
      if not (nat_beq (length expected_challenge) challenge_bytes)
      then false
      else if not (nat_beq (length signed.challenge) (length expected_challenge))
      then false
      else if not (nat_beq (length signed.signature) sign_bytes)
      then false
      else if not (signed.challenge == expected_challenge)
      then false
      else if not (nat_beq (length signed.claim.pubkey) public_key_bytes)
      then false
      else if not (
          signed_message signed.signature signed.claim.pubkey
            (join_message signed.challenge signed.claim.peer_id binding))
      then false
      else verify_claim signed.claim params

  unfoldable pub verify_tracker_join : NodeClaim → Bytes → Text → Bytes → NodeIdPowParams → Bool
  verify_tracker_join claim nonce tracker_host signature params =
      if not (nat_beq (length nonce) challenge_bytes)
      then false
      else if not (nat_beq (length signature) sign_bytes)
      then false
      else if nat_beq (length tracker_host) 0 || ltb 255 (length tracker_host)
      then false
      else if not (verify_claim claim params)
      then false
      else signed_message signature claim.pubkey
          (tracker_join_message nonce claim.peer_id tracker_host)

  -- The loop of solveNodeIdPow, with the rounds that are left; `none` is the error.
  unfoldable pub solve_id_loop : Bytes → NodeIdPowParams → ℕ → ℕ → Option ℕ
  solve_id_loop pubkey params zero counter = none
  solve_id_loop pubkey params (suc left) counter =
      let rest = solve_id_loop pubkey params left (counter + 1) in
      if meets_node_id_pow pubkey counter params then some counter else rest

  -- `limit` is Number.MAX_SAFE_INTEGER.
  unfoldable pub solve_node_id_pow : ℕ → Bytes → NodeIdPowParams → Option ℕ
  solve_node_id_pow limit pubkey params =
      if nat_beq params.difficulty 0 then some 0 else solve_id_loop pubkey params limit 0

  -- `fromKeyPair` and `claim`: what a node says of itself.
  unfoldable pub claim_of : Bytes → ℕ → NodeClaim
  claim_of pubkey counter = record {
    peer_id = derive_peer_id pubkey;
    pubkey = pubkey;
    pow_counter = int counter;
  }

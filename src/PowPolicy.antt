-- ===== src/PowPolicy.antt =====
-- packages/core/src/crypto/PowPolicy.ts: what a packet's proof of work and its id commit to, and
-- the test of the work. SHA-256 is the parameter `sha256`. Bytes are taken as `toBytes` gives them.
pub mod Preimage
pub mod Difficulty
pub mod Tests
use Prim.Native.Nat.{bit_and}
use aether_web_lite.Prelude.{
  ◌>>=◌, >>=-eq-some, bind_cases, ℕ, zero, suc, ◌+◌, ◌-◌, ◌*◌, ◌/◌, ◌%◌, ◌^◌, Bool, true, false,
  not, ◌&&◌, ◌||◌, Option, none, some, List, [], ◌∷◌, ◌++◌, ltb, leb, nat_beq, if◌then◌else◌,
  length, get_elem?,
}
use aether_web_lite.Prelude.Text.{Text}
use aether_web_lite.Bytes.{Bytes, u64be, u32be, u16be}

-- A numeric field that came from the network: a whole number that is not negative, or any other
-- value (a negative or fractional number, NaN, a text, nothing).
pub data Field : Type 0 where
  int : ℕ → Field
  other : Field

-- `Number.isSafeInteger(x) && x >= 0`, and whole numbers up to a limit.
abbrev pub int_below : ℕ → Field → Option ℕ
int_below limit (int n) = if ltb n limit then some n else none
int_below limit other = none

abbrev pub safe_limit : ℕ
safe_limit = 2 ^ 53

abbrev pub min_difficulty : ℕ
min_difficulty = 8

abbrev pub max_difficulty : ℕ
max_difficulty = 32

abbrev pub max_payload_size : ℕ
max_payload_size = 2 * 1024

abbrev pub nonce_size : ℕ
nonce_size = 12

abbrev pub max_time_drift : ℕ
max_time_drift = 15 * 60 * 1000

abbrev pub max_hop_count : ℕ
max_hop_count = 30

-- "AETHER/v3/gossip"
abbrev pub gossip_domain : Bytes
gossip_domain =
    0x41 ∷ 0x45 ∷ 0x54 ∷ 0x48 ∷ 0x45 ∷ 0x52 ∷ 0x2f ∷ 0x76 ∷ 0x33 ∷ 0x2f ∷ 0x67 ∷ 0x6f ∷ 0x73 ∷ 0x73
    ∷ 0x69 ∷ 0x70 ∷ []

pub record PowCommittedHeader : Type 0 where
  pub timestamp : Field
  pub zone_id : Field
  pub pow_difficulty : Field
  pub nonce : Bytes
  pub payload : Bytes

-- A list of parts, one after the other.
abbrev pub concat : List Bytes → Bytes
concat [] = []
concat (p ∷ ps) = p ++ concat ps

abbrev pub at_most : ℕ → Bytes → Option Bytes
at_most limit bs = if leb (length bs) limit then some bs else none

-- `none` is a RangeError.
unfoldable pub pow_preimage : PowCommittedHeader → Option Bytes
pow_preimage h = do
  timestamp ← int_below safe_limit h.timestamp
  zone_id ← int_below (2 ^ 32) h.zone_id
  pow_difficulty ← int_below 256 h.pow_difficulty
  nonce ← at_most 0xffff h.nonce
  payload ← at_most 0xffffffff h.payload
  some (
      concat (
        gossip_domain
        ∷ u64be timestamp
        ∷ u32be zone_id
        ∷ (pow_difficulty ∷ [])
        ∷ u16be (length nonce)
        ∷ nonce
        ∷ u32be (length payload)
        ∷ payload
        ∷ []))

-- The loop over the whole bytes that must be 0.
unfoldable pub zero_bytes : ℕ → Bytes → Bool
zero_bytes zero hash = true
zero_bytes (suc n) [] = false
zero_bytes (suc n) (b ∷ hash) = nat_beq b 0 && zero_bytes n hash

-- `(0xff << (8 - remainBits)) & 0xff`
abbrev pub mask : ℕ → ℕ
mask remain = (0xff * 2 ^ (8 - remain)) % 256

-- `(hash[fullBytes] & mask) === 0`; `undefined & mask` is 0.
unfoldable pub masked : ℕ → Option ℕ → Bool
masked remain none = true
masked remain (some b) = nat_beq (bit_and b (mask remain)) 0

unfoldable pub meets_difficulty : Bytes → ℕ → Bool
meets_difficulty hash difficulty =
    let full = difficulty / 8 in
    let remain = difficulty % 8 in
    if nat_beq difficulty 0
    then true
    else if ltb (length hash * 8) difficulty
    then false
    else if not (zero_bytes full hash)
    then false
    else if ltb 0 remain
    then masked remain (get_elem? hash full)
    else true

module _ (sha256 : Bytes → Bytes) where
  unfoldable pub pow_hash : Bytes → ℕ → Bytes
  pow_hash preimage pow_nonce = sha256 (preimage ++ u64be pow_nonce)

  unfoldable pub verify_pow : PowCommittedHeader → ℕ → Bool
  verify_pow h pow_nonce = elim h.pow_difficulty [
    | other ↦ false
    | int d ↦
        if ltb d min_difficulty
        then false
        else if ltb max_difficulty d
        then false
        else elim (pow_preimage h) [
          | none ↦ false
          | some preimage ↦ meets_difficulty (pow_hash preimage pow_nonce) d
        ]
  ]

  -- `for (let i = 0; i < maxIterations; i++)`, with the rounds that are left; `none` is `null`.
  unfoldable pub solve_loop : Bytes → ℕ → ℕ → ℕ → Option ℕ
  solve_loop preimage d zero i = none
  solve_loop preimage d (suc left) i =
      let rest = solve_loop preimage d left (i + 1) in
      if meets_difficulty (pow_hash preimage i) d then some i else rest

  unfoldable pub solve_pow : PowCommittedHeader → ℕ → Option ℕ
  unfolding solve_loop
  solve_pow h max_iterations = do
    preimage ← pow_preimage h
    d ← int_below 256 h.pow_difficulty
    solve_loop preimage d max_iterations 0

-- Encoding.toHex: two lower-case digits for each byte.
abbrev pub hex_digit : ℕ → ℕ
hex_digit n = if ltb n 10 then n + b'0' else n - 10 + b'a'

unfoldable pub to_hex : Bytes → Text
to_hex [] = []
to_hex (b ∷ bs) = hex_digit (b / 16) ∷ hex_digit (b % 16) ∷ to_hex bs

-- `none` is a RangeError.
unfoldable pub derive_packet_id : (Bytes → Bytes) → PowCommittedHeader → Option Text
unfolding to_hex
derive_packet_id sha256 h = do preimage ← pow_preimage h; some (to_hex (sha256 preimage))

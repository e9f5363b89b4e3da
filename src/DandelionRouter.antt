-- ===== src/DandelionRouter.antt =====
-- packages/core/src/network/gossip/DandelionRouter.ts: the first hop that is kept, the waiting for
-- an echo, and the random choices by weight. A callback is the number that tells it from the
-- others; a random word is an argument, and so is the time.
pub mod Choice
pub mod Guard
pub mod Echo
pub mod Tests
use aether_web_lite.Prelude.{
  ℕ, zero, suc, ◌+◌, ◌-◌, ◌*◌, ◌/◌, ◌%◌, ◌^◌, Bool, true, false, not, ◌&&◌, Option, none, some,
  List, [], ◌∷◌, ◌++◌, ltb, leb, nat_beq, if◌then◌else◌, ◌==◌, number_key, length, get_elem?,
  includes, keep_if, map, min, is_some,
}
use aether_web_lite.Prelude.Text.{Text, text, text_eq}
use aether_web_lite.JsMap
use aether_web_lite.JsMap.{JsMap}
use aether_web_lite.Bytes.{Bytes}

-- A time, or the one that never comes.
pub data Expiry : Type 0 where
  at : ℕ → Expiry
  infinity : Expiry

-- `now + GUARD_PIN_DURATION`
abbrev pub guard_pin_expiry : ℕ → Expiry
guard_pin_expiry now = infinity

abbrev pub observation_saturation_ms : ℕ
observation_saturation_ms = 30 * 60 * 1000

pub record OnionHop : Type 0 where
  pub peer_id : Text
  pub pubkey : Bytes

-- What the router sees of a neighbour.
pub record GuardPeer : Type 0 where
  pub is_outbound : Bool
  pub verified_at : Option ℕ

-- `timers` are those of the waiters that have not been answered.
pub record DandelionRouter : Type 0 where
  pub pinned_guard_id : Option Text
  pub pinned_guard_expiry : Expiry
  pub listeners : JsMap Text (List ℕ)
  pub timers : List ℕ

abbrev pub new_dandelion_router : DandelionRouter
new_dandelion_router = record {
  pinned_guard_id = none;
  pinned_guard_expiry = at 0;
  listeners = [];
  timers = [];
}

pub data GuardEffect : Type 0 where
  guard_changed : Option Text → GuardEffect
  echo_resolved : ℕ → Bool → GuardEffect

abbrev pub echo_key : Text → Text
echo_key id = text "echo:" ++ id

abbrev pub list_of : Option (List ℕ) → List ℕ
list_of none = []
list_of (some cbs) = cbs

abbrev pub without : List ℕ → List ℕ → List ℕ
without gone timers = keep_if (λ t. not (includes t gone)) timers

unfoldable pub notify_echo : Text → DandelionRouter → List GuardEffect × DandelionRouter
notify_echo id s = elim (JsMap.get (echo_key id) s.listeners) [
  | none ↦ ([], s)
  | some callbacks ↦ (
    map (λ cb. echo_resolved cb true) callbacks,
    record s {
      listeners = JsMap.delete (echo_key id) s.listeners;
      timers = without callbacks s.timers;
    },
  )
]

unfoldable pub await_echo : Text → ℕ → DandelionRouter → DandelionRouter
await_echo id callback s = record s {
  listeners =
      JsMap.set (echo_key id) (list_of (JsMap.get (echo_key id) s.listeners) ++ callback ∷ [])
        s.listeners;
  timers = callback ∷ s.timers;
}

-- The timer of a waiter fires, if it was not cleared.
unfoldable pub echo_timeout : Text → ℕ → DandelionRouter → List GuardEffect × DandelionRouter
echo_timeout id callback s =
    let remaining =
      keep_if (λ cb. not (cb == callback)) (list_of (JsMap.get (echo_key id) s.listeners)) in
    let left =
      if ltb 0 (length remaining)
      then JsMap.set (echo_key id) remaining s.listeners
      else JsMap.delete (echo_key id) s.listeners in
    if not (includes callback s.timers) then ([], s) else (
      echo_resolved callback false ∷ [],
      record s { listeners = left; timers = without (callback ∷ []) s.timers },
    )

abbrev pub same_id : Option Text → Option Text → Bool
same_id none none = true
same_id (some a) (some b) = a == b
same_id _ _ = false

unfoldable pub set_guard :
    Option Text → Expiry → DandelionRouter → List GuardEffect × DandelionRouter
set_guard id expiry s =
    let set : DandelionRouter = record s { pinned_guard_id = id; pinned_guard_expiry = expiry } in
    if same_id id s.pinned_guard_id then ([], set) else (guard_changed id ∷ [], set)

abbrev pub reset_pinned_guard : DandelionRouter → List GuardEffect × DandelionRouter
reset_pinned_guard s = set_guard none (at 0) s

abbrev pub before : ℕ → Expiry → Bool
before now (at t) = ltb now t
before now infinity = true

unfoldable pub find_hop : Text → List OnionHop → Option OnionHop
find_hop id [] = none
find_hop id (c ∷ cs) = if c.peer_id == id then some c else find_hop id cs

-- `this.isLive`, and the candidate that it finds.
unfoldable pub live_guard :
    JsMap Text GuardPeer → List OnionHop → ℕ → DandelionRouter → Option OnionHop
live_guard peers candidates now s = elim s.pinned_guard_id [
  | none ↦ none
  | some id ↦
      if before now s.pinned_guard_expiry && JsMap.has id peers
      then find_hop id candidates
      else none
]

-- The sum of the weights.
abbrev pub total_weight : List ℕ → ℕ
total_weight [] = 0
total_weight (w ∷ ws) = w + total_weight ws

-- The loop with the sum so far: `r < acc`, where `r` is `word / 2 ^ 32 * total` and `scaled` is
-- `word * total`.
unfoldable pub pick : ℕ → ℕ → ℕ → List ℕ → ℕ
pick scaled acc i [] = i - 1
pick scaled acc i (w ∷ ws) =
    let rest = pick scaled (acc + w) (i + 1) ws in
    if ltb scaled ((acc + w) * 2 ^ 32) then i else rest

-- `word` is the random one; `random_index n` is what secureRandomIndex returns.
unfoldable pub secure_weighted_index : (ℕ → ℕ) → ℕ → List ℕ → ℕ
secure_weighted_index random_index word weights =
    let total = total_weight weights in
    if nat_beq total 0 then random_index (length weights) else pick (word * total) 0 0 weights

-- The loop over random words; `none` is one that is still running when they are used up.
unfoldable pub secure_random_index : ℕ → List ℕ → Option ℕ
secure_random_index n [] = if leb n 1 then some 0 else none
secure_random_index n (word ∷ words) =
    let rest = secure_random_index n words in
    if leb n 1 then some 0 else if ltb word (2 ^ 32 / n * n) then some (word % n) else rest

abbrev pub direction_weight : Option GuardPeer → ℕ
direction_weight none = 1
direction_weight (some p) = if p.is_outbound then 3 else 1

abbrev pub age_of : ℕ → Option GuardPeer → ℕ
age_of now none = 0
age_of now (some p) = elim p.verified_at [ none ↦ 0 | some t ↦ now - t ]

-- In parts of which the source's unit has `observation_saturation_ms`.
abbrev pub guard_weight : JsMap Text GuardPeer → ℕ → Text → ℕ
guard_weight peers now id =
    let peer = JsMap.get id peers in
    direction_weight peer
    * (observation_saturation_ms + min (age_of now peer) observation_saturation_ms)

abbrev pub gone : JsMap Text GuardPeer → Option Text → Bool
gone peers none = false
gone peers (some id) = not (JsMap.has id peers)

-- The choice is one of the candidates, which are not empty.
abbrev pub pin :
    ℕ → Option OnionHop → DandelionRouter → Option OnionHop × (List GuardEffect × DandelionRouter)
pin now none s = (none, ([], s))
pin now (some hop) s = (some hop, set_guard (some hop.peer_id) (guard_pin_expiry now) s)

unfoldable pub get_pinned_guard :
    (ℕ → ℕ)
    → ℕ
    → JsMap Text GuardPeer
    → List OnionHop
    → ℕ
    → DandelionRouter
    → Option OnionHop × (List GuardEffect × DandelionRouter)
get_pinned_guard random_index word peers candidates now s =
    let weights = map (λ c. guard_weight peers now c.peer_id) candidates in
    let selected = get_elem? candidates (secure_weighted_index random_index word weights) in
    let cleared = if gone peers s.pinned_guard_id then set_guard none (at 0) s else ([], s) in
    elim (live_guard peers candidates now s) [
      | some hop ↦ (some hop, ([], s))
      | none ↦ if nat_beq (length candidates) 0 then (none, cleared) else pin now selected s
    ]

-- ===== src/HintRouter.antt =====
-- packages/core/src/network/hint/HintRouter.ts: hints go to every neighbour, and each node tries its
-- own keys on them. A handler returns what it does, in order, and the router's state. `opened` stands
-- for the call of the listeners, `observed` for that of the listeners of any hint. SHA-256 and
-- openHint of HintCrypto.ts, which is libsodium's decryption, are parameters; so is the type of
-- what a hint holds. The neighbours and the clock are an argument of each call.
pub mod Veil
pub mod Buffer
pub mod Once
pub mod Tests
use aether_web_lite.Prelude.{
  ℕ, ◌+◌, ◌-◌, Bool, true, false, not, ◌||◌, Option, none, some, List, [], ◌∷◌, ◌++◌, ltb,
  if◌then◌else◌, ◌==◌, length, take, drop, is_some,
}
use aether_web_lite.Prelude.Text.{Text, text_eq}
use aether_web_lite.Bytes.{Bytes}
use aether_web_lite.JsMap
use aether_web_lite.JsMap.{JsMap}
use aether_web_lite.SeenCache
use aether_web_lite.SeenCache.{SeenCache}
use aether_web_lite.Network.{PeerConnection, relays_to}
use aether_web_lite.HintPacket.{
  HintPacket, RawHint, hint_id, verify_hint_pow, hint_pow_difficulty, parse_hint_packet,
  decode_hint,
}

abbrev pub recent_hint_buffer : ℕ
recent_hint_buffer = 2000

abbrev pub hint_initial_ttl : ℕ
hint_initial_ttl = 8

-- What a call finds around it.
pub record Around : Type 0 where
  pub my_peer_id : Text
  pub peers : List PeerConnection
  pub now : ℕ

-- A Set is a map to the unit type.
pub record HintRouter : Type 0 where
  pub flooded : SeenCache
  pub received : SeenCache
  pub delivered : SeenCache
  pub keys : JsMap Text Bytes
  pub recent_hints : List HintPacket
  pub recent_ids : JsMap Text Unit

abbrev pub new_router : HintRouter
new_router = record {
  flooded = [];
  received = [];
  delivered = [];
  keys = [];
  recent_hints = [];
  recent_ids = [];
}

pub data Effect (Payload : Type 0) : Type 0 where
  echo : Text → Effect Payload
  observed : Effect Payload
  opened : Payload → Text → HintPacket → Effect Payload
  send : Text → HintPacket → Effect Payload
  originate : HintPacket → Text → Effect Payload

module _ (sha256 : Bytes → Bytes) where
  -- Every hint that is handled has passed parseHintPacket, and so has an id.
  abbrev pub id_of : HintPacket → Text
  id_of h = elim (hint_id sha256 h) [ none ↦ [] | some id ↦ id ]

  -- The loop over what is spliced off.
  abbrev pub forget_ids : List HintPacket → JsMap Text Unit → JsMap Text Unit
  forget_ids [] ids = ids
  forget_ids (old ∷ evicted) ids = forget_ids evicted (JsMap.delete (id_of old) ids)

  unfoldable pub remember : HintPacket → HintRouter → HintRouter
  remember h s =
      let hints = s.recent_hints ++ h ∷ [] in
      let ids = JsMap.set (id_of h) tt s.recent_ids in
      let excess = length hints - recent_hint_buffer in
      if JsMap.has (id_of h) s.recent_ids
      then s
      else if ltb recent_hint_buffer (length hints)
      then record s {
        recent_hints = drop excess hints;
        recent_ids = forget_ids (take excess hints) ids;
      }
      else record s { recent_hints = hints; recent_ids = ids }

module _ {Payload : Type 0} where
  unfoldable pub send_all : Text → HintPacket → List PeerConnection → List (Effect Payload)
  send_all exclude h [] = []
  send_all exclude h (peer ∷ peers) =
      let rest = send_all exclude h peers in
      if relays_to exclude peer then send peer.peer_id h ∷ rest else rest

  -- The first key that opens a hint, in the order of the keys.
  unfoldable pub first_opening :
      (Bytes → HintPacket → Option Payload)
      → HintPacket
      → JsMap Text Bytes
      → Option (Payload × Text)
  first_opening open_hint h [] = none
  first_opening open_hint h ((key_id, k) ∷ keys) = elim (open_hint k h) [
    | none ↦ first_opening open_hint h keys
    | some payload ↦ some (payload, key_id)
  ]

module _ (sha256 : Bytes → Bytes) {Payload : Type 0}
    (open_hint : Bytes → HintPacket → Option Payload) where
  -- The listeners are called when a key opens the hint; the Boolean result is whether there are
  -- such calls.
  unfoldable pub try_open :
      Around → HintPacket → Text → HintRouter → List (Effect Payload) × HintRouter
  try_open a h id s =
      if SeenCache.has id s.delivered then ([], s) else elim (first_opening open_hint h s.keys) [
        | none ↦ ([], s)
        | some (payload, key_id) ↦ (
          opened payload key_id h ∷ [],
          record s { delivered = SeenCache.add id a.now s.delivered },
        )
      ]

  unfoldable pub flood :
      Around → HintPacket → Text → HintRouter → List (Effect Payload) × HintRouter
  flood a h exclude s = if SeenCache.has (id_of sha256 h) s.flooded then ([], s) else (
    send_all exclude (record h { ttl = hint_initial_ttl }) a.peers,
    record s { flooded = SeenCache.add (id_of sha256 h) a.now s.flooded },
  )

  -- The loop over the buffer.
  unfoldable pub retry : Around → List HintPacket → HintRouter → List (Effect Payload) × HintRouter
  retry a [] s = ([], s)
  retry a (h ∷ hints) s =
      let (now_open, s1) = try_open a h (id_of sha256 h) s in
      let (later, s2) = retry a hints s1 in (now_open ++ later, s2)

  unfoldable pub add_key : Around → Text → Bytes → HintRouter → List (Effect Payload) × HintRouter
  add_key a key_id k s = retry a s.recent_hints (record s { keys = JsMap.set key_id k s.keys })

  abbrev pub remove_key : Text → HintRouter → HintRouter
  remove_key key_id s = record s { keys = JsMap.delete key_id s.keys }

  unfoldable pub originate_hint :
      Around → HintPacket → Text → HintRouter → List (Effect Payload) × HintRouter
  originate_hint a h id s =
      (originate h id ∷ [], record s { delivered = SeenCache.add id a.now s.delivered })

  -- The buffer, the keys, then the neighbours.
  unfoldable pub take_in :
      Around → Text → HintPacket → HintRouter → List (Effect Payload) × HintRouter
  take_in a exclude h s =
      let (shown, s1) = try_open a h (id_of sha256 h) (remember sha256 h s) in
      let (sent, s2) = flood a h exclude s1 in (shown ++ sent, s2)

  unfoldable pub handle_exit_hint : Around → Bytes → HintRouter → List (Effect Payload) × HintRouter
  handle_exit_hint a bytes s = elim (decode_hint bytes) [
    | none ↦ ([], s)
    | some h ↦
        let (done, s1) = take_in a a.my_peer_id h s in
        if verify_hint_pow sha256 hint_pow_difficulty h
        then (echo (id_of sha256 h) ∷ done, s1)
        else ([], s)
  ]

  -- What a hint that is well-formed and has its work leads to.
  unfoldable pub accept_hint :
      Around → Text → HintPacket → HintRouter → List (Effect Payload) × HintRouter
  accept_hint a sender_id h s =
      let first = record s { received = SeenCache.add (id_of sha256 h) a.now s.received } in
      let (done, s1) = take_in a sender_id h first in
      if SeenCache.has (id_of sha256 h) s.received
      then (echo (id_of sha256 h) ∷ [], s)
      else (echo (id_of sha256 h) ∷ observed ∷ done, s1)

  unfoldable pub handle_hint :
      Around → Text → RawHint → HintRouter → List (Effect Payload) × HintRouter
  handle_hint a sender_id msg s = elim (parse_hint_packet msg) [
    | none ↦ ([], s)
    | some h ↦
        let accepted = accept_hint a sender_id h s in
        if verify_hint_pow sha256 hint_pow_difficulty h then accepted else ([], s)
  ]

  abbrev pub reflood : Around → HintPacket → HintRouter → List (Effect Payload) × HintRouter
  reflood a h s = flood a h a.my_peer_id s

  -- `this.peerManager.peers.get(peerId)`
  abbrev pub peer_of : Text → List PeerConnection → Option PeerConnection
  peer_of peer_id [] = none
  peer_of peer_id (peer ∷ peers) =
      if peer.peer_id == peer_id then some peer else peer_of peer_id peers

  unfoldable pub send_to : Around → Text → HintPacket → List (Effect Payload)
  send_to a peer_id h = elim (peer_of peer_id a.peers) [
    | none ↦ []
    | some peer ↦ if not peer.is_connected || not peer.is_verified then [] else send peer_id h ∷ []
  ]

  unfoldable pub ingest_local :
      Around → HintPacket → HintRouter → List (Effect Payload) × HintRouter
  ingest_local a h s =
      if verify_hint_pow sha256 hint_pow_difficulty h
      then try_open a h (id_of sha256 h) (remember sha256 h s)
      else ([], s)

-- What happens to a router, with its surroundings at that time. Keys that come and go and
-- stored hints concern the node itself; the last three are the timers of the caches.
pub data Event : Type 0 where
  hint : Around → Text → RawHint → Event
  exit_hint : Around → Bytes → Event
  own_hint : Around → HintPacket → Text → Event
  refloods : Around → HintPacket → Event
  gains_key : Around → Text → Bytes → Event
  loses_key : Text → Event
  ingests : Around → HintPacket → Event
  cleans_flooded : ℕ → Event
  cleans_received : ℕ → Event
  cleans_delivered : ℕ → Event

module _ (sha256 : Bytes → Bytes) {Payload : Type 0}
    (open_hint : Bytes → HintPacket → Option Payload) where
  unfoldable pub step : Event → HintRouter → List (Effect Payload) × HintRouter
  step (hint a sender_id msg) s = handle_hint sha256 open_hint a sender_id msg s
  step (exit_hint a bytes) s = handle_exit_hint sha256 open_hint a bytes s
  step (own_hint a h id) s = originate_hint sha256 open_hint a h id s
  step (refloods a h) s = reflood sha256 open_hint a h s
  step (gains_key a key_id k) s = add_key sha256 open_hint a key_id k s
  step (loses_key key_id) s = ([], remove_key sha256 open_hint key_id s)
  step (ingests a h) s = ingest_local sha256 open_hint a h s
  step (cleans_flooded now) s = ([], record s { flooded = SeenCache.cleanup now s.flooded })
  step (cleans_received now) s = ([], record s { received = SeenCache.cleanup now s.received })
  step (cleans_delivered now) s = ([], record s { delivered = SeenCache.cleanup now s.delivered })

  unfoldable pub run : List Event → HintRouter → List (Effect Payload)
  run [] s = []
  run (e ∷ es) s = let (done, s1) = step e s in done ++ run es s1

-- ===== src/ZoneGossipRouter/Once.antt =====
-- A packet that arrives again is neither relayed nor shown again, while the caches remember it.
use aether_web_lite.Prelude.{
  ℕ, ◌+◌, ◌≤◌, ◌≡◌, refl, ap, ◌⊎◌, Bool, true, false, Option, some, List, [], ◌∷◌, arith,
  Bool-cases, inl, inr, length, All,
}
use aether_web_lite.Prelude.Text.{Text, text_eq, truthy}
use aether_web_lite.Bytes.{Bytes}
use aether_web_lite.PowPolicy.{Field, int}
use aether_web_lite.PacketValidator.{GossipPacket, ValidateOptions, validate, check, accept}
use aether_web_lite.PacketValidator.Accepted.{Lawful, check_iff}
use aether_web_lite.SeenCache
use aether_web_lite.SeenCache.Bounds.{IsValid, add-IsValid}
use aether_web_lite.SeenCache.Remembered.{cleanups, get-add, get-cleanups}
use aether_web_lite.JsMap
use aether_web_lite.JsMap.Laws.{has-get}
use aether_web_lite.SeenCache.{SeenCache}
use aether_web_lite.ZoneGossipRouter.{
  Effect, id_of, GossipRouter, Around, flood, deliver_local, accept_packet, receive, handle_gossip,
}
use aether_web_lite.ZoneGossipRouter.Effects.{
  shown, sent, shown-append, sent-append, shown-send_all,
}

flood_again :
    (a : Around) (p : GossipPacket) (s : GossipRouter) (exclude : Text)
    → SeenCache.has (id_of p) s.flooded ≡ true
    → (flood a p exclude s).0 ≡ []
unfolding flood
flood_again a p s exclude h = ground arith

-- Valid caches that do not hold the packet's id.
pub record Unseen (p : GossipPacket) (s : GossipRouter) : Type 0 where
  pub flooded_valid : IsValid s.flooded
  pub delivered_valid : IsValid s.delivered
  pub not_flooded : SeenCache.has (id_of p) s.flooded ≡ false
  pub not_delivered : SeenCache.has (id_of p) s.delivered ≡ false

-- The caches' timers have fired at these times.
abbrev pub cleaned : List ℕ → List ℕ → GossipRouter → GossipRouter
cleaned fs ds s = record { flooded = cleanups fs s.flooded; delivered = cleanups ds s.delivered }

module _ (a : Around) (p : GossipPacket) (s : GossipRouter) where
  -- After the first relay the id is in the cache with the time, and no listener was called.
  flood_marks :
      (exclude : Text)
      → SeenCache.has (id_of p) s.flooded ≡ false
      → IsValid s.flooded
      → (JsMap.get (id_of p) (flood a p exclude s).1.flooded ≡ some a.now)
        × ((flood a p exclude s).1.delivered ≡ s.delivered)
        × (shown (flood a p exclude s).0 ≡ 0)
  unfolding flood shown SeenCache.has
  flood_marks exclude new v = ground (
    arith,
    get-add (id_of p) a.now s.flooded v,
    shown-send_all exclude (record p { hop_count = int 0 }) a.peers,
  )

  -- Local delivery relays nothing and calls the listeners once at most.
  deliver_once :
      (sub : Field → Bool)
      → ((deliver_local sub a p s).1.flooded ≡ s.flooded)
        × (sent (deliver_local sub a p s).0 ≡ 0)
        × (shown (deliver_local sub a p s).0 ≤ 1)
  unfolding deliver_local shown sent
  deliver_once sub = ground arith

  -- If it called the listeners, the id is in the cache with the time.
  deliver_marks :
      (sub : Field → Bool)
      → SeenCache.has (id_of p) s.delivered ≡ false
      → IsValid s.delivered
      → (shown (deliver_local sub a p s).0 ≡ 0)
        ⊎ (JsMap.get (id_of p) (deliver_local sub a p s).1.delivered ≡ some a.now)
  unfolding deliver_local shown SeenCache.has
  deliver_marks sub new v = ground (arith, get-add (id_of p) a.now s.delivered v)

  deliver_again :
      (sub : Field → Bool)
      → SeenCache.has (id_of p) s.delivered ≡ true
      → (deliver_local sub a p s).0 ≡ []
  unfolding deliver_local
  deliver_again sub h = ground arith

  -- A call for a packet whose id was relayed sends nothing, and shows no more than delivery does.
  accept_again :
      (sub : Field → Bool) (exclude : Text)
      → SeenCache.has (id_of p) s.flooded ≡ true
      → (sent (accept_packet sub a exclude p s).0 ≡ 0)
        × (shown (accept_packet sub a exclude p s).0 ≡ shown (deliver_local sub a p s).0)
  unfolding accept_packet sent shown
  accept_again sub exclude h =
      let (kept, quiet, _) = deliver_once sub in
      let s1 = (deliver_local sub a p s).1 in
      let nothing = flood_again a p s1 exclude (rw kept h) in
      (
        omega (
          arith,
          sent-append (deliver_local sub a p s).0 (flood a p exclude s1).0,
          quiet,
          ap sent nothing,
        ),
        omega (
          arith,
          shown-append (deliver_local sub a p s).0 (flood a p exclude s1).0,
          ap shown nothing,
        ),
      )

-- What the first call leaves: the id relayed at its time, and shown at most once.
accept_first :
    (a : Around) (p : GossipPacket) (s : GossipRouter) (sub : Field → Bool) (exclude : Text)
    → Unseen p s
    → let r = accept_packet sub a exclude p s in
      (JsMap.get (id_of p) r.1.flooded ≡ some a.now)
      × (shown r.0 ≤ 1)
      × ((shown r.0 ≡ 0) ⊎ (JsMap.get (id_of p) r.1.delivered ≡ some a.now))
unfolding accept_packet shown
accept_first a p s sub exclude u =
    let s1 = (deliver_local sub a p s).1 in
    let (kept, quiet, once) = deliver_once a p s sub in
    let (relayed, same, unseen) =
      flood_marks a p s1 exclude (rw kept u.not_flooded) (rw kept u.flooded_valid) in
    let count = shown-append (deliver_local sub a p s).0 (flood a p exclude s1).0 in
    (
      relayed,
      omega (arith, count, unseen, once),
      elim (deliver_marks a p s sub u.not_delivered u.delivered_valid) [
        | inl none_shown ↦ inl (omega (arith, count, unseen, none_shown))
        | inr marked ↦ inr (rw same marked)
      ],
    )

-- Every call leaves the caches without repetition.
accept-Distinct :
    (a : Around) (p : GossipPacket) (s : GossipRouter) (sub : Field → Bool) (exclude : Text)
    → truthy (id_of p) ≡ true
    → Unseen p s
    → let r = accept_packet sub a exclude p s in
      JsMap.Distinct r.1.flooded × JsMap.Distinct r.1.delivered
unfolding accept_packet deliver_local flood
accept-Distinct a p s sub exclude t u =
    let f = (add-IsValid (id_of p) a.now s.flooded t u.flooded_valid).distinct in
    let d = (add-IsValid (id_of p) a.now s.delivered t u.delivered_valid).distinct in
    ground (arith, f, d, u.flooded_valid.distinct, u.delivered_valid.distinct)

still :
    (id : Text) (now : ℕ) (times : List ℕ) (c : SeenCache)
    → All (λ later. later ≤ now + 900_000) times
    → JsMap.Distinct c
    → JsMap.get id c ≡ some now
    → SeenCache.has id (cleanups times c) ≡ true
unfolding SeenCache.has
still id now times c early d h =
    ground (arith, has-get id (cleanups times c), get-cleanups id now times c early d h)

accept_twice :
    (a a' : Around) (p : GossipPacket) (s : GossipRouter) (sub sub' : Field → Bool)
    (exclude exclude' : Text) (fs ds : List ℕ)
    → truthy (id_of p) ≡ true
    → Unseen p s
    → All (λ later. later ≤ a.now + 900_000) fs
    → All (λ later. later ≤ a.now + 900_000) ds
    → let r = accept_packet sub a exclude p s in
      let r' = accept_packet sub' a' exclude' p (cleaned fs ds r.1) in
      (sent r'.0 ≡ 0) × (shown r.0 + shown r'.0 ≤ 1)
unfolding shown
accept_twice a a' p s sub sub' exclude exclude' fs ds t u ef ed =
    let r = accept_packet sub a exclude p s in
    let s1 = cleaned fs ds r.1 in
    let (relayed, once, seen) = accept_first a p s sub exclude u in
    let (df, dd) = accept-Distinct a p s sub exclude t u in
    let (silent, as_delivered) =
      accept_again a' p s1 sub' exclude' (still (id_of p) a.now fs r.1.flooded ef df relayed) in
    let (_, _, once') = deliver_once a' p s1 sub' in
    (
      silent,
      elim seen [
        | inl not_shown ↦ omega (arith, as_delivered, not_shown, once')
        | inr marked ↦ omega (
          arith,
          as_delivered,
          once,
          shown_nothing _
              (deliver_again a' p s1 sub' (still (id_of p) a.now ds r.1.delivered ed dd marked)),
        )
      ],
    )
  where
    shown_nothing : (es : List Effect) → es ≡ [] → shown es ≡ shown []
    shown_nothing es e = ap shown e

truthy_of_length : (t : Text) → length t ≡ 64 → truthy t ≡ true
truthy_of_length [] h = absurd (omega arith)
truthy_of_length (c ∷ t) h = refl

named :
    (sha256 : Bytes → Bytes) (p : GossipPacket) (opts : ValidateOptions)
    → Lawful sha256 opts p
    → truthy (id_of p) ≡ true
named sha256 p opts l = rw l.id_is (truthy_of_length l.packet_id l.id_length)

abbrev live : Around → ValidateOptions
live a = record { now = a.now; allow_stale = false }

validate-accept :
    (sha256 : Bytes → Bytes) (o : Option GossipPacket) (opts : ValidateOptions)
    → check sha256 o opts ≡ accept
    → validate sha256 o opts ≡ true
unfolding validate
validate-accept sha256 o opts h = ground arith

receive_valid :
    (sha256 : Bytes → Bytes) (sub : Field → Bool) (a : Around) (exclude : Text) (p : GossipPacket)
    (s : GossipRouter)
    → validate sha256 (some p) (live a) ≡ true
    → receive sha256 sub a exclude (some p) s ≡ accept_packet sub a exclude p s
unfolding receive
receive_valid sha256 sub a exclude p s h = rw h refl

receive_invalid :
    (sha256 : Bytes → Bytes) (sub : Field → Bool) (a : Around) (exclude : Text) (p : GossipPacket)
    (s : GossipRouter)
    → validate sha256 (some p) (live a) ≡ false
    → receive sha256 sub a exclude (some p) s ≡ ([], s)
unfolding receive
receive_invalid sha256 sub a exclude p s h = rw h refl

either_way :
    (sha256 : Bytes → Bytes) (a a' : Around) (p : GossipPacket) (s : GossipRouter)
    (sub sub' : Field → Bool) (exclude exclude' : Text) (fs ds : List ℕ)
    → truthy (id_of p) ≡ true
    → Unseen p s
    → All (λ later. later ≤ a.now + 900_000) fs
    → All (λ later. later ≤ a.now + 900_000) ds
    → (validate sha256 (some p) (live a') ≡ true) ⊎ (validate sha256 (some p) (live a') ≡ false)
    → let r = accept_packet sub a exclude p s in
      let r' = receive sha256 sub' a' exclude' (some p) (cleaned fs ds r.1) in
      (sent r'.0 ≡ 0) × (shown r.0 + shown r'.0 ≤ 1)
unfolding sent shown
either_way sha256 a a' p s sub sub' exclude exclude' fs ds t u ef ed (inl good) =
    rw
      (receive_valid sha256 sub' a' exclude' p (cleaned fs ds (accept_packet sub a exclude p s).1)
        good)
      (accept_twice a a' p s sub sub' exclude exclude' fs ds t u ef ed)
either_way sha256 a a' p s sub sub' exclude exclude' fs ds t u ef ed (inr bad) =
    rw
      (receive_invalid sha256 sub' a' exclude' p (cleaned fs ds (accept_packet sub a exclude p s).1)
        bad)
      (refl, omega (arith, (accept_first a p s sub exclude u).1))

-- Two arrivals of one packet, the first of them passing the checks and new to both caches, from any
-- senders and under any subscriptions, with the timers of the caches firing in between, but not
-- later than 15 minutes after the first: the second sends nothing, and the two together are shown
-- to the listeners at most once.
pub receive_twice :
    (sha256 : Bytes → Bytes) (a a' : Around) (p : GossipPacket) (s : GossipRouter)
    (sub sub' : Field → Bool) (sender sender' : Text) (fs ds : List ℕ)
    → check sha256 (some p) (record { now = a.now; allow_stale = false }) ≡ accept
    → Unseen p s
    → All (λ later. later ≤ a.now + 900_000) fs
    → All (λ later. later ≤ a.now + 900_000) ds
    → let r = handle_gossip sha256 sub a sender (some p) s in
      let r' = handle_gossip sha256 sub' a' sender' (some p) (cleaned fs ds r.1) in
      (sent r'.0 ≡ 0) × (shown r.0 + shown r'.0 ≤ 1)
unfolding handle_gossip
receive_twice sha256 a a' p s sub sub' sender sender' fs ds ok u ef ed =
    let t = named sha256 p (live a) ((check_iff sha256 (live a) p).0 ok) in
    rw (receive_valid sha256 sub a sender p s (validate-accept sha256 (some p) (live a) ok)) (
      either_way sha256 a a' p s sub sub' sender sender' fs ds t u ef ed
        (Bool-cases (validate sha256 (some p) (live a'))))

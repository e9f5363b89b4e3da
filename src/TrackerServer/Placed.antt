-- ===== src/TrackerServer/Placed.antt =====
-- Every open socket has its entry, under the address from which it was accepted.
use aether_web_lite.Prelude.{
  ℕ, ◌+◌, ◌≡◌, refl, sym, subst, ◌∙◌, true, false, Option, none, some, List, [], ◌∷◌, ◌++◌, map,
  arith, leb, includes, ◌==◌, number_key, eq_iff, if◌then◌else◌, Option-cases, Bool-cases, inl, inr,
}
use aether_web_lite.Prelude.Text.{Text, text_eq}
use aether_web_lite.JsMap
use aether_web_lite.JsMap.{JsMap}
use aether_web_lite.JsMap.Laws.{get-set, get-delete, has-get, includes-keys}
use aether_web_lite.Json.{Json}
use aether_web_lite.SessionManager.{SocketEffect, terminate, destroy}
use aether_web_lite.NodeIdentity.{Sodium}
use aether_web_lite.TrackerServer.{
  Connection, TrackerServer, is_open, accept, reject, release, shut, count_at, new_connection,
}
use aether_web_lite.TrackerServer.Handlers.{closed, shutdown, apply_effects}
use aether_web_lite.TrackerServer.Steps.{
  Step, accepts, greets, receives, times_out, closes, pongs, maintains, shuts_down, Reach, here,
  next,
}
use aether_web_lite.TrackerServer.Same.{
  address_of, open-shut, Same, pong-Same, maintain-Same, handshake_timeout-Same, greet-Same,
  handle_message-Same, end_session-Same, apply_effects-Same,
}

-- A socket with an entry under an address is what `from` has it as.
abbrev pub Entered : (ℕ → Option Text) → ℕ → TrackerServer → Type 0
Entered from v s = (address : Text) × (from v ≡ some address) × (address_of v s ≡ some address)

abbrev pub Placed : (ℕ → Option Text) → TrackerServer → Type 0
Placed from s = (v : ℕ) → is_open v s ≡ true → Entered from v s

Same-Placed :
    (from : ℕ → Option Text) (s t : TrackerServer) → Same s t → Placed from s → Placed from t
Same-Placed from s t e h v o =
    let (address, was, there) = h v (e.open_before v o) in (address, was, e.places v ∙ there)

abbrev pub now_from : ℕ → Text → (ℕ → Option Text) → ℕ → Option Text
now_from ws address from v = if ws == v then some address else from v

was_open :
    (ws v : ℕ) (open_ones : List ℕ)
    → includes v (ws ∷ open_ones) ≡ true
    → (ws == v) ≡ false
    → includes v open_ones ≡ true
was_open ws v open_ones h other = ground arith

refused-Placed :
    (from : ℕ → Option Text) (ws : ℕ) (address : Text) (s : TrackerServer)
    → Placed from s
    → Placed (now_from ws address from) (shut ws (record s { open_sockets = ws ∷ s.open_sockets }))
refused-Placed from ws address s h v o =
    let (there, other) = open-shut ws v (ws ∷ s.open_sockets) o in
    let (a, was, entry) = h v (was_open ws v s.open_sockets there other) in (a, rw other was, entry)

accept-Placed :
    (from : ℕ → Option Text) (ws : ℕ) (address : Text) (header : Option Text) (s : TrackerServer)
    → Placed from s
    → Placed (now_from ws address from) (accept ws address header s).1
unfolding accept reject
accept-Placed from ws address header s h =
    let conn = new_connection (s.conn_seq + 1) header address in
    elim (Bool-cases (leb s.max_connections_per_address (count_at address s))) [
      | inl full ↦ rw (accept, full) (refused-Placed from ws address s h)
      | inr room ↦
          rw (accept, room)
            (λ v o. elim (Bool-cases (ws == v)) [
              | inl same ↦ (
                address,
                rw same refl,
                ground (arith, get-set ws v conn s.connections, eq_iff ws v),
              )
              | inr other ↦
                  let (a, was, entry) = h v (was_open ws v s.open_sockets o other) in
                  (
                    a,
                    rw other was,
                    ground (arith, get-set ws v conn s.connections, eq_iff ws v, entry),
                  )
            ])
    ]

released-Placed :
    (from : ℕ → Option Text) (ws : ℕ) (conn : Connection) (s : TrackerServer)
    → JsMap.get ws s.connections ≡ some conn
    → Placed from s
    → Placed from (release ws (shut ws s))
unfolding release
released-Placed from ws conn s e h =
    rw (e, release)
      (λ v o.
        let (there, other) = open-shut ws v s.open_sockets o in
        let (a, was, entry) = h v there in
        (a, was, ground (arith, get-delete ws v s.connections, eq_iff ws v, other, entry)))

closed-Placed :
    (from : ℕ → Option Text) (ws : ℕ) (s : TrackerServer)
    → Placed from s
    → Placed from (closed ws s)
unfolding closed
closed-Placed from ws s h = elim (Option-cases (JsMap.get ws s.connections)) [
  | inl e ↦ rw (e, closed) (λ v o. h v (open-shut ws v s.open_sockets o).0)
  | inr (conn, e) ↦
      let r = release ws (shut ws s) in
      rw (e, closed)
        (Same-Placed from r _ (end_session-Same ws conn.listens r)
          (released-Placed from ws conn s e h))
]

-- A socket that is open after all have been terminated was not among them.
open-apply_effects :
    (ks : List ℕ) (es : List SocketEffect) (v : ℕ) (s : TrackerServer)
    → is_open v (apply_effects (map terminate ks ++ es) s).1 ≡ true
    → includes v ks ≡ false
unfolding apply_effects
open-apply_effects [] es v s o = refl
open-apply_effects (k ∷ ks) es v s o =
    let before = (apply_effects-Same (map terminate ks ++ es) (shut k s)).open_before v o in
    ground (arith, open-apply_effects ks es v (shut k s) o, open-shut k v s.open_sockets before)

has_entry :
    (v : ℕ) (from : ℕ → Option Text) (s : TrackerServer)
    → Entered from v s
    → JsMap.has v s.connections ≡ true
has_entry v from s (address, was, entry) =
    ground (arith, has-get v s.connections, entry, Option-cases (JsMap.get v s.connections))

shutdown-Placed :
    (from : ℕ → Option Text) (s : TrackerServer) → Placed from s → Placed from (shutdown s).1
unfolding shutdown
shutdown-Placed from s h = elim (Bool-cases s.stopped) [
  | inl over ↦ rw (shutdown, over) h
  | inr goes_on ↦
      let keys = JsMap.keys s.connections in
      let es = (destroy s.sessions).0 in
      let emptied : TrackerServer = record s {
        stopped = true;
        connections = [];
        per_address = [];
        sessions = (destroy s.sessions).1;
      } in
      rw (shutdown, goes_on)
        (λ v o.
          let was = (apply_effects-Same (map terminate keys ++ es) emptied).open_before v o in
          absurd (
            ground (
              arith,
              has_entry v from s (h v was),
              includes-keys v s.connections,
              open-apply_effects keys es v emptied o,
            )))
]

module _ (sodium : Sodium) (json_parse : Text → Option Json) where
  -- The address that a step gives to a socket that it accepts.
  abbrev pub from_step :
      {s t : TrackerServer} → Step sodium json_parse s t → (ℕ → Option Text) → ℕ → Option Text
  from_step (accepts ws address header live new e) from = now_from ws address from
  from_step (greets ws nonce e) from = from
  from_step (receives ws raw now random_int e) from = from
  from_step (times_out ws e) from = from
  from_step (closes ws e) from = from
  from_step (pongs ws now e) from = from
  from_step (maintains now e) from = from
  from_step (shuts_down e) from = from

  -- The address from which a socket was last accepted in a history.
  abbrev pub accepted_from : {s t : TrackerServer} → Reach sodium json_parse s t → ℕ → Option Text
  accepted_from here v = none
  accepted_from (next r st) v = from_step st (accepted_from r) v

  pub Step-Placed :
      (from : ℕ → Option Text) (s t : TrackerServer) (st : Step sodium json_parse s t)
      → Placed from s
      → Placed (from_step st from) t
  Step-Placed from s t (accepts ws address header live new e) h =
      subst (Placed (now_from ws address from)) (sym e) (accept-Placed from ws address header s h)
  Step-Placed from s t (greets ws nonce e) h =
      subst (Placed from) (sym e) (Same-Placed from s _ (greet-Same sodium ws nonce s) h)
  Step-Placed from s t (receives ws raw now random_int e) h =
      subst (Placed from) (sym e)
        (Same-Placed from s _ (handle_message-Same sodium random_int json_parse ws raw now s) h)
  Step-Placed from s t (times_out ws e) h =
      subst (Placed from) (sym e) (Same-Placed from s _ (handshake_timeout-Same ws s) h)
  Step-Placed from s t (closes ws e) h = subst (Placed from) (sym e) (closed-Placed from ws s h)
  Step-Placed from s t (pongs ws now e) h =
      subst (Placed from) (sym e) (Same-Placed from s _ (pong-Same ws now s) h)
  Step-Placed from s t (maintains now e) h =
      subst (Placed from) (sym e) (Same-Placed from s _ (maintain-Same now s) h)
  Step-Placed from s t (shuts_down e) h = subst (Placed from) (sym e) (shutdown-Placed from s h)

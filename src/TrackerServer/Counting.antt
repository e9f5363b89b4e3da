-- ===== src/TrackerServer/Counting.antt =====
-- The counts of connections by address, and the entries of the open sockets.
use aether_web_lite.Prelude.{
  ℕ, ◌+◌, ◌-◌, ◌≤◌, ◌<◌, ◌≡◌, refl, sym, subst, true, false, none, some, Option, [], ◌∷◌, arith,
  leb, if◌then◌else◌, ◌==◌, number_key, eq_iff, Option-cases, Bool-cases, inl, inr, count, map,
  ◌++◌,
}
use aether_web_lite.Prelude.Text.{Text, text_eq}
use aether_web_lite.JsMap
use aether_web_lite.JsMap.{JsMap}
use aether_web_lite.JsMap.Laws.{get-set, get-delete, Distinct-set, Distinct-delete, delete_absent}
use aether_web_lite.Json.{Json}
use aether_web_lite.SessionManager.{terminate, destroy}
use aether_web_lite.NodeIdentity.{Sodium}
use aether_web_lite.TrackerProtocol.{at_capacity}
use aether_web_lite.TrackerServer.{
  Connection, TrackerServer, TrackerOptions, new_tracker, count_at, or_else, accept, release,
  leave_address, shut, new_connection,
}
use aether_web_lite.TrackerServer.Handlers.{closed, shutdown, apply_effects}
use aether_web_lite.TrackerServer.Steps.{
  Step, accepts, greets, receives, times_out, closes, pongs, maintains, shuts_down, Reach, here,
  next,
}
use aether_web_lite.TrackerServer.Placed.{Placed, accepted_from, Step-Placed}
use aether_web_lite.TrackerServer.Same.{
  addresses, Same, Same-refl, shut-Same, reject-Same, pong-Same, maintain-Same,
  handshake_timeout-Same, greet-Same, handle_message-Same, end_session-Same, apply_effects-Same,
}

-- How many connections there are from an address.
abbrev pub connections_from : Text → TrackerServer → ℕ
connections_from address s = count address (addresses s.connections)

pub record Counted (s : TrackerServer) : Type 0 where
  pub distinct : JsMap.Distinct s.connections
  pub exact : (a : Text) → count_at a s ≡ connections_from a s
  pub bounded : (a : Text) → connections_from a s ≤ s.max_connections_per_address

pub Same-Counted : (s t : TrackerServer) → Same s t → Counted s → Counted t
Same-Counted s t e c = record {
  distinct = e.distinct c.distinct;
  exact = λ a.
      subst (λ l. count_at a t ≡ count a l) (sym e.from)
        (subst (λ m. or_else 0 (JsMap.get a m) ≡ connections_from a s) (sym e.counts) (c.exact a));
  bounded = λ a.
      subst (λ l. count a l ≤ t.max_connections_per_address) (sym e.from)
        (subst (λ n. connections_from a s ≤ n) (sym e.limit) (c.bounded a));
}

count-set_new :
    (a : Text) (ws : ℕ) (conn : Connection) (m : JsMap ℕ Connection)
    → JsMap.has ws m ≡ false
    → count a (addresses (JsMap.set ws conn m))
      ≡ (if conn.address == a then 1 else 0) + count a (addresses m)
unfolding JsMap.has JsMap.set
count-set_new a ws conn [] h = refl
count-set_new a ws conn ((w, old) ∷ m) h = ground (arith, count-set_new a ws conn m)

count-delete :
    (a : Text) (ws : ℕ) (conn : Connection) (m : JsMap ℕ Connection)
    → JsMap.Distinct m
    → JsMap.get ws m ≡ some conn
    → (if conn.address == a then 1 else 0) + count a (addresses (JsMap.delete ws m))
      ≡ count a (addresses m)
unfolding JsMap.get JsMap.delete
count-delete a ws conn [] d h = cc
count-delete a ws conn ((w, old) ∷ m) d h =
    ground (arith, count-delete a ws conn m d.1, delete_absent w m d.0, eq_iff w ws)

-- A new connection, below the limit.
added :
    (ws : ℕ) (address : Text) (header : Option Text) (s : TrackerServer)
    → JsMap.has ws s.connections ≡ false
    → leb s.max_connections_per_address (count_at address s) ≡ false
    → Counted s
    → Counted (accept ws address header s).1
unfolding accept
added ws address header s h room c =
    let conn = new_connection (s.conn_seq + 1) header address in
    rw (accept, room)
      (record {
        distinct = Distinct-set ws conn s.connections c.distinct;
        exact = λ a. ground (
          arith,
          c.exact a,
          count-set_new a ws conn s.connections h,
          get-set address a (count_at address s + 1) s.per_address,
          eq_iff address a,
        );
        bounded = λ a. ground (
          arith,
          c.exact a,
          c.bounded a,
          count-set_new a ws conn s.connections h,
          eq_iff address a,
        );
      })

new_tracker-Counted : (options : TrackerOptions) → Counted (new_tracker options)
unfolding new_tracker JsMap.get
new_tracker-Counted options = record {
  distinct = tt;
  exact = λ a. refl;
  bounded = λ a. omega arith;
}

none_open : (options : TrackerOptions) → Placed (λ v. none) (new_tracker options)
unfolding new_tracker
none_open options v o = cc

accept-Counted :
    (ws : ℕ) (address : Text) (header : Option Text) (s : TrackerServer)
    → JsMap.has ws s.connections ≡ false
    → Counted s
    → Counted (accept ws address header s).1
unfolding accept
accept-Counted ws address header s h c =
    elim (Bool-cases (leb s.max_connections_per_address (count_at address s))) [
      | inr room ↦ added ws address header s h room c
      | inl full ↦
          let opened : TrackerServer = record s { open_sockets = ws ∷ s.open_sockets } in
          let as_before : Counted opened = record {
            distinct = c.distinct;
            exact = c.exact;
            bounded = c.bounded;
          } in
          rw (accept, full) (Same-Counted opened _ (reject-Same ws at_capacity opened) as_before)
    ]

count_at-leave_address :
    (a b : Text) (m : JsMap Text ℕ)
    → 0 < or_else 0 (JsMap.get b m)
    → or_else 0 (JsMap.get a (leave_address b m))
      ≡ or_else 0 (JsMap.get a m) - (if b == a then 1 else 0)
count_at-leave_address a b m h = elim (Option-cases (JsMap.get b m)) [
  | inl e ↦ absurd (ground arith)
  | inr (n, e) ↦ ground (arith, get-set b a (n - 1) m, get-delete b a m, eq_iff b a)
]

release-Counted : (ws : ℕ) (s : TrackerServer) → Counted s → Counted (release ws s)
unfolding release
release-Counted ws s c = elim (Option-cases (JsMap.get ws s.connections)) [
  | inl e ↦ rw (e, release) c
  | inr (conn, e) ↦
      let here_now : 0 < count_at conn.address s = ground (
        arith,
        c.exact conn.address,
        count-delete conn.address ws conn s.connections c.distinct e,
        eq_iff conn.address conn.address,
      ) in
      rw (e, release)
        (record {
          distinct = Distinct-delete ws s.connections c.distinct;
          exact = λ a. ground (
            arith,
            c.exact a,
            count-delete a ws conn s.connections c.distinct e,
            count_at-leave_address a conn.address s.per_address here_now,
          );
          bounded =
              λ a. ground (arith, c.bounded a, count-delete a ws conn s.connections c.distinct e);
        })
]

closed-Counted : (ws : ℕ) (s : TrackerServer) → Counted s → Counted (closed ws s)
unfolding closed
closed-Counted ws s c = elim (Option-cases (JsMap.get ws s.connections)) [
  | inl e ↦ rw (e, closed) (Same-Counted s (shut ws s) (shut-Same ws s s (Same-refl s)) c)
  | inr (conn, e) ↦
      let less =
        release-Counted ws (shut ws s)
          (Same-Counted s (shut ws s) (shut-Same ws s s (Same-refl s)) c) in
      rw (e, closed)
        (Same-Counted (release ws (shut ws s)) _
          (end_session-Same ws conn.listens (release ws (shut ws s))) less)
]

abbrev emptied : TrackerServer → TrackerServer
emptied s = record s {
  stopped = true;
  connections = [];
  per_address = [];
  sessions = (destroy s.sessions).1;
}

emptied-Counted : (s : TrackerServer) → Counted (emptied s)
unfolding JsMap.get
emptied-Counted s = record { distinct = tt; exact = λ a. refl; bounded = λ a. omega arith }

shutdown-Counted : (s : TrackerServer) → Counted s → Counted (shutdown s).1
unfolding shutdown
shutdown-Counted s c =
    let effects = map terminate (JsMap.keys s.connections) ++ (destroy s.sessions).0 in
    let end =
      Same-Counted (emptied s) (apply_effects effects (emptied s)).1
        (apply_effects-Same effects (emptied s)) (emptied-Counted s) in
    ground (arith, c, end)

module _ (sodium : Sodium) (json_parse : Text → Option Json) where
  Step-Counted : (s t : TrackerServer) → Step sodium json_parse s t → Counted s → Counted t
  Step-Counted s t (accepts ws address header live new e) c =
      subst Counted (sym e) (accept-Counted ws address header s new c)
  Step-Counted s t (greets ws nonce e) c =
      subst Counted (sym e) (Same-Counted s _ (greet-Same sodium ws nonce s) c)
  Step-Counted s t (receives ws raw now random_int e) c =
      subst Counted (sym e)
        (Same-Counted s _ (handle_message-Same sodium random_int json_parse ws raw now s) c)
  Step-Counted s t (times_out ws e) c =
      subst Counted (sym e) (Same-Counted s _ (handshake_timeout-Same ws s) c)
  Step-Counted s t (closes ws e) c = subst Counted (sym e) (closed-Counted ws s c)
  Step-Counted s t (pongs ws now e) c =
      subst Counted (sym e) (Same-Counted s _ (pong-Same ws now s) c)
  Step-Counted s t (maintains now e) c =
      subst Counted (sym e) (Same-Counted s _ (maintain-Same now s) c)
  Step-Counted s t (shuts_down e) c = subst Counted (sym e) (shutdown-Counted s c)

  kept :
      (s t : TrackerServer) (r : Reach sodium json_parse s t)
      → Counted s
      → Placed (λ v. none) s
      → Counted t × Placed (accepted_from sodium json_parse r) t
  kept s t here c h = (c, h)
  kept s t (next r st) c h =
      let (counted, placed) = kept s _ r c h in
      (
        Step-Counted _ t st counted,
        Step-Placed sodium json_parse (accepted_from sodium json_parse r) _ t st placed,
      )

  -- Whatever happens to a new tracker, in whatever order: each socket has one entry at most, and each
  -- open one has an entry, with the address from which it was accepted; the count for each address
  -- is the number of the entries with it, and that number is at most the limit.
  pub Reach-Counted :
      (options : TrackerOptions) (t : TrackerServer)
      (r : Reach sodium json_parse (new_tracker options) t)
      → Counted t × Placed (accepted_from sodium json_parse r) t
  Reach-Counted options t r =
      kept (new_tracker options) t r (new_tracker-Counted options) (none_open options)

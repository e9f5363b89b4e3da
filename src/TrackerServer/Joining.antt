-- ===== src/TrackerServer/Joining.antt =====
-- What a join has to pass, what is answered to one that does not, and that no socket is taken for a
-- node in any other way.
use aether_web_lite.Prelude.{
  ℕ, ◌≡◌, refl, Bool, true, false, not, Option, none, some, List, [], ◌∷◌, ◌++◌, arith, number_key,
  eq_iff, if◌then◌else◌, is_some, nat_beq, length, sym,
}
use mathlib.Core.List.{append-nil}
use aether_web_lite.Prelude.Text.{text, text_eq}
use aether_web_lite.JsMap
use aether_web_lite.JsMap.Laws.{get-set}
use aether_web_lite.RateLimiter.{RateLimiter, allow}
use aether_web_lite.NodeIdentity.{Sodium, verify_claim}
use aether_web_lite.TrackerProtocol.{
  TrackerErrorCode, TrackerJoin, bad_message, unsupported_version, bad_host, invalid_identity,
  bad_signature, rate_limited, normalize_host_header,
}
use aether_web_lite.TrackerServer.{
  Connection, TrackerServer, Effect, closes, send_error, send, reject,
}
use aether_web_lite.TrackerServer.Handlers.{
  is_version, host_ok, claim_in, is_signed, check_signature, check_join, handle_join,
}
use aether_web_lite.TrackerServer.Ids.{id_of}

-- What is answered to a join that is refused: the error, and whether the socket is closed.
pub record Refusal : Type 0 where
  pub code : TrackerErrorCode
  pub ends : Bool

abbrev pub stays_with : TrackerErrorCode → Refusal
stays_with code = record { code = code; ends = false }

abbrev pub closing_with : TrackerErrorCode → Refusal
closing_with code = record { code = code; ends = true }

-- The answer of the first check that fails.
abbrev pub first_failing : List (Bool × Refusal) → Option Refusal
first_failing [] = none
first_failing ((passed, refusal) ∷ rest) = if passed then first_failing rest else some refusal

-- The error's frame, and the close behind it.
abbrev pub answer : ℕ → Refusal → TrackerServer → List Effect
answer ws r s = send_error ws r.code s ++ (if r.ends then closes ws ∷ [] else [])

-- What a refused join leaves behind, on the state `s` that it was refused in.
pub record Refused (ws v : ℕ) (s : TrackerServer) (r : Refusal)
    (result : List Effect × TrackerServer) : Type 0 where
  pub reply : result.0 ≡ answer ws r s
  pub same_sessions : result.1.sessions ≡ s.sessions
  pub same_ids : id_of v result.1 ≡ id_of v s

-- The limiter is no part of what a refusal leaves.
before_limit :
    (ws v : ℕ) (s : TrackerServer) (limiter : RateLimiter) (r : Refusal)
    (result : List Effect × TrackerServer)
    → Refused ws v (record s { rate_limiter = limiter }) r result
    → Refused ws v s r result
unfolding send
before_limit ws v s limiter r result h = record {
  reply = h.reply;
  same_sessions = h.same_sessions;
  same_ids = h.same_ids;
}

module _ (sodium : Sodium) where
  -- The checks of a join behind the rate limit, in their order.
  abbrev pub later_checks : Connection → TrackerJoin → TrackerServer → List (Bool × Refusal)
  later_checks conn m s =
      (not (is_some conn.peer_id), stays_with bad_message)
      ∷ (not (nat_beq (length conn.nonce) 0), closing_with bad_message)
      ∷ (is_version m.v, closing_with unsupported_version)
      ∷ (
        host_ok (normalize_host_header (some m.host)) s.allowed_hosts conn.host,
        closing_with bad_host,
      )
      ∷ (verify_claim sodium (claim_in sodium m) s.pow_params, closing_with invalid_identity)
      ∷ (is_signed sodium conn.nonce m, closing_with bad_signature)
      ∷ []

  abbrev pub checks : Connection → TrackerJoin → ℕ → TrackerServer → List (Bool × Refusal)
  checks conn m now s =
      ((allow conn.id (text "join") now s.rate_limiter).0, stays_with rate_limited)
      ∷ later_checks conn m s

  abbrev pub refusal : Connection → TrackerJoin → ℕ → TrackerServer → Option Refusal
  refusal conn m now s = first_failing (checks conn m now s)

module _ (sodium : Sodium) (random_int : ℕ → ℕ) where
  reject-Refused :
      (ws v : ℕ) (code : TrackerErrorCode) (s : TrackerServer)
      → Refused ws v s (closing_with code) (reject ws code s)
  unfolding reject
  reject-Refused ws v code s = record { reply = refl; same_sessions = refl; same_ids = refl }

  sent_only-Refused :
      (ws v : ℕ) (code : TrackerErrorCode) (s : TrackerServer)
      → Refused ws v s (stays_with code) (send_error ws code s, s)
  sent_only-Refused ws v code s = record {
    reply = sym (append-nil (send_error ws code s));
    same_sessions = refl;
    same_ids = refl;
  }

  check_signature-Refused :
      (ws v : ℕ) (conn : Connection) (m : TrackerJoin) (now : ℕ) (s : TrackerServer)
      → JsMap.get ws s.connections ≡ some conn
      → is_signed sodium conn.nonce m ≡ false
      → Refused ws v s
          (closing_with bad_signature)
          (check_signature sodium random_int ws conn m now s)
  unfolding check_signature reject send
  check_signature-Refused ws v conn m now s h unsigned =
      let used : Connection = record conn { nonce = [] } in
      rw (check_signature, unsigned)
        (record {
          reply = refl;
          same_sessions = refl;
          same_ids = ground (arith, h, get-set ws v used s.connections, eq_iff ws v);
        })

  check_join-Refused :
      (ws v : ℕ) (conn : Connection) (m : TrackerJoin) (now : ℕ) (s : TrackerServer) (r : Refusal)
      → JsMap.get ws s.connections ≡ some conn
      → first_failing (later_checks sodium conn m s) ≡ some r
      → Refused ws v s r (check_join sodium random_int ws conn m now s)
  unfolding check_join reject
  check_join-Refused ws v conn m now s r h e = ground (
    arith,
    e,
    sent_only-Refused ws v bad_message s,
    reject-Refused ws v bad_message s,
    reject-Refused ws v unsupported_version s,
    reject-Refused ws v bad_host s,
    reject-Refused ws v invalid_identity s,
    check_signature-Refused ws v conn m now s h,
  )

  -- A join that fails a check is answered with the error of the first one that it fails, with a close
  -- of the socket unless it came too often or to a socket that has joined; the sessions stay as they
  -- were, and so does the id for which the tracker takes each socket.
  pub handle_join-Refused :
      (ws v : ℕ) (conn : Connection) (m : TrackerJoin) (now : ℕ) (s : TrackerServer) (r : Refusal)
      → JsMap.get ws s.connections ≡ some conn
      → refusal sodium conn m now s ≡ some r
      → Refused ws v s r (handle_join sodium random_int ws conn m now s)
  unfolding handle_join
  handle_join-Refused ws v conn m now s r h e =
      let limiter = (allow conn.id (text "join") now s.rate_limiter).1 in
      let s1 : TrackerServer = record s { rate_limiter = limiter } in
      ground (
        arith,
        e,
        before_limit ws v s limiter _ _ (sent_only-Refused ws v rate_limited s1),
        before_limit ws v s limiter r (check_join sodium random_int ws conn m now s1),
        check_join-Refused ws v conn m now s1 r h,
      )

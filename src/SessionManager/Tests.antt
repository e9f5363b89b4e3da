-- ===== src/SessionManager/Tests.antt =====
-- Runs of the session manager.
use aether_web_lite.Prelude.{
  count, ℕ, ◌≤◌, ◌≡◌, refl, some, List, [], ◌∷◌, arith, if◌then◌else◌, ◌==◌, not, ◌&&◌,
}
use aether_web_lite.Prelude.Text.{text, text_eq}
use aether_web_lite.JsMap
use aether_web_lite.SessionManager.{
  SessionManager, SessionOp, session_of, registers, pongs, closes, run, register_session, capacity,
  get_random_peers, shuffle, swap, set_elem, destroy, terminate,
}
use aether_web_lite.SessionManager.Bounds.{Bounded, run-Bounded}
use aether_web_lite.SessionManager.Owner.{owner, owner-run}
use aether_web_lite.SessionManager.Sample.{get_random_peers_once}

abbrev three : SessionManager
three = record {
  sessions =
      (text "a", session_of (text "a") 1 1000)
      ∷ (text "b", session_of (text "b") 2 90_000)
      ∷ (text "c", session_of (text "c") 3 95_000)
      ∷ [];
  max_sessions = 3;
  idle_timeout_ms = 120_000;
}

three-Bounded : Bounded three
unfolding JsMap.has
three-Bounded = ((refl, (refl, (refl, tt))), omega arith)

full : (register_session 4 (text "d") 99_000 three).0 ≡ capacity
unfolding register_session JsMap.get
full = refl

all_closed : (destroy three).0 ≡ terminate 1 ∷ terminate 2 ∷ terminate 3 ∷ []
unfolding destroy
all_closed = refl

-- A node connects again on socket 7; then its old socket 1 closes.
abbrev reconnects : List SessionOp
reconnects =
    pongs 7 (text "a") 99_500
    ∷ closes 1 (text "a")
    ∷ registers 4 (text "d") 99_700
    ∷ closes 2 (text "b")
    ∷ []

run-Bounded_example : Bounded (run three (registers 7 (text "a") 99_000 ∷ reconnects))
run-Bounded_example = run-Bounded three (registers 7 (text "a") 99_000 ∷ reconnects) three-Bounded

owner-run_example :
    owner (text "a") (run (register_session 7 (text "a") 99_000 three).1 reconnects) ≡ some 7
unfolding register_session JsMap.get JsMap.set
owner-run_example =
    owner-run (text "a") 7 (register_session 7 (text "a") 99_000 three).1 reconnects
      (refl, (refl, (refl, (refl, tt)))) refl

abbrev first_place : ℕ → ℕ
first_place n = 0

sample : get_random_peers (text "b") 2 first_place three ≡ text "c" ∷ text "a" ∷ []
unfolding get_random_peers shuffle swap set_elem
sample = refl

get_random_peers_once_example :
    count (text "a") (get_random_peers (text "b") 2 first_place three)
    ≤ (if not (text "b" == text "a") && JsMap.has (text "a") three.sessions then 1 else 0)
get_random_peers_once_example =
    get_random_peers_once (text "a") (text "b") 2 first_place three three-Bounded.0

-- ===== src/PeerMisbehavior/Tests.antt =====
-- Runs of the misbehavior manager.
use aether_web_lite.Prelude.{◌+◌, ◌≡◌, refl, true, List, [], ◌∷◌, arith, ltb, leb}
use aether_web_lite.Prelude.Text.{text, text_eq}
use aether_web_lite.JsMap
use aether_web_lite.PeerMisbehavior.{
  default_options, Manager, violates, step, is_banned, get_score, ban_peer, record_violation,
  punish,
}
use aether_web_lite.PeerMisbehavior.Ban.{Event, at_time, run, ban_lasts}
use aether_web_lite.PeerMisbehavior.Agree.{WellFormed, step-WellFormed}
use aether_web_lite.PeerMisbehavior.Adds.{record_all, total, record_all_adds}

-- Three excesses within ten minutes, at the default options.
abbrev noisy : Manager
noisy = record {
  scores = (text "a1", record { score = 75; last_updated = 1000 }) ∷ [];
  banned_peers = [];
}

-- Twenty minutes later a quarter of the score is left.
noisy_decays : (get_score default_options (text "a1") 1_201_000 noisy).0 ≡ 18
unfolding get_score JsMap.get
noisy_decays = refl

noisy-WellFormed : WellFormed default_options noisy
unfolding JsMap.get
noisy-WellFormed p r h = ground arith

step-WellFormed_example :
    WellFormed default_options (step default_options 2000 noisy (violates (text "a1") 25))
step-WellFormed_example =
    step-WellFormed default_options 2000 noisy (violates (text "a1") 25) noisy-WellFormed

-- The fourth excess bans.
fourth_bans : (record_violation default_options (text "a1") 25 2000 noisy).0 ≡ true
unfolding record_violation is_banned get_score punish JsMap.get
fourth_bans = refl

record_all_adds_example :
    (is_banned
      (text "a1")
      1000
      (record_all default_options (text "a1") 1000 (10 ∷ 15 ∷ 10 ∷ []) noisy)).0
    ≡ leb 100 (75 + total (10 ∷ 15 ∷ 10 ∷ []))
unfolding JsMap.get
record_all_adds_example =
    record_all_adds default_options (text "a1") 75 1000 (10 ∷ 15 ∷ 10 ∷ []) noisy (omega arith)
      (omega arith) (omega arith) (refl, refl)

abbrev during : List Event
during = at_time 2000 (violates (text "a1") 10) ∷ at_time 5000 (violates (text "b2") 100) ∷ []

ban_lasts_example :
    (is_banned
      (text "a1")
      6001
      (run default_options (ban_peer (text "a1") 5000 1001 noisy) during)).0
    ≡ ltb 6001 (1001 + 5000)
ban_lasts_example =
    ban_lasts default_options (text "a1") 1001 5000 6001 noisy during
      ((omega arith, refl), ((omega arith, refl), tt))

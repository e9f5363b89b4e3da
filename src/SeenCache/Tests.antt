-- ===== src/SeenCache/Tests.antt =====
-- Runs of the cache on small inputs.
use aether_web_lite.Prelude.{◌≤◌, ◌≡◌, refl, true, false, List, [], ◌∷◌}
use aether_web_lite.Prelude.Text.{text, text_eq}
use aether_web_lite.JsMap
use aether_web_lite.JsMap.{Distinct}
use aether_web_lite.SeenCache.{SeenCache, max_size, empty, has, add, cleanup, Op, adds, step, run}
use aether_web_lite.SeenCache.Bounds.{run_bounded}

abbrev history : List Op
history = adds (text "p1") 5 ∷ adds (text "p2") 900_000 ∷ adds (text "p1") 900_001 ∷ []

forgets_old : has (text "p1") (cleanup 900_006 (run empty history)) ≡ false
unfolding run step add cleanup has JsMap.has JsMap.set JsMap.delete
forgets_old = refl

keeps_fresh : has (text "p2") (cleanup 900_006 (run empty history)) ≡ true
unfolding run step add cleanup has JsMap.has JsMap.set JsMap.delete
keeps_fresh = refl

run_bounded_example : (JsMap.size (run empty history) ≤ max_size) × Distinct (run empty history)
run_bounded_example = run_bounded history (refl, (refl, (refl, tt)))

abbrev one_seen : SeenCache
one_seen = (text "p1", 5) ∷ []

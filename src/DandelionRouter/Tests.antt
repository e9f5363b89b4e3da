-- ===== src/DandelionRouter/Tests.antt =====
-- A guard, a choice by weight, and an echo.
use aether_web_lite.Prelude.{
  ℕ, suc, ◌*◌, ◌^◌, ◌≤◌, ◌<◌, ◌≡◌, refl, true, false, none, some, List, [], ◌∷◌, arith, All, length,
}
use aether_web_lite.Prelude.Text.{Text, text, text_eq}
use aether_web_lite.JsMap
use aether_web_lite.JsMap.{JsMap}
use aether_web_lite.DandelionRouter.{
  infinity, new_dandelion_router, OnionHop, GuardPeer, DandelionRouter, get_pinned_guard,
  live_guard, find_hop, set_guard, secure_weighted_index, secure_random_index, pick, total_weight,
  guard_changed, notify_echo,
}
use aether_web_lite.DandelionRouter.Choice.{weight_before, secure_weighted_index_share}
use aether_web_lite.DandelionRouter.Guard.{
  Asking, Stands, answers, is_hop, ask, GuardOp, asks, resets, guard_run, guard_stays,
}
use aether_web_lite.DandelionRouter.Echo.{
  awaits, expires, notifies, echo_run, is_resolved, echo_reaches,
}

abbrev hop_a : OnionHop
hop_a = record { peer_id = text "a"; pubkey = 1 ∷ [] }

abbrev hop_b : OnionHop
hop_b = record { peer_id = text "b"; pubkey = 2 ∷ [] }

abbrev inbound : GuardPeer
inbound = record { is_outbound = false; verified_at = none }

abbrev outbound : GuardPeer
outbound = record { is_outbound = true; verified_at = some 0 }

abbrev neighbours : JsMap Text GuardPeer
neighbours = (text "a", inbound) ∷ (text "b", outbound) ∷ []

abbrev asking : Asking
asking = record {
  random_index = λ n. 0;
  word = 2 ^ 31;
  peers = neighbours;
  candidates = hop_a ∷ hop_b ∷ [];
  now = 1_800_000;
}

-- The older connection of the node's own choosing has six times the weight.
heavier_chosen :
    get_pinned_guard
      (λ n. 0)
      (2 ^ 31)
      neighbours
      (hop_a ∷ hop_b ∷ [])
      1_800_000
      new_dandelion_router
    ≡ (
      some hop_b,
      (
        guard_changed (some (text "b")) ∷ [],
        record new_dandelion_router {
          pinned_guard_id = some (text "b");
          pinned_guard_expiry = infinity;
        },
      ),
    )
unfolding get_pinned_guard live_guard set_guard secure_weighted_index pick JsMap.get
heavier_chosen = refl

-- Both are neighbours and candidates, fifteen days later too.
abbrev later : Asking
later = record asking { now = 1_300_000_000; word = 0 }

abbrev earlier : List GuardOp
earlier = asks (record asking { candidates = [] }) ∷ resets ∷ []

b-Stands :
    (a : Asking) → a.peers ≡ neighbours → a.candidates ≡ hop_a ∷ hop_b ∷ [] → Stands (text "b") a
unfolding JsMap.has find_hop
b-Stands a p c = (rw p refl, λ e. ground (arith, c, e))

chosen_first : (ask (guard_run new_dandelion_router earlier) asking).0 ≡ some hop_b
unfolding get_pinned_guard live_guard set_guard secure_weighted_index pick JsMap.get JsMap.has
chosen_first = refl

guard_stays_example :
    All
      (λ answer. is_hop (text "b") answer ≡ true)
      (answers (ask (guard_run new_dandelion_router earlier) asking).1.1 (asking ∷ later ∷ []))
guard_stays_example =
    guard_stays earlier asking hop_b (asking ∷ later ∷ []) chosen_first
      (b-Stands asking refl refl, (b-Stands later refl refl, tt))

abbrev weights : List ℕ
weights = 1 ∷ 6 ∷ 2 ∷ []

abbrev chosen : ℕ
chosen = secure_weighted_index (λ n. 0) 3_000_000_000 weights

secure_weighted_index_share_example :
    (chosen < length weights)
    × (weight_before chosen weights * 2 ^ 32 ≤ 3_000_000_000 * total_weight weights)
    × (3_000_000_000 * total_weight weights < weight_before (suc chosen) weights * 2 ^ 32)
secure_weighted_index_share_example =
    secure_weighted_index_share (λ n. 0) 3_000_000_000 weights (omega arith) (omega arith)

unbiased_word : secure_random_index 3 (4_294_967_295 ∷ 7 ∷ []) ≡ some 1
unfolding secure_random_index
unbiased_word = refl

abbrev waiting : DandelionRouter
waiting = record new_dandelion_router {
  listeners = (text "echo:x", 4 ∷ 5 ∷ []) ∷ [];
  timers = 4 ∷ 5 ∷ [];
}

echo_reaches_example :
    is_resolved 5
      (notify_echo (text "x") (
        echo_run waiting (expires (text "x") 4 ∷ notifies (text "y") ∷ awaits (text "x") 6 ∷ []))).0
    ≡ true
unfolding JsMap.get
echo_reaches_example =
    echo_reaches (text "x") 5 waiting
      (expires (text "x") 4 ∷ notifies (text "y") ∷ awaits (text "x") 6 ∷ [])
      (refl, (refl, (refl, tt))) refl

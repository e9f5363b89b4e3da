-- ===== src/PeerMisbehavior.antt =====
-- packages/core/src/network/PeerMisbehaviorManager.ts: scores for violations, and bans. Time is an
-- argument. Scores and violations are natural numbers, as every ViolationType is; a clock that goes
-- back counts as no time. The interval of the decay is meant to be positive, as the default is.
-- The log, and the reasons written to it, are left out.
pub mod Ban
pub mod Agree
pub mod Adds
pub mod Other
pub mod Tests
use aether_web_lite.Prelude.{
  ℕ, ◌+◌, ◌-◌, ◌*◌, ◌/◌, ◌^◌, Bool, true, false, none, some, List, [], ◌∷◌, ltb, leb, nat_beq,
  if◌then◌else◌,
}
use aether_web_lite.Prelude.Text.{Text, text_eq}
use aether_web_lite.JsMap
use aether_web_lite.JsMap.{JsMap}

pub data ViolationType : Type 0 where
  invalid_signature invalid_pow malformed_wire : ViolationType
  rate_limit_exceeded stem_drop_suspected duplicate_flood timeout : ViolationType

unfoldable pub penalty : ViolationType → ℕ
penalty invalid_signature = 100
penalty invalid_pow = 100
penalty malformed_wire = 100
penalty rate_limit_exceeded = 25
penalty stem_drop_suspected = 25
penalty duplicate_flood = 15
penalty timeout = 10

pub record MisbehaviorOptions : Type 0 where
  pub ban_threshold : ℕ
  pub ban_duration_ms : ℕ
  pub decay_interval_ms : ℕ

abbrev pub default_options : MisbehaviorOptions
default_options = record {
  ban_threshold = 100;
  ban_duration_ms = 60 * 60 * 1000;
  decay_interval_ms = 10 * 60 * 1000;
}

pub record PeerScoreRecord : Type 0 where
  pub score : ℕ
  pub last_updated : ℕ

pub record Manager : Type 0 where
  pub scores : JsMap Text PeerScoreRecord
  pub banned_peers : JsMap Text ℕ

abbrev pub no_records : Manager
no_records = record { scores = []; banned_peers = [] }

-- Both maps lose the peer.
unfoldable pub unban_peer : Text → Manager → Manager
unban_peer peer m = record {
  scores = JsMap.delete peer m.scores;
  banned_peers = JsMap.delete peer m.banned_peers;
}

unfoldable pub ban_peer : Text → ℕ → ℕ → Manager → Manager
ban_peer peer duration now m = record {
  scores = JsMap.delete peer m.scores;
  banned_peers = JsMap.set peer (now + duration) m.banned_peers;
}

-- An expired ban is lifted by the question.
unfoldable pub is_banned : Text → ℕ → Manager → Bool × Manager
is_banned peer now m = elim (JsMap.get peer m.banned_peers) [
  | none ↦ (false, m)
  | some expiry ↦ if leb expiry now then (false, unban_peer peer m) else (true, m)
]

abbrev pub put_score : Text → ℕ → ℕ → Manager → Manager
put_score peer score now m = record m {
  scores = JsMap.set peer (record { score = score; last_updated = now }) m.scores;
}

abbrev pub drop_score : Text → Manager → Manager
drop_score peer m = record m { scores = JsMap.delete peer m.scores }

-- `Math.floor(record.score / Math.pow(2, halfLifeCount))`
abbrev pub decayed : MisbehaviorOptions → ℕ → PeerScoreRecord → ℕ
decayed o now r = r.score / 2 ^ ((now - r.last_updated) / o.decay_interval_ms)

-- The score after its decay, which is stored again.
unfoldable pub get_score : MisbehaviorOptions → Text → ℕ → Manager → ℕ × Manager
get_score o peer now m = elim (JsMap.get peer m.scores) [
  | none ↦ (0, m)
  | some r ↦
      if ltb (now - r.last_updated) o.decay_interval_ms
      then (r.score, m)
      else if nat_beq (decayed o now r) 0
      then (0, drop_score peer m)
      else (decayed o now r, put_score peer (decayed o now r) now m)
]

-- The peer's new score is stored, then it is banned when the score reaches the threshold.
unfoldable pub punish : MisbehaviorOptions → Text → ℕ → ℕ → Manager → Bool × Manager
punish o peer score now m =
    let stored = put_score peer score now m in
    if leb o.ban_threshold score
    then (true, ban_peer peer o.ban_duration_ms now stored)
    else (false, stored)

unfoldable pub record_violation : MisbehaviorOptions → Text → ℕ → ℕ → Manager → Bool × Manager
record_violation o peer violation now m =
    let (banned, m1) = is_banned peer now m in
    let (current, m2) = get_score o peer now m1 in
    if banned then (true, m1) else punish o peer (current + violation) now m2

-- The calls that change the state.
pub data Op : Type 0 where
  violates : Text → ℕ → Op
  asks_ban asks_score unbans : Text → Op
  bans : Text → ℕ → Op
  clears : Op

unfoldable pub step : MisbehaviorOptions → ℕ → Manager → Op → Manager
step o now m (violates peer v) = (record_violation o peer v now m).1
step o now m (asks_ban peer) = (is_banned peer now m).1
step o now m (asks_score peer) = (get_score o peer now m).1
step o now m (unbans peer) = unban_peer peer m
step o now m (bans peer duration) = ban_peer peer duration now m
step o now m clears = no_records

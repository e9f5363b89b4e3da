-- ===== src/TrackerServer/Steps.antt =====
-- What may happen to a tracker, in any order. Sockets, timers and the clock choose.
use aether_web_lite.Prelude.{ℕ, ◌≡◌, false, Option, number_key}
use aether_web_lite.Prelude.Text.{Text}
use aether_web_lite.JsMap
use aether_web_lite.Bytes.{Bytes}
use aether_web_lite.Json.{Json}
use aether_web_lite.NodeIdentity.{Sodium}
use aether_web_lite.TrackerServer.{TrackerServer, accept}
use aether_web_lite.TrackerServer.Handlers.{
  handle_message, greet, handshake_timeout, closed, pong, maintain, shutdown,
}

module _ (sodium : Sodium) (json_parse : Text → Option Json) where
  -- A socket that is accepted is a new one, and none is accepted after the end.
  pub data Step (s t : TrackerServer) : Type 0 where
    accepts :
        (ws : ℕ) (address : Text) (header : Option Text)
        → s.stopped ≡ false
        → JsMap.has ws s.connections ≡ false
        → t ≡ (accept ws address header s).1
        → Step s t
    greets : (ws : ℕ) (nonce : Bytes) → t ≡ (greet sodium ws nonce s).1 → Step s t
    receives :
        (ws : ℕ) (raw : Option Text) (now : ℕ) (random_int : ℕ → ℕ)
        → t ≡ (handle_message sodium random_int json_parse ws raw now s).1
        → Step s t
    times_out : (ws : ℕ) → t ≡ (handshake_timeout ws s).1 → Step s t
    closes : (ws : ℕ) → t ≡ closed ws s → Step s t
    pongs : (ws now : ℕ) → t ≡ pong ws now s → Step s t
    maintains : (now : ℕ) → t ≡ (maintain now s).1 → Step s t
    shuts_down : t ≡ (shutdown s).1 → Step s t

  pub data Reach (s : TrackerServer) : TrackerServer → Type 0 where
    here : Reach s s
    next : {t u : TrackerServer} → Reach s t → Step t u → Reach s u

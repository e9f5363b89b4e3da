-- ===== src/Network.antt =====
-- What the routers see of the neighbours: packages/core/src/types.ts, IPeerConnection.
use aether_web_lite.Prelude.{Bool, not, ◌&&◌, ◌==◌}
use aether_web_lite.Prelude.Text.{Text, text_eq}

pub record PeerConnection : Type 0 where
  pub peer_id : Text
  pub is_connected : Bool
  pub is_verified : Bool

-- The `continue` lines of the relay loops: whom a relayed message goes to.
abbrev pub relays_to : Text → PeerConnection → Bool
relays_to exclude peer = not (peer.peer_id == exclude) && (peer.is_connected && peer.is_verified)

-- ===== src/Transport/Ws.antt =====
-- core/transport/ws: the upstream side of a WebSocket, the messages between the two sides, and the
-- tunnel that holds them. `ws` is a library: a socket is its state, what was sent on it, and the
-- close frame that it was told to send.
pub mod Dial
pub mod Messages
pub mod Tunnel
use mitm_core.Prelude.{ℕ, String, Bool, true, false, Option, List}
use mitm_core.Net.{Ref, Buffer}

pub data ReadyState : Type 0 where
  connecting opened closing shut : ReadyState

pub record WebSocket : Type 0 where
  pub id : Ref
  pub ready_state : ReadyState
  pub sent : List (Buffer × Bool)
  pub close_frame : Option (ℕ × Option String)

-- `readyState === WebSocket.OPEN`.
abbrev pub is_open : WebSocket → Bool
is_open ws = elim ws.ready_state [ ReadyState.opened ↦ true | _ ↦ false ]

-- The two ends of the tunnel.
pub data Side : Type 0 where
  client upstream : Side

abbrev pub other_side : Side → Side
other_side client = upstream
other_side upstream = client

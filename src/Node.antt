-- ===== src/Node.antt =====
-- shared/node.h: the states of a node.
pub mod Compat
pub mod Config
pub mod ConfigLaws
pub mod ConfigTests
pub mod Select
pub mod SelectTests
pub mod Packet
pub mod Backlog
pub mod Send
pub mod Turn
pub mod Deliver
pub mod Event
pub mod Order
pub mod Resend
pub mod State
pub mod Transitions
pub mod Counted
pub mod Steps
pub mod Tree
pub mod TreeLaws
pub mod TreePlaced
pub mod TreeIds
pub mod TreeTests
pub mod Saved
pub mod Restart
pub mod Receive
pub mod Framing
pub mod Taking
pub mod Arrive
pub mod Arrivals
pub mod Hostile
pub mod EndToEnd
pub mod ReceiveTests
pub mod Stored
pub mod Tests
pub mod SavedTests
pub mod StateTests
use monitor_merlin.Base.{Bool, true, false}

-- The values of `node->state`.
pub data NodeState : Type 0 where
  state_none state_pending state_negotiating state_connected : NodeState

abbrev pub is_connected : NodeState → Bool
is_connected state_connected = true
is_connected other = false

-- The values of `node->type`.
pub data Mode : Type 0 where
  mode_local mode_noc mode_peer mode_poller mode_internal : Mode

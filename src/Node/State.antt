-- ===== src/Node/State.antt =====
-- shared/node.c: `node_set_state` and what `node_disconnect` does with the state of a node.
use monitor_merlin.Base.{
  ℕ, ◌+◌, ◌-◌, ◌%◌, Bool, true, false, not, ◌&&◌, ◌||◌, List, [], ◌∷◌, ◌++◌, if◌then◌else◌,
}
use monitor_merlin.Binlog.{u32}
use monitor_merlin.Node.{
  NodeState, state_none, state_pending, state_negotiating, state_connected, is_connected, Mode,
  mode_noc, mode_peer, mode_poller,
}

-- The counters in `self` of the nodes that are connected, each a `uint32_t`.
pub record Counts : Type 0 where
  pub active_pollers : ℕ
  pub active_peers : ℕ
  pub active_masters : ℕ

-- The fields of a node that count here; `is_ipc` says that it is `&ipc`, `has_action` that its callback
-- `action` is set. `actions` are the previous states with which the callback was called.
pub record Peer : Type 0 where
  pub mode : Mode
  pub state : NodeState
  pub is_ipc : Bool
  pub has_sock : Bool
  pub has_action : Bool
  pub csync_num_attempts : ℕ
  pub actions : List NodeState

abbrev pub up : ℕ → ℕ
up n = (n + 1) % u32

-- `+= -1`
abbrev pub down : ℕ → ℕ
down n = (n + (u32 - 1)) % u32

unfoldable pub add_to : Mode → (ℕ → ℕ) → Counts → Counts
add_to mode_poller f c = record c { active_pollers = f c.active_pollers }
add_to mode_peer f c = record c { active_peers = f c.active_peers }
add_to mode_noc f c = record c { active_masters = f c.active_masters }
add_to other f c = c

unfoldable pub is_state : NodeState → NodeState → Bool
is_state state_none state_none = true
is_state state_pending state_pending = true
is_state state_negotiating state_negotiating = true
is_state state_connected state_connected = true
is_state s t = false

-- The switch over the state that a node is in, for a new state that is not STATE_NONE.
unfoldable pub is_allowed : NodeState → NodeState → Bool
is_allowed state_none s = is_state s state_pending || is_state s state_negotiating
is_allowed state_pending s = true
is_allowed state_negotiating s = is_state s state_connected || is_state s state_none
is_allowed state_connected s = is_state s state_none

-- The counters and the state.
unfoldable pub change : NodeState → Peer × Counts → Peer × Counts
change s (p, c) =
    if is_connected s
    then (record p { state = s; csync_num_attempts = 0 }, add_to p.mode up c)
    else if is_connected p.state
    then (record p { state = s }, add_to p.mode down c)
    else (record p { state = s }, c)

-- From the test of the new and the old state on; what is set on the socket is not modelled.
unfoldable pub react : NodeState → Peer × Counts → Peer × Counts
react prev (p, c) =
    if not (is_connected p.state) && not (is_connected prev)
    then (p, c)
    else if p.has_action
    then (record p { actions = p.actions ++ prev ∷ [] }, c)
    else (p, c)

-- `node_set_state(node, STATE_NONE, reason)`
unfoldable pub set_none : Peer × Counts → Peer × Counts
set_none (p, c) =
    if is_state p.state state_none then (p, c) else react p.state (change state_none (p, c))

unfoldable pub node_disconnect : Peer × Counts → Peer × Counts
node_disconnect (p, c) = set_none (record p { has_sock = false }, c)

-- `node_send_ctrl_active`, when a node that is not `&ipc` starts negotiating; `fails` says that its
-- `io_send_all` does not send the whole packet.
unfoldable pub greet : Bool → Peer × Counts → Peer × Counts
greet fails (p, c) =
    if is_state p.state state_negotiating && not p.is_ipc && p.has_sock && fails
    then node_disconnect (p, c)
    else (p, c)

unfoldable pub node_set_state : Bool → NodeState → Peer × Counts → Peer × Counts
node_set_state fails s (p, c) =
    if is_state p.state s
    then (p, c)
    else if not (is_state s state_none) && not p.is_ipc && not (is_allowed p.state s)
    then node_disconnect (p, c)
    else react p.state (greet fails (change s (p, c)))

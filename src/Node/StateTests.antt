-- ===== src/Node/StateTests.antt =====
-- The states of nodes at concrete nodes.
use monitor_merlin.Base.{◌≡◌, ◌≢◌, ◌↔◌, refl, true, false, [], ◌∷◌}
use monitor_merlin.Node.{state_negotiating, state_connected, mode_poller, mode_peer}
use monitor_merlin.Node.State.{
  Peer, Counts, is_state, is_allowed, react, greet, change, node_set_state, node_disconnect,
}
use monitor_merlin.Node.Transitions.{Allowed, Ends, node_set_state_iff, node_set_state-actions}
use monitor_merlin.Node.Steps.{
  set_state, disconnect, Reaches, here_already, then_step, CountsConnected, reaches-CountsConnected,
}

abbrev poller : Peer
poller = record {
  mode = mode_poller;
  state = state_negotiating;
  is_ipc = false;
  has_sock = true;
  has_action = true;
  csync_num_attempts = 2;
  actions = [];
}

abbrev peer : Peer
peer = record poller { mode = mode_peer; state = state_connected }

-- The peer is connected.
abbrev counts : Counts
counts = record { active_pollers = 0; active_peers = 1; active_masters = 0 }

moves : state_negotiating ≢ state_connected
moves e = absurd (cc e)

node_set_state_iff_example :
    (((node_set_state false state_connected (poller, counts)).0.state ≡ state_connected)
      ↔ Allowed state_negotiating state_connected)
    × Ends (node_set_state true state_connected (poller, counts)).0 state_connected
node_set_state_iff_example = node_set_state_iff true state_connected poller counts refl moves

node_set_state-actions_example :
    (node_set_state false state_connected (poller, counts)).0.actions ≡ state_negotiating ∷ []
unfolding node_set_state is_state is_allowed react greet change
node_set_state-actions_example = node_set_state-actions false state_connected poller counts refl

-- The poller connects, and then the peer is lost.
abbrev joined : Peer × Counts
joined = node_set_state false state_connected (poller, counts)

abbrev left : Peer × Counts
left = node_disconnect (peer, joined.1)

abbrev path : Reaches (peer ∷ poller ∷ [], counts) (left.0 ∷ joined.0 ∷ [], left.1)
path =
    then_step
      (then_step here_already (set_state (peer ∷ []) (poller, counts) [] false state_connected))
      (disconnect [] (peer, joined.1) (joined.0 ∷ []))

reaches-CountsConnected_example : CountsConnected (left.0 ∷ joined.0 ∷ [], left.1)
reaches-CountsConnected_example =
    reaches-CountsConnected (peer ∷ poller ∷ [], counts) (left.0 ∷ joined.0 ∷ [], left.1) path
      (record { pollers = refl; peers = refl; masters = refl })

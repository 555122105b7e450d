-- ===== src/Node/Steps.antt =====
-- The nodes of a cluster as their states change, one at a time, by `node_set_state` and
-- `node_disconnect`, and the counters in `self`.
use monitor_merlin.Base.{ℕ, ◌+◌, ◌%◌, ◌≡◌, ◌<◌, Bool, List, [], ◌∷◌, ◌++◌, arith}
use monitor_merlin.Binlog.{u32}
use monitor_merlin.Node.{NodeState, Mode, mode_noc, mode_peer, mode_poller}
use monitor_merlin.Node.State.{Peer, Counts, node_disconnect, node_set_state}
use monitor_merlin.Node.Counted.{count_of, here, Tracks, disconnect-Tracks, set_state-Tracks}

abbrev pub Cluster : Type 0
Cluster = List Peer × Counts

-- The cluster with `w` for one node of it, and the counters.
abbrev pub with_node : List Peer → Peer × Counts → List Peer → Cluster
with_node before w after = (before ++ w.0 ∷ after, w.1)

pub data Step : Cluster → Cluster → Type 0 where
  set_state :
      (before : List Peer) (w : Peer × Counts) (after : List Peer) (fails : Bool) (s : NodeState)
      → Step (with_node before w after) (with_node before (node_set_state fails s w) after)
  disconnect :
      (before : List Peer) (w : Peer × Counts) (after : List Peer)
      → Step (with_node before w after) (with_node before (node_disconnect w) after)

pub data Reaches : Cluster → Cluster → Type 0 where
  here_already : {u : Cluster} → Reaches u u
  then_step : {u v w : Cluster} → Reaches u v → Step v w → Reaches u w

-- The number of connected nodes of a mode.
abbrev pub connected : Mode → List Peer → ℕ
connected m [] = 0
connected m (p ∷ ps) = here m p + connected m ps

pub record CountsConnected (u : Cluster) : Type 0 where
  pub pollers : u.1.active_pollers ≡ connected mode_poller u.0 % u32
  pub peers : u.1.active_peers ≡ connected mode_peer u.0 % u32
  pub masters : u.1.active_masters ≡ connected mode_noc u.0 % u32

connected-append :
    (m : Mode) (xs ys : List Peer) → connected m (xs ++ ys) ≡ connected m xs + connected m ys
connected-append m [] ys = omega arith
connected-append m (x ∷ xs) ys = omega (arith, connected-append m xs ys)

tracked :
    (m : Mode) (before after : List Peer) (w w' : Peer × Counts)
    → Tracks m w w'
    → count_of m w.1 ≡ connected m (before ++ w.0 ∷ after) % u32
    → count_of m w'.1 ≡ connected m (before ++ w'.0 ∷ after) % u32
tracked m before after w w' t e =
    let small : count_of m w.1 < u32 = omega (arith, e) in
    omega (
      arith,
      e,
      t.bound small,
      t.follows small,
      connected-append m before (w.0 ∷ after),
      connected-append m before (w'.0 ∷ after),
    )

step-CountsConnected : {u v : Cluster} → Step u v → CountsConnected u → CountsConnected v
step-CountsConnected (set_state before w after fails s) h = record {
  pollers =
      tracked mode_poller before after w (node_set_state fails s w)
        (set_state-Tracks mode_poller fails s w) h.pollers;
  peers =
      tracked mode_peer before after w (node_set_state fails s w)
        (set_state-Tracks mode_peer fails s w) h.peers;
  masters =
      tracked mode_noc before after w (node_set_state fails s w)
        (set_state-Tracks mode_noc fails s w) h.masters;
}
step-CountsConnected (disconnect before w after) h = record {
  pollers =
      tracked mode_poller before after w (node_disconnect w) (disconnect-Tracks mode_poller w)
        h.pollers;
  peers =
      tracked mode_peer before after w (node_disconnect w) (disconnect-Tracks mode_peer w) h.peers;
  masters =
      tracked mode_noc before after w (node_disconnect w) (disconnect-Tracks mode_noc w) h.masters;
}

-- Whatever calls of `node_set_state` and `node_disconnect` lead from one cluster to another, with
-- whatever answers of the network: if the counters were the numbers of connected pollers, peers and
-- masters, modulo 2^32, before them, they are so after them.
pub reaches-CountsConnected : (u v : Cluster) → Reaches u v → CountsConnected u → CountsConnected v
reaches-CountsConnected u v here_already h = h
reaches-CountsConnected u v (then_step r s) h =
    step-CountsConnected s (reaches-CountsConnected u _ r h)

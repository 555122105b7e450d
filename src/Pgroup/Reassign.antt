-- ===== src/Pgroup/Reassign.antt =====
-- `pgroup_reassign_checks` of shared/pgroup.c: how many checks every node has, by the nodes that
-- are connected.
use monitor_merlin.Base.{ℕ, zero, suc, ◌-◌, Bool, List, [], ◌∷◌, map, if◌then◌else◌, ◌==◌, get_or}
use monitor_merlin.Binlog.{add32, sub32}
use monitor_merlin.Node.{NodeState, is_connected}
use monitor_merlin.Pgroup.{Assigned, Rows}
use monitor_merlin.Pgroup.Tables.{nothing}

-- The fields of a node that are read or set here.
pub record Worker : Type 0 where
  pub state : NodeState
  pub peer_id : ℕ
  pub current : Assigned
  pub extra : Assigned

pub record Team : Type 0 where
  pub nodes : List Worker
  pub active_nodes : ℕ
  -- `flags & MERLIN_NODE_TAKEOVER`
  pub takeover : Bool
  pub assigned : Assigned
  pub assign : Rows
  pub inherit : Rows

-- `rows[active - 1][peer_id]`
abbrev pub entry : Rows → ℕ → ℕ → Assigned
entry rows active peer_id = get_or (get_or rows (active - 1) []) peer_id nothing

abbrev pub plus : Assigned → Assigned → Assigned
plus a b = record { hosts = add32 a.hosts b.hosts; services = add32 a.services b.services }

abbrev pub minus : Assigned → Assigned → Assigned
minus a b = record { hosts = sub32 a.hosts b.hosts; services = sub32 a.services b.services }

-- The loop over the first `n` nodes.
unfoldable pub update_first : ℕ → (Worker → Worker) → List Worker → List Worker
update_first n f [] = []
update_first zero f (node ∷ nodes) = node ∷ nodes
update_first (suc n) f (node ∷ nodes) = f node ∷ update_first n f nodes

-- A node of our own group at the start.
unfoldable pub reset_node : Rows → ℕ → Worker → Worker
reset_node assign active node = record node {
  extra = nothing;
  current = entry assign active node.peer_id;
}

-- What a node of ours gets of a group without active nodes.
unfoldable pub inherit_node : ℕ → Team → Worker → Worker
inherit_node active pg node =
    if is_connected node.state
    then record node { extra = plus node.extra (entry pg.inherit active node.peer_id) }
    else node

-- A node of a group that has active nodes.
unfoldable pub own_checks : Team → Worker → Worker
own_checks pg node =
    if is_connected node.state
    then record node { current = entry pg.assign pg.active_nodes node.peer_id }
    else record node { current = nothing }

-- One turn of the loop over the other groups: our group, and the group of the turn.
unfoldable pub reassign_group : Team → Team → Team × Team
reassign_group own pg =
    if pg.active_nodes == 0
    then (if pg.takeover
        then (
          record own {
            nodes = update_first own.active_nodes (inherit_node own.active_nodes pg) own.nodes;
          },
          pg,
        )
        else (own, pg))
    else (
      record own { assigned = minus own.assigned pg.assigned },
      record pg { nodes = map (own_checks pg) pg.nodes },
    )

unfoldable pub reassign_groups : Team → List Team → Team × List Team
reassign_groups own [] = (own, [])
reassign_groups own (pg ∷ groups) =
    let turn = reassign_group own pg in
    let rest = reassign_groups turn.0 groups in (rest.0, turn.1 ∷ rest.1)

-- `own` is `ipc.pgroup`, and `groups` are the groups from index 1 on.
unfoldable pub reassign_checks : Assigned → Team → List Team → Team × List Team
reassign_checks num_objects own groups =
    reassign_groups
      (record own {
        assigned = num_objects;
        nodes = update_first own.active_nodes (reset_node own.assign own.active_nodes) own.nodes;
      })
      groups

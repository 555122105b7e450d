-- ===== src/Pgroup/Groups.antt =====
-- How nodes are put into groups: `pgroup_create`, `pgroup_get_by_cshgs`, `pgroup_add_node`,
-- `pgroup_validate` and the loops of `pgroup_init`, of shared/pgroup.c.
use monitor_merlin.Base.{
  ℕ, ◌+◌, true, false, Bool, ◌&&◌, ◌||◌, not, Option, none, some, List, [], ◌∷◌, ◌++◌,
  if◌then◌else◌, ◌==◌,
}
use monitor_merlin.Node.{Mode, mode_peer}

abbrev pub Bytes : Type 0
Bytes = List ℕ

-- `!strcmp(a, b)`
abbrev pub same : Bytes → Bytes → Bool
same [] [] = true
same (a ∷ xs) (b ∷ ys) = (a == b) && same xs ys
same xs ys = false

-- The fields of a node that its group depends on; `takeover` is `flags & PGROUP_NODE_FLAGS`, and
-- `hostgroups` what `get_sorted_csstr` answers for the node's.
pub record Member : Type 0 where
  pub name : Bytes
  pub type : Mode
  pub takeover : Bool
  pub hostgroups : Bytes

pub record Group : Type 0 where
  pub id : ℕ
  pub hostgroups : Option Bytes
  -- the group's flags, of which only this one is shared
  pub flags : Bool
  pub nodes : List Member

-- The group that `pgroup_create` puts behind `id` others, with its allocations made.
unfoldable pub pgroup_create : ℕ → Option Bytes → Group
pgroup_create id hostgroups = record { id = id; hostgroups = hostgroups; flags = false; nodes = [] }

-- Whether the loop of `pgroup_get_by_cshgs` stops at the group.
abbrev pub matches : Bytes → Option Bytes → Bool
matches hgs none = false
matches hgs (some own) = same own hgs

unfoldable pub pgroup_add_node : Group → Member → Group
pgroup_add_node pg node = record pg {
  flags = pg.flags || node.takeover;
  nodes = pg.nodes ++ node ∷ [];
}

-- `pgroup_add_node(pgroup_get_by_cshgs(hgs), node)` from the group at index `i` on.
unfoldable pub add_by_cshgs : ℕ → Member → List Group → List Group
add_by_cshgs i node [] = pgroup_add_node (pgroup_create i (some node.hostgroups)) node ∷ []
add_by_cshgs i node (g ∷ groups) =
    let rest = add_by_cshgs (i + 1) node groups in
    if matches node.hostgroups g.hostgroups then pgroup_add_node g node ∷ groups else g ∷ rest

-- 1 for a node that does not share the group's flags, otherwise 0.
unfoldable pub validate_nodes : Bool → List Member → ℕ
validate_nodes flags [] = 0
validate_nodes flags (node ∷ nodes) =
    let rest = validate_nodes flags nodes in
    if (node.takeover && flags) || (not node.takeover && not flags) then rest else 1

unfoldable pub pgroup_validate : Group → ℕ
pgroup_validate pg = validate_nodes pg.flags pg.nodes

abbrev pub is_peer : Mode → Bool
is_peer mode_peer = true
is_peer other = false

-- The loop over `node_table`: the peers join our own group.
unfoldable pub add_peers : List Member → Group → Group
add_peers [] own = own
add_peers (node ∷ nodes) own =
    if is_peer node.type then add_peers nodes (pgroup_add_node own node) else add_peers nodes own

-- The loop over `poller_table`.
unfoldable pub add_pollers : List Member → List Group → List Group
add_pollers [] groups = groups
add_pollers (node ∷ nodes) groups = add_pollers nodes (add_by_cshgs 0 node groups)

-- `pgroup_init` up to `pgroup_map_objects`, which it calls with these groups.
unfoldable pub init_groups : Member → List Member → List Member → List Group
init_groups ipc node_table poller_table =
    add_pollers poller_table
      (add_peers node_table (pgroup_add_node (pgroup_create 0 none) ipc) ∷ [])

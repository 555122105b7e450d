-- ===== src/Pgroup/Order.antt =====
-- The order of a group's nodes, their peer ids, and the node of a check: `cmp_peer`,
-- `pgroup_assign_peer_ids` and `pgroup_node` of shared/pgroup.c.
use monitor_merlin.Base.{
  ℕ, ◌+◌, ◌%◌, ◌^◌, ◌-◌, Bool, not, ◌&&◌, ◌||◌, Option, none, some, List, [], ◌∷◌, if◌then◌else◌,
  ◌==◌, ltb, get_elem?, get_or,
}
use monitor_merlin.Node.{NodeState, is_connected}
use monitor_merlin.Pgroup.Tables.{assigned_peer}

-- What a comparison answers, by the sign of its `int`.
pub data Sign : Type 0 where
  negative equal positive : Sign

-- The fields of a node that its place in the group depends on.
pub record Peer : Type 0 where
  -- whether the node is `ipc`, this process itself
  pub is_ipc : Bool
  pub state : NodeState
  pub tv_sec : ℕ
  pub tv_usec : ℕ
  pub peer_id : ℕ

pub record PeerGroup : Type 0 where
  pub nodes : List Peer
  pub active_nodes : ℕ
  -- `flags & MERLIN_NODE_TAKEOVER`
  pub takeover : Bool

-- The sign of `a - b`, truncated to 32 bits.
unfoldable pub difference : ℕ → ℕ → Sign
difference a b =
    let d = (a + 2 ^ 32 - b % 2 ^ 32) % 2 ^ 32 in
    if d == 0 then equal else if ltb d (2 ^ 31) then positive else negative

unfoldable pub timeval_comp : Peer → Peer → Sign
timeval_comp a b =
    if a.tv_sec == b.tv_sec then difference a.tv_usec b.tv_usec else difference a.tv_sec b.tv_sec

-- `x == &ipc ? STATE_CONNECTED : x->state`, compared with `STATE_CONNECTED`
unfoldable pub is_active : Peer → Bool
is_active a = a.is_ipc || is_connected a.state

-- Two states that differ and are both not `STATE_CONNECTED` change nothing.
unfoldable pub cmp_peer : Peer → Peer → Sign
cmp_peer a b =
    if is_active a && not (is_active b)
    then negative
    else if is_active b && not (is_active a)
    then positive
    else if not (a.tv_sec == 0) && (b.tv_sec == 0)
    then negative
    else if not (b.tv_sec == 0) && (a.tv_sec == 0)
    then positive
    else timeval_comp a b

-- The loop of `pgroup_assign_peer_ids` from index `i` on: the nodes with their ids, and how many
-- of them are active.
unfoldable pub number : ℕ → List Peer → List Peer
number i [] = []
number i (a ∷ nodes) = record a { peer_id = i } ∷ number (i + 1) nodes

unfoldable pub count_active : List Peer → ℕ
count_active [] = 0
count_active (a ∷ nodes) = (if is_active a then 1 else 0) + count_active nodes

-- `qsort` is the first argument.
unfoldable pub assign_peer_ids : (List Peer → List Peer) → PeerGroup → PeerGroup
assign_peer_ids qsort pg = record pg {
  nodes = number 0 (qsort pg.nodes);
  active_nodes = count_active (qsort pg.nodes);
}

-- The group and the id that `pgroup_node` looks the node up by.
unfoldable pub look_up : PeerGroup → PeerGroup → Option (List ℕ) → ℕ → PeerGroup × ℕ
look_up ipc_group pg none id = (pg, id)
look_up ipc_group pg (some id_table) id =
    if not (pg.active_nodes == 0) || not pg.takeover
    then (pg, get_or id_table id 0)
    else (ipc_group, id)

-- `none` where the array is read past its end.
unfoldable pub pgroup_node : PeerGroup → PeerGroup → Option (List ℕ) → ℕ → Option Peer
pgroup_node ipc_group pg id_table id =
    let found = look_up ipc_group pg id_table id in
    get_elem? found.0.nodes (assigned_peer found.1 found.0.active_nodes)

-- A group with the table of its ids.
pub record Tabled : Type 0 where
  pub group : PeerGroup
  pub id_table : List ℕ

-- `pgroup_by_host_id` and `pgroup_by_service_id`, by the table `id2pg` of the kind.
unfoldable pub pgroup_by_id : List (Option ℕ) → List Tabled → ℕ → Option Tabled
pgroup_by_id id2pg groups id = elim (get_or id2pg id none) [
  | none ↦ none
  | some pg ↦ get_elem? groups pg
]

-- `pgroup_host_node` and `pgroup_service_node`: an id of no group is looked up in our own, which has
-- no table.
unfoldable pub check_node : PeerGroup → Option Tabled → ℕ → Option Peer
check_node ipc_group none id = pgroup_node ipc_group ipc_group none id
check_node ipc_group (some pg) id = pgroup_node ipc_group pg.group (some pg.id_table) id

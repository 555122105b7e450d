-- ===== src/Pgroup/Tests.antt =====
-- Runs of the tables and of the order of nodes, and their theorems at concrete groups.
use monitor_merlin.Base.{
  ◌<◌, ◌^◌, ℕ, map, length, ◌+◌, ◌≤◌, ◌≡◌, refl, inr, true, false, some, List, [], ◌∷◌, arith, ◌||◌,
  ◌==◌,
}
use monitor_merlin.Node.{
  mode_local, mode_peer, mode_poller, state_none, state_connected, state_pending,
}
use monitor_merlin.Pgroup.{amount, Assigned, host_check, IdSet}
use monitor_merlin.Pgroup.Tables.{
  Tables, create_id_convtable, create_id_convtables, convert, convert_one, bump_rows, zero_rows,
}
use monitor_merlin.Pgroup.Shares.{
  members, Shaped-zero_rows, length-zero_rows, cell, cell-zero_rows, start, routed, assign-routed,
}
use monitor_merlin.Pgroup.Balance.{assign-balanced}
use monitor_merlin.Pgroup.Order.{
  positive, Peer, PeerGroup, is_active, cmp_peer, difference, timeval_comp, count_active,
  assign_peer_ids, pgroup_node,
}
use monitor_merlin.Pgroup.Groups.{
  Bytes, Member, Group, init_groups, add_pollers, add_peers, add_by_cshgs, pgroup_create,
  pgroup_add_node,
}
use monitor_merlin.Pgroup.Members.{Distinct, AllPlaced, init_groups-Placed}
use monitor_merlin.Pgroup.Reassign.{
  Worker, Team, reassign_checks, reassign_groups, reassign_group, update_first, reset_node,
  inherit_node,
}
use monitor_merlin.Pgroup.Takeover.{delegated, reassign_checks-assigned}
use monitor_merlin.Pgroup.Mapping.{Host, Maps, map_services, map_host, map_hgroup, count_own}
use monitor_merlin.Pgroup.Handled.{Counted, map_hgroup-Counted, routed_own, count_own-routed}
use monitor_merlin.Pgroup.Csstr.{get_sorted_csstr, split, join, trim_end}
use monitor_merlin.Pgroup.Active.{Ordered, FindsActive, pgroup_node-active}

-- A group of the hosts 1, 3, 4 and 6 among eight.
abbrev hosts : IdSet
hosts i = (i == 1) || (i == 3) || (i == 4) || (i == 6)

abbrev made : Tables
made = create_id_convtable host_check hosts 2 8 (start 3 [])

-- Peer 0 of two takes the hosts 1 and 4, the group's hosts number 0 and 2.
table : made.id_table ≡ 4294967295 ∷ 0 ∷ 4294967295 ∷ 1 ∷ 2 ∷ 4294967295 ∷ 3 ∷ 4294967295 ∷ []
unfolding create_id_convtable convert convert_one
table = refl

share : cell host_check 1 0 made.assign ≡ 2
unfolding create_id_convtable convert convert_one bump_rows zero_rows
share = refl

assign-routed_example :
    (cell host_check 1 0 made.assign
      ≡ cell host_check 1 0 (zero_rows 3 0) + routed hosts made.id_table 2 0 8 0)
    × (cell host_check 1 0 made.assign < 2 ^ 31)
assign-routed_example =
    assign-routed host_check hosts 2 8 (start 3 []) 1 0 (Shaped-zero_rows 3 0)
      (omega (arith, length-zero_rows 3 0)) (omega (arith, cell-zero_rows host_check 1 0 3 0))

-- A second host group brings the host 5.
abbrev more_hosts : IdSet
more_hosts i = hosts i || (i == 5)

abbrev made_twice : Tables
made_twice = create_id_convtables host_check 2 8 (hosts ∷ more_hosts ∷ []) (start 3 [])

-- With one active node, it gets four hosts and then five more.
counted_on : cell host_check 0 0 made_twice.assign ≡ 9
unfolding create_id_convtables create_id_convtable convert convert_one bump_rows zero_rows
counted_on = refl

assign-balanced_example :
    (cell host_check 2 2 made_twice.assign ≤ cell host_check 2 0 made_twice.assign)
    × (cell host_check 2 0 made_twice.assign ≤ cell host_check 2 2 made_twice.assign + 2)
    × (cell host_check 2 0 made_twice.assign < 2 ^ 31)
assign-balanced_example =
    assign-balanced host_check 2 3 8 (hosts ∷ more_hosts ∷ []) [] 2 0 2 (omega arith) (omega arith)
      (omega arith) (omega arith)

-- Insertion by `cmp_peer`, for `qsort`.
insert : Peer → List Peer → List Peer
insert a [] = a ∷ []
insert a (b ∷ nodes) =
    let rest = insert a nodes in elim (cmp_peer a b) [ positive ↦ b ∷ rest | other ↦ a ∷ b ∷ nodes ]

sort : List Peer → List Peer
sort [] = []
sort (a ∷ nodes) = insert a (sort nodes)

abbrev us : Peer
us = record { is_ipc = true; state = state_none; tv_sec = 50; tv_usec = 0; peer_id = 0 }

abbrev early : Peer
early = record { is_ipc = false; state = state_connected; tv_sec = 40; tv_usec = 0; peer_id = 0 }

abbrev lost : Peer
lost = record { is_ipc = false; state = state_pending; tv_sec = 10; tv_usec = 0; peer_id = 0 }

abbrev ours : PeerGroup
ours = record { nodes = us ∷ lost ∷ early ∷ []; active_nodes = 0; takeover = true }

abbrev pollers : PeerGroup
pollers = record { nodes = lost ∷ []; active_nodes = 0; takeover = true }

sorts : sort ours.nodes ≡ early ∷ us ∷ lost ∷ []
unfolding cmp_peer is_active timeval_comp difference sort insert
sorts = refl

numbers : (assign_peer_ids sort ours).active_nodes ≡ 2
unfolding assign_peer_ids count_active cmp_peer is_active timeval_comp difference sort insert
numbers = refl

Ordered-ours : Ordered (sort ours.nodes)
unfolding cmp_peer is_active timeval_comp difference sort insert
Ordered-ours = ((λ e. cc e, (λ e. cc e, tt)), ((λ e. cc e, tt), (tt, tt)))

Ordered-pollers : Ordered (sort pollers.nodes)
unfolding cmp_peer is_active timeval_comp difference sort insert
Ordered-pollers = (tt, tt)

-- No node of the poller group is active, so that a node of ours is found.
pgroup_node-active_example :
    FindsActive
      (pgroup_node (assign_peer_ids sort ours) (assign_peer_ids sort pollers) (some (0 ∷ 1 ∷ [])) 1)
pgroup_node-active_example =
    pgroup_node-active sort ours pollers (some (0 ∷ 1 ∷ [])) 1 Ordered-ours Ordered-pollers
      (omega (arith, numbers)) (inr (refl, λ e. cc e))

abbrev poller : Bytes → Member
poller hostgroups = record {
  name = [];
  type = mode_poller;
  takeover = true;
  hostgroups = hostgroups;
}

abbrev init : List Group
init =
    init_groups (record { name = []; type = mode_local; takeover = false; hostgroups = [] })
      (record { name = 1 ∷ []; type = mode_peer; takeover = false; hostgroups = [] } ∷ [])
      (poller (1 ∷ []) ∷ poller (2 ∷ []) ∷ poller (1 ∷ []) ∷ [])

-- three groups: ours with the peer, two pollers, and one
sizes : map (λ g. length g.nodes) init ≡ 2 ∷ 2 ∷ 1 ∷ []
unfolding init_groups add_pollers add_peers add_by_cshgs pgroup_create pgroup_add_node
sizes = refl

init_groups-Placed_example :
    Distinct 0 init × AllPlaced (poller (1 ∷ []) ∷ poller (2 ∷ []) ∷ poller (1 ∷ []) ∷ []) init
init_groups-Placed_example =
    init_groups-Placed (record { name = []; type = mode_local; takeover = false; hostgroups = [] })
      (record { name = 1 ∷ []; type = mode_peer; takeover = false; hostgroups = [] } ∷ [])
      (poller (1 ∷ []) ∷ poller (2 ∷ []) ∷ poller (1 ∷ []) ∷ [])

abbrev load : ℕ → Assigned
load n = record { hosts = n; services = n }

abbrev worker : ℕ → Worker
worker id = record { state = state_connected; peer_id = id; current = load 9; extra = load 9 }

-- Our group of two active nodes and one that is away.
abbrev masters : Team
masters = record {
  nodes = worker 0 ∷ worker 1 ∷ record (worker 2) { state = state_none } ∷ [];
  active_nodes = 2;
  takeover = false;
  assigned = load 0;
  assign = (load 10 ∷ []) ∷ (load 5 ∷ load 5 ∷ []) ∷ [];
  inherit = [];
}

-- A group with no active node, which others take over.
abbrev gone : Team
gone = record {
  nodes = record (worker 0) { state = state_none } ∷ [];
  active_nodes = 0;
  takeover = true;
  assigned = load 3;
  assign = (load 3 ∷ []) ∷ [];
  inherit = (load 3 ∷ []) ∷ (load 2 ∷ load 1 ∷ []) ∷ [];
}

-- A group with one active node.
abbrev busy : Team
busy = record gone { nodes = worker 0 ∷ []; active_nodes = 1; assigned = load 4 }

extra :
    map (λ x. x.extra.hosts) (reassign_checks (load 10) masters (gone ∷ busy ∷ [])).0.nodes
    ≡ 2 ∷ 1 ∷ 9 ∷ []
unfolding reassign_checks reassign_groups reassign_group update_first reset_node inherit_node
extra = refl

reassign_checks-assigned_example :
    amount host_check (reassign_checks (load 10) masters (gone ∷ busy ∷ [])).0.assigned ≡ 6
unfolding delegated
reassign_checks-assigned_example =
    reassign_checks-assigned host_check (load 10) masters (gone ∷ busy ∷ []) (omega arith)
      (omega arith)

-- The hosts 0 and 2 of four, host 0 twice.
abbrev in_hostgroup : List Host
in_hostgroup =
    record { id = 0; services = 0 ∷ 1 ∷ [] }
    ∷ record { id = 2; services = 4 ∷ [] }
    ∷ record { id = 0; services = 0 ∷ 1 ∷ [] }
    ∷ []

abbrev unmapped : Maps
unmapped = record {
  host_map = λ i. false;
  service_map = λ i. false;
  assigned = load 0;
  overlapping = 0;
  handled_hosts = λ i. i == 2;
  handled_services = λ i. false;
}

mapped : (map_hgroup in_hostgroup unmapped).overlapping ≡ 1
unfolding map_hgroup map_host map_services
mapped = refl

Counted-unmapped : Counted 4 unmapped
unfolding members
Counted-unmapped = refl

map_hgroup-Counted_example : Counted 4 (map_hgroup in_hostgroup unmapped)
map_hgroup-Counted_example =
    map_hgroup-Counted 4 in_hostgroup unmapped (omega arith) Counted-unmapped

-- Peer 0 of two takes host 0 of the hosts 0, 1 and 3.
count_own-routed_example :
    cell host_check 1 0 (count_own (λ i. i == 2) (λ i. i ∷ []) 4 0 (zero_rows 2 0))
    ≡ cell host_check 1 0 (zero_rows 2 0) + routed_own (λ i. i == 2) 2 0 4 0
count_own-routed_example =
    count_own-routed (λ i. i == 2) (λ i. i ∷ []) 1 0 4 0 (zero_rows 2 0) (Shaped-zero_rows 2 0)
      two_rows
  where
    two_rows : 1 < length (zero_rows 2 0)
    two_rows = omega (arith, length-zero_rows 2 0)

-- " a , b" and "b,a" name the same groups.
sorted :
    get_sorted_csstr (λ names. names) (some (32 ∷ 97 ∷ 32 ∷ 44 ∷ 32 ∷ 98 ∷ []))
    ≡ some (97 ∷ 44 ∷ 98 ∷ [])
unfolding get_sorted_csstr split join trim_end
sorted = refl

-- ===== src/Pgroup/Active.antt =====
-- After `pgroup_assign_peer_ids` the active nodes come first, so `pgroup_node` finds one of them.
use native.Mathlib.Nat.{mod-lt, add-zero}
use monitor_merlin.Base.{
  ℕ, zero, suc, ◌+◌, ◌<◌, ◌≡◌, ◌≢◌, ◌⊎◌, inl, inr, refl, sym, true, false, Option, none, some, List,
  [], ◌∷◌, ◌==◌, get_elem?, get_or, arith, Bool-cases,
}
use monitor_merlin.Pgroup.Tables.{assigned_peer}
use monitor_merlin.Pgroup.Order.{
  positive, Peer, PeerGroup, is_active, cmp_peer, number, count_active, assign_peer_ids, look_up,
  pgroup_node,
}

-- No node of the list is to come before `a`.
abbrev pub NoneBefore : Peer → List Peer → Type 0
NoneBefore a [] = Unit
NoneBefore a (b ∷ nodes) = (cmp_peer a b ≢ positive) × NoneBefore a nodes

-- What `qsort` promises of its result.
abbrev pub Ordered : List Peer → Type 0
Ordered [] = Unit
Ordered (a ∷ nodes) = NoneBefore a nodes × Ordered nodes

-- The element at `i` is an active node, with `i + j` for its id.
abbrev pub ActiveAt : ℕ → ℕ → List Peer → Type 0
ActiveAt j i nodes =
    (a : Peer) × (get_elem? nodes i ≡ some a) × (is_active a ≡ true) × (a.peer_id ≡ j + i)

inactive_rest :
    (a : Peer) (nodes : List Peer)
    → is_active a ≡ false
    → NoneBefore a nodes
    → count_active nodes ≡ 0
unfolding count_active cmp_peer
inactive_rest a [] h o = refl
inactive_rest a (b ∷ nodes) h o = elim (Bool-cases (is_active b)) [
  | inl e ↦ elim (o.0 (rw (e, h) refl)) [ ]
  | inr e ↦ rw e (omega (arith, inactive_rest a nodes h o.1))
]

none_left :
    (a : Peer) (nodes : List Peer) {i : ℕ}
    → is_active a ≡ false
    → NoneBefore a nodes
    → ¬ (i < count_active (a ∷ nodes))
unfolding count_active
none_left a nodes e o = rw e (omega (arith, inactive_rest a nodes e o))

not-lt_zero : (i : ℕ) → ¬ (i < 0)
not-lt_zero i = omega arith

number_active :
    (j i : ℕ) (nodes : List Peer)
    → Ordered nodes
    → i < count_active nodes
    → ActiveAt j i (number j nodes)
unfolding number count_active is_active
number_active j i [] o h = elim (not-lt_zero i h) [ ]
number_active j zero (a ∷ nodes) o h = elim (Bool-cases (is_active a)) [
  | inl e ↦ (record a { peer_id = j }, refl, e, sym (add-zero j))
  | inr e ↦ elim (none_left a nodes e o.0 h) [ ]
]
number_active j (suc i) (a ∷ nodes) o h = elim (Bool-cases (is_active a)) [
  | inl e ↦
      let rest = number_active (j + 1) i nodes o.1 (ground (arith, e, h)) in
      (rest.0, rest.1, rest.2, omega (arith, rest.3))
  | inr e ↦ elim (none_left a nodes {i = suc i} e o.0 h) [ ]
]

-- When `qsort` keeps to the order of `cmp_peer`, every index below `active_nodes` holds an active
-- node after `pgroup_assign_peer_ids`, with the index for its peer id.
pub assign_peer_ids-active :
    (qsort : List Peer → List Peer) (pg : PeerGroup)
    → Ordered (qsort pg.nodes)
    → (i : ℕ) → i < (assign_peer_ids qsort pg).active_nodes
    → ActiveAt 0 i (assign_peer_ids qsort pg).nodes
unfolding assign_peer_ids
assign_peer_ids-active qsort pg o i h = number_active 0 i (qsort pg.nodes) o h

assigned_peer-lt : (id n : ℕ) → 0 < n → assigned_peer id n < n
unfolding assigned_peer
assigned_peer-lt id zero h = h
assigned_peer-lt id (suc n) h = mod-lt id (omega arith)

-- The node that `pgroup_node` answers is active.
abbrev pub FindsActive : Option Peer → Type 0
FindsActive found = (a : Peer) × (found ≡ some a) × (is_active a ≡ true)

found_active :
    (nodes : List Peer) (id n : ℕ)
    → 0 < n
    → ((i : ℕ) → i < n → ActiveAt 0 i nodes)
    → FindsActive (get_elem? nodes (assigned_peer id n))
found_active nodes id n h all =
    let a = all (assigned_peer id n) (assigned_peer-lt id n h) in (a.0, a.1, a.2)

found_in :
    (qsort : List Peer → List Peer) (pg : PeerGroup) (id : ℕ)
    → Ordered (qsort pg.nodes)
    → 0 < (assign_peer_ids qsort pg).active_nodes
    → FindsActive (
        get_elem?
          (assign_peer_ids qsort pg).nodes
          (assigned_peer id (assign_peer_ids qsort pg).active_nodes))
found_in qsort pg id o h =
    found_active (assign_peer_ids qsort pg).nodes id (assign_peer_ids qsort pg).active_nodes h
      (assign_peer_ids-active qsort pg o)

not_zero : {n : ℕ} → 0 < n → (n == 0) ≡ false
not_zero {n = zero} h = elim (not-lt_zero 0 h) [ ]
not_zero {n = suc n} h = ground arith

-- For groups whose nodes `pgroup_assign_peer_ids` has ordered, with `ipc` in its own group: whatever
-- the table of ids says, `pgroup_node` answers an active node, as long as the group has one or
-- lets others take its checks over.
pub pgroup_node-active :
    (qsort : List Peer → List Peer) (ipc_group pg : PeerGroup) (table : Option (List ℕ)) (id : ℕ)
    → Ordered (qsort ipc_group.nodes)
    → Ordered (qsort pg.nodes)
    → 0 < (assign_peer_ids qsort ipc_group).active_nodes
    → (0 < (assign_peer_ids qsort pg).active_nodes) ⊎ ((pg.takeover ≡ true) × (table ≢ none))
    → FindsActive
        (pgroup_node (assign_peer_ids qsort ipc_group) (assign_peer_ids qsort pg) table id)
unfolding pgroup_node look_up assign_peer_ids
pgroup_node-active qsort ipc_group pg none id oi op hi alive = elim alive [
  | inl h ↦ found_in qsort pg id op h
  | inr h ↦ elim (h.1 refl) [ ]
]
pgroup_node-active qsort ipc_group pg (some t) id oi op hi alive = elim alive [
  | inl h ↦ rw (not_zero h) (found_in qsort pg (get_or t id 0) op h)
  | inr h ↦ elim (Bool-cases ((assign_peer_ids qsort pg).active_nodes == 0)) [
    | inl z ↦ rw (z, h.0) (found_in qsort ipc_group id oi hi)
    | inr z ↦ rw z (found_in qsort pg (get_or t id 0) op (ground (arith, z)))
  ]
]

-- ===== src/Pgroup/Members.antt =====
-- Which group a poller is in after `pgroup_init`, and what `pgroup_validate` finds.
use monitor_merlin.Base.{
  ℕ, ◌+◌, ◌≡◌, ◌≢◌, ◌⊎◌, inl, inr, refl, sym, ap, ◌∙◌, true, false, Option, none, some, List, [],
  ◌∷◌, arith, Bool-cases,
}
use mathlib.Core.List.{Mem, mem-cons_self, mem-append_right, mem-append_left}
use mathlib.Core.Option.{some-injective}
use monitor_merlin.Pgroup.Groups.{
  Bytes, same, Member, Group, pgroup_create, matches, pgroup_add_node, add_by_cshgs, is_peer,
  add_peers, add_pollers, init_groups,
}

same-eq : (a b : Bytes) → same a b ≡ true → a ≡ b
same-eq [] [] h = refl
same-eq (a ∷ xs) (b ∷ ys) h = ground (arith, h, same-eq xs ys)
same-eq [] (b ∷ ys) h = cc h
same-eq (a ∷ xs) [] h = cc h

same_self : (a : Bytes) → same a a ≡ true
same_self [] = refl
same_self (a ∷ xs) = ground (arith, same_self xs)

-- No group of the list has these host groups.
abbrev pub Unused : Bytes → List Group → Type 0
Unused hgs [] = Unit
Unused hgs (g ∷ groups) = (g.hostgroups ≢ some hgs) × Unused hgs groups

-- The groups' ids count up from `i`, and no two groups have the same host groups.
abbrev pub Distinct : ℕ → List Group → Type 0
Distinct i [] = Unit
Distinct i (g ∷ groups) =
    (g.id ≡ i)
    × ((hgs : Bytes) → g.hostgroups ≡ some hgs → Unused hgs groups)
    × Distinct (i + 1) groups

-- The node is in a group with its host groups.
abbrev pub Placed : Member → List Group → Type 0
Placed node [] = ⊥
Placed node (g ∷ groups) =
    ((g.hostgroups ≡ some node.hostgroups) × Mem node g.nodes) ⊎ Placed node groups

matches-eq : (hgs : Bytes) (own : Option Bytes) → matches hgs own ≡ true → own ≡ some hgs
matches-eq hgs none h = cc h
matches-eq hgs (some own) h = ap some (same-eq own hgs h)

matches_self : (hgs : Bytes) (own : Option Bytes) → own ≡ some hgs → matches hgs own ≡ true
matches_self hgs own h = rw h (same_self hgs)

some_ne : {a b : Bytes} → a ≢ b → some b ≢ some a
some_ne {a = a} {b = b} ne e = ne (sym (some-injective b a e))

Unused-add :
    (i : ℕ) (hgs : Bytes) (node : Member) (groups : List Group)
    → hgs ≢ node.hostgroups
    → Unused hgs groups
    → Unused hgs (add_by_cshgs i node groups)
unfolding add_by_cshgs pgroup_create pgroup_add_node
Unused-add i hgs node [] ne h = (some_ne ne, tt)
Unused-add i hgs node (g ∷ groups) ne h = elim (Bool-cases (matches node.hostgroups g.hostgroups)) [
  | inl e ↦ rw e h
  | inr e ↦ rw e (h.0, Unused-add (i + 1) hgs node groups ne h.1)
]

other_group :
    (hgs : Bytes) (own : Option Bytes)
    → matches hgs own ≡ false
    → (k : Bytes) → own ≡ some k
    → k ≢ hgs
other_group hgs own m k e e' = cc (m, matches_self hgs own (e ∙ ap some e'))

Distinct-add :
    (i : ℕ) (node : Member) (groups : List Group)
    → Distinct i groups
    → Distinct i (add_by_cshgs i node groups)
unfolding add_by_cshgs pgroup_create pgroup_add_node
Distinct-add i node [] h = (refl, λ hgs e. tt, tt)
Distinct-add i node (g ∷ groups) h = elim (Bool-cases (matches node.hostgroups g.hostgroups)) [
  | inl e ↦ rw e h
  | inr e ↦ rw e (
    h.0,
    λ hgs own.
        Unused-add (i + 1) hgs node groups (other_group node.hostgroups g.hostgroups e hgs own)
          (h.1 hgs own),
    Distinct-add (i + 1) node groups h.2,
  )
]

Placed-add :
    (i : ℕ) (node : Member) (groups : List Group) → Placed node (add_by_cshgs i node groups)
unfolding add_by_cshgs pgroup_create pgroup_add_node
Placed-add i node [] = inl (refl, mem-cons_self)
Placed-add i node (g ∷ groups) = elim (Bool-cases (matches node.hostgroups g.hostgroups)) [
  | inl e ↦
      rw e (inl (matches-eq node.hostgroups g.hostgroups e, mem-append_right g.nodes mem-cons_self))
  | inr e ↦ rw e (inr (Placed-add (i + 1) node groups))
]

Placed-kept :
    (i : ℕ) (node other : Member) (groups : List Group)
    → Placed other groups
    → Placed other (add_by_cshgs i node groups)
unfolding add_by_cshgs pgroup_create pgroup_add_node
Placed-kept i node other [] h = elim h [ ]
Placed-kept i node other (g ∷ groups) h = elim (Bool-cases (matches node.hostgroups g.hostgroups)) [
  | inl e ↦ rw e (elim h [
    | inl here ↦ inl (here.0, mem-append_left (node ∷ []) here.1)
    | inr there ↦ inr there
  ])
  | inr e ↦ rw e (elim h [
    | inl here ↦ inl here
    | inr there ↦ inr (Placed-kept (i + 1) node other groups there)
  ])
]

-- Every node of the list is placed.
abbrev pub AllPlaced : List Member → List Group → Type 0
AllPlaced [] groups = Unit
AllPlaced (node ∷ nodes) groups = Placed node groups × AllPlaced nodes groups

add_pollers-Distinct :
    (nodes : List Member) (groups : List Group)
    → Distinct 0 groups
    → Distinct 0 (add_pollers nodes groups)
unfolding add_pollers
add_pollers-Distinct [] groups h = h
add_pollers-Distinct (node ∷ nodes) groups h =
    add_pollers-Distinct nodes (add_by_cshgs 0 node groups) (Distinct-add 0 node groups h)

add_pollers-keeps :
    (nodes : List Member) (other : Member) (groups : List Group)
    → Placed other groups
    → Placed other (add_pollers nodes groups)
unfolding add_pollers
add_pollers-keeps [] other groups h = h
add_pollers-keeps (node ∷ nodes) other groups h =
    add_pollers-keeps nodes other (add_by_cshgs 0 node groups) (Placed-kept 0 node other groups h)

add_pollers-AllPlaced :
    (nodes : List Member) (groups : List Group) → AllPlaced nodes (add_pollers nodes groups)
unfolding add_pollers
add_pollers-AllPlaced [] groups = tt
add_pollers-AllPlaced (node ∷ nodes) groups = (
  add_pollers-keeps nodes node (add_by_cshgs 0 node groups) (Placed-add 0 node groups),
  add_pollers-AllPlaced nodes (add_by_cshgs 0 node groups),
)

add_peers_fields :
    (nodes : List Member) (own : Group)
    → ((add_peers nodes own).id ≡ own.id) × ((add_peers nodes own).hostgroups ≡ own.hostgroups)
unfolding add_peers pgroup_add_node
add_peers_fields [] own = (refl, refl)
add_peers_fields (node ∷ nodes) own = elim (Bool-cases (is_peer node.type)) [
  | inl e ↦ rw e (add_peers_fields nodes (pgroup_add_node own node))
  | inr e ↦ rw e (add_peers_fields nodes own)
]

-- After the loops of `pgroup_init` the groups' ids are their positions, no two groups have the same
-- host groups, and every poller is in a group with exactly its sorted host groups.
pub init_groups-Placed :
    (ipc : Member) (node_table poller_table : List Member)
    → Distinct 0 (init_groups ipc node_table poller_table)
      × AllPlaced poller_table (init_groups ipc node_table poller_table)
unfolding init_groups pgroup_create pgroup_add_node
init_groups-Placed ipc node_table poller_table = (
  add_pollers-Distinct poller_table (own ∷ [])
      ((add_peers_fields node_table (pgroup_add_node fresh ipc)).0, λ hgs e. tt, tt),
  add_pollers-AllPlaced poller_table (own ∷ []),
)
  where
    fresh : Group
    fresh = record { id = 0; hostgroups = none; flags = false; nodes = [] }

    own : Group
    own = add_peers node_table (pgroup_add_node fresh ipc)

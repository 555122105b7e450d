-- ===== src/Pgroup/Handled.antt =====
-- The counts that the mapping of host groups keeps.
use monitor_merlin.Base.{
  ℕ, zero, suc, ◌+◌, ◌%◌, ◌≤◌, ◌<◌, ◌≡◌, inl, inr, refl, sym, ap, ◌∙◌, false, List, [], ◌∷◌, arith,
  if◌then◌else◌, ◌==◌, ==_iff, Bool-cases, length, get_or,
}
use monitor_merlin.Pgroup.{host_check, service_check, Assigned, IdSet, Rows}
use monitor_merlin.Pgroup.Tables.{nothing, bump_at, bump_rows, assigned_peer}
use monitor_merlin.Pgroup.Shares.{
  cell, Shaped, one_if, members, Shaped-bump_rows, length-bump_rows, cell-bump_rows,
  assigned_peer_suc,
}
use monitor_merlin.Pgroup.Mapping.{
  Host, include, Maps, map_services, map_host, map_hgroup, bump_services, count_own,
}

members_outside :
    (i : ℕ) (s : IdSet) (count start : ℕ)
    → i < start
    → members (include i s) count start ≡ members s count start
unfolding members
members_outside i s zero start h = refl
members_outside i s (suc count) start h =
    ground (arith, h, members_outside i s count (start + 1) (omega arith))

-- One more id in a set is one more member.
members-include :
    (i : ℕ) (s : IdSet) (count start : ℕ)
    → s i ≡ false
    → start ≤ i
    → i < start + count
    → members (include i s) count start ≡ members s count start + 1
unfolding members
members-include i s zero start h le lt = omega arith
members-include i s (suc count) start h le lt = elim (Bool-cases (start == i)) [
  | inl e ↦
      let q : start ≡ i = (==_iff start i).0 e in
      rw (e, ap s q ∙ h) (omega (arith, members_outside i s count (start + 1) (omega (arith, q))))
  | inr e ↦ rw e (
      omega (
        arith,
        members-include i s count (start + 1) h (ground (arith, e, le)) (omega (arith, lt)),
      ))
]

map_services_hosts :
    (services : List ℕ) (m : Maps)
    → ((map_services services m).host_map ≡ m.host_map)
      × ((map_services services m).assigned.hosts ≡ m.assigned.hosts)
unfolding map_services
map_services_hosts [] m = (refl, refl)
map_services_hosts (s ∷ services) m = map_services_hosts services (record m {
  service_map = include s m.service_map;
  handled_services = include s m.handled_services;
  assigned = record m.assigned { services = m.assigned.services + 1 };
})

-- The group's count of hosts is the size of its map.
abbrev pub Counted : ℕ → Maps → Type 0
Counted num_hosts m = m.assigned.hosts ≡ members m.host_map num_hosts 0

abbrev pub Known : ℕ → List Host → Type 0
Known num_hosts [] = Unit
Known num_hosts (h ∷ hosts) = (h.id < num_hosts) × Known num_hosts hosts

-- The group once a new host is entered, before its services are.
abbrev entered : Host → Maps → Maps
entered h m = record m {
  host_map = include h.id m.host_map;
  overlapping = m.overlapping + (if m.handled_hosts h.id then 1 else 0);
  handled_hosts = include h.id m.handled_hosts;
  assigned = record m.assigned { hosts = m.assigned.hosts + 1 };
}

map_host-Counted :
    (num_hosts : ℕ) (h : Host) (m : Maps)
    → h.id < num_hosts
    → Counted num_hosts m
    → Counted num_hosts (map_host h m)
unfolding map_host
map_host-Counted num_hosts h m lt c = elim (Bool-cases (m.host_map h.id)) [
  | inl e ↦ rw e c
  | inr e ↦
      let kept = map_services_hosts h.services (entered h m) in
      let more : m.assigned.hosts + 1 ≡ members (include h.id m.host_map) num_hosts 0 = omega (
        arith,
        c,
        members-include h.id m.host_map num_hosts 0 e (omega arith) (omega (arith, lt)),
      ) in
      rw e (kept.1 ∙ more ∙ ap (λ s. members s num_hosts 0) (sym kept.0))
]

-- Mapping a host group into a group keeps its count of hosts equal to the size of its map: a host
-- that is in several host groups, or twice in one, counts once. All ids are below the number of
-- hosts.
pub map_hgroup-Counted :
    (num_hosts : ℕ) (hosts : List Host) (m : Maps)
    → Known num_hosts hosts
    → Counted num_hosts m
    → Counted num_hosts (map_hgroup hosts m)
unfolding map_hgroup
map_hgroup-Counted num_hosts [] m k c = c
map_hgroup-Counted num_hosts (h ∷ hosts) m k c =
    map_hgroup-Counted num_hosts hosts (map_host h m) k.1 (map_host-Counted num_hosts h m k.0 c)

-- Counting services leaves the counts of hosts.
entry_services :
    (q p : ℕ) (row : List Assigned)
    → (get_or (bump_at service_check q row) p nothing).hosts ≡ (get_or row p nothing).hosts
entry_services q p [] = refl
entry_services zero zero (a ∷ row) = refl
entry_services zero (suc p) (a ∷ row) = refl
entry_services (suc q) zero (a ∷ row) = refl
entry_services (suc q) (suc p) (a ∷ row) = entry_services q p row

cell_service :
    (x m n p : ℕ) (rows : Rows)
    → cell host_check n p (bump_rows service_check x m rows) ≡ cell host_check n p rows
unfolding bump_rows
cell_service x m n p [] = refl
cell_service x m zero p (row ∷ rows) = entry_services (x % (m + 1)) p row
cell_service x m (suc n) p (row ∷ rows) = cell_service x (m + 1) n p rows

-- The rows keep their shape, and the counts of hosts stay.
record SameHosts (rows rows' : Rows) : Type 0 where
  pub shaped : Shaped 0 rows → Shaped 0 rows'
  pub length_eq : length rows' ≡ length rows
  pub hosts : (n p : ℕ) → cell host_check n p rows' ≡ cell host_check n p rows

bump_services-SameHosts :
    (services : List ℕ) (rows : Rows) → SameHosts rows (bump_services services rows)
unfolding bump_services
bump_services-SameHosts [] rows = record { shaped = λ h. h; length_eq = refl; hosts = λ n p. refl }
bump_services-SameHosts (s ∷ services) rows =
    let rest = bump_services-SameHosts services (bump_rows service_check s 0 rows) in
    record {
      shaped = λ h. rest.shaped (Shaped-bump_rows service_check s 0 rows h);
      length_eq = rest.length_eq ∙ length-bump_rows service_check s 0 rows;
      hosts = λ n p. rest.hosts n p ∙ cell_service s 0 n p rows;
    }

-- Of `count` hosts from id `i` on, those that no poller handles: how many `assigned_peer` gives to
-- peer `p` of `d` by their own ids.
unfoldable pub routed_own : IdSet → ℕ → ℕ → ℕ → ℕ → ℕ
routed_own handled d p zero i = 0
routed_own handled d p (suc count) i =
    if handled i
    then routed_own handled d p count (i + 1)
    else one_if (assigned_peer i d == p) + routed_own handled d p count (i + 1)

-- The loop adds to the counter of a peer the number of hosts of no poller that `assigned_peer` gives
-- to the peer by their ids, which is how `pgroup_node` looks them up.
pub count_own-routed :
    (handled : IdSet) (services : ℕ → List ℕ) (n p count i : ℕ) (rows : Rows)
    → Shaped 0 rows
    → n < length rows
    → cell host_check n p (count_own handled services count i rows)
      ≡ cell host_check n p rows + routed_own handled (n + 1) p count i
unfolding count_own routed_own
count_own-routed handled services n p zero i rows h lt = omega arith
count_own-routed handled services n p (suc count) i rows h lt = elim (Bool-cases (handled i)) [
  | inl e ↦ rw e (count_own-routed handled services n p count (i + 1) rows h lt)
  | inr e ↦
      let bumped = bump_rows host_check i 0 rows in
      let kept = bump_services-SameHosts (services i) bumped in
      rw e (
        omega (
          arith,
          count_own-routed handled services n p count (i + 1) (bump_services (services i) bumped)
              (kept.shaped (Shaped-bump_rows host_check i 0 rows h))
              (omega (arith, lt, kept.length_eq, length-bump_rows host_check i 0 rows)),
          kept.hosts n p,
          cell-bump_rows host_check i 0 n p (n + 1) rows h lt (omega arith),
          ap (λ k. one_if (k == p)) (assigned_peer_suc i n),
        ))
]

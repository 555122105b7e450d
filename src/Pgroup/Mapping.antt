-- ===== src/Pgroup/Mapping.antt =====
-- Which objects a group has: `pgroup_hgroup_mapper`, `map_pgroup_hgroup` and the loop over the
-- hosts of no poller in `pgroup_map_objects`, of shared/pgroup.c.
use monitor_merlin.Base.{ℕ, zero, suc, ◌+◌, ◌||◌, List, [], ◌∷◌, if◌then◌else◌, ◌==◌}
use monitor_merlin.Pgroup.{host_check, service_check, Assigned, IdSet, Rows}
use monitor_merlin.Pgroup.Tables.{bump_rows}

-- A host of Nagios: its id, and those of its services.
pub record Host : Type 0 where
  pub id : ℕ
  pub services : List ℕ

-- `bitmap_set`
abbrev pub include : ℕ → IdSet → IdSet
include i s j = (j == i) || s j

-- The fields of a group, and the two maps that all groups share.
pub record Maps : Type 0 where
  pub host_map : IdSet
  pub service_map : IdSet
  pub assigned : Assigned
  pub overlapping : ℕ
  pub handled_hosts : IdSet
  pub handled_services : IdSet

-- The loop over the services of a host.
unfoldable pub map_services : List ℕ → Maps → Maps
map_services [] m = m
map_services (s ∷ services) m = map_services services (record m {
  service_map = include s m.service_map;
  handled_services = include s m.handled_services;
  assigned = record m.assigned { services = m.assigned.services + 1 };
})

unfoldable pub map_host : Host → Maps → Maps
map_host h m =
    if m.host_map h.id
    then m
    else map_services h.services (record m {
      host_map = include h.id m.host_map;
      overlapping = m.overlapping + (if m.handled_hosts h.id then 1 else 0);
      handled_hosts = include h.id m.handled_hosts;
      assigned = record m.assigned { hosts = m.assigned.hosts + 1 };
    })

-- `map_pgroup_hgroup`: the members of a host group, in the order of the tree.
unfoldable pub map_hgroup : List Host → Maps → Maps
map_hgroup [] m = m
map_hgroup (h ∷ hosts) m = map_hgroup hosts (map_host h m)

unfoldable pub bump_services : List ℕ → Rows → Rows
bump_services [] rows = rows
bump_services (s ∷ services) rows = bump_services services (bump_rows service_check s 0 rows)

-- The loop over the hosts from id `i` on: those that no poller handles count for our own group,
-- whose rows `rows` are. `services` gives the services of a host.
unfoldable pub count_own : IdSet → (ℕ → List ℕ) → ℕ → ℕ → Rows → Rows
count_own handled services zero i rows = rows
count_own handled services (suc count) i rows =
    if handled i
    then count_own handled services count (i + 1) rows
    else count_own handled services count (i + 1)
        (bump_services (services i) (bump_rows host_check i 0 rows))

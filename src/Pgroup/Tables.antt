-- ===== src/Pgroup/Tables.antt =====
-- The tables of shared/pgroup.c that give each check its node.
use monitor_merlin.Base.{
  ℕ, zero, suc, ◌+◌, ◌%◌, ◌^◌, ◌-◌, Option, some, List, [], ◌∷◌, if◌then◌else◌, set, replicate,
}
use monitor_merlin.Pgroup.{Kind, Assigned, bump, IdSet, Rows}

abbrev pub nothing : Assigned
nothing = record { hosts = 0; services = 0 }

-- `row[p]` goes up by one.
abbrev pub bump_at : Kind → ℕ → List Assigned → List Assigned
bump_at kind p [] = []
bump_at kind zero (a ∷ row) = bump kind a ∷ row
bump_at kind (suc p) (a ∷ row) = a ∷ bump_at kind p row

-- for each `n`: `rows[n][x % (n + 1)]` goes up by one
unfoldable pub bump_rows : Kind → ℕ → ℕ → Rows → Rows
bump_rows kind x n [] = []
bump_rows kind x n (row ∷ rows) = bump_at kind (x % (n + 1)) row ∷ bump_rows kind x (n + 1) rows

-- What the conversion of one kind of objects writes: the group's table from object ids to the ids
-- that the group itself counts, the global table from object ids to groups, and the two counts.
pub record Tables : Type 0 where
  pub id_table : List ℕ
  pub id2pg : List (Option ℕ)
  pub assign : Rows
  pub inherit : Rows

unfoldable pub convert_one : Kind → ℕ → ℕ → ℕ → Tables → Tables
convert_one kind pg i x t = record {
  id_table = set t.id_table i x;
  id2pg = set t.id2pg i (some pg);
  assign = bump_rows kind x 0 t.assign;
  inherit = bump_rows kind i 0 t.inherit;
}

-- The loop over object ids from `i` on, `count` of them; `x` counts those of the group.
unfoldable pub convert : Kind → IdSet → ℕ → ℕ → ℕ → ℕ → Tables → Tables
convert kind isset pg zero i x t = t
convert kind isset pg (suc count) i x t =
    if isset i
    then convert kind isset pg count (i + 1) (x + 1) (convert_one kind pg i x t)
    else convert kind isset pg count (i + 1) x t

-- `memset(…, 0xff, …)` over an array of `uint32_t`
abbrev pub unset_id : ℕ
unset_id = 2 ^ 32 - 1

-- One of the two halves of `pg_create_id_convtables`: a new table, then the loop.
unfoldable pub create_id_convtable : Kind → IdSet → ℕ → ℕ → Tables → Tables
create_id_convtable kind isset pg count t =
    convert kind isset pg count 0 0 (record t { id_table = replicate count unset_id })

-- The loop of `pgroup_map_objects` over the host groups of a peer group: `sets` holds, for each of them,
-- the objects of the peer group once its hosts are mapped.
unfoldable pub create_id_convtables : Kind → ℕ → ℕ → List IdSet → Tables → Tables
unfolding create_id_convtable
create_id_convtables kind pg count [] t = t
create_id_convtables kind pg count (isset ∷ sets) t =
    create_id_convtables kind pg count sets (create_id_convtable kind isset pg count t)

-- `pgroup_alloc_counters`: row `i` has `i + 1` counters.
unfoldable pub zero_rows : ℕ → ℕ → Rows
zero_rows zero i = []
zero_rows (suc alloc) i = replicate (i + 1) nothing ∷ zero_rows alloc (i + 1)

-- `assigned_peer`
unfoldable pub assigned_peer : ℕ → ℕ → ℕ
assigned_peer id active_peers = elim active_peers [ zero ↦ 0 | suc n ↦ id % suc n ]

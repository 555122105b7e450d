-- ===== src/Pgroup/Shares.antt =====
-- What the counters of `pg_create_id_convtables` hold after its loop.
use monitor_merlin.Base.{
  ℕ, ◌^◌, zero, suc, ◌+◌, ◌%◌, ◌≤◌, ◌<◌, ◌≡◌, inl, inr, refl, sym, ap, ap₂, ◌∙◌, true, false, Bool,
  List, [], ◌∷◌, arith, if◌then◌else◌, Option, ◌==◌, Bool-cases, set, get_or, length,
  get_elem?-set_self, get_or-set_ne, get_or-get_elem?, length-set, replicate, length-replicate,
}
use native.Mathlib.Nat.{mod-lt}
use monitor_merlin.Pgroup.{Kind, host_check, service_check, Assigned, amount, bump, IdSet, Rows}
use monitor_merlin.Pgroup.Tables.{
  Tables, nothing, bump_at, bump_rows, convert_one, convert, unset_id, create_id_convtable,
  zero_rows, assigned_peer,
}

-- `rows[n][p].hosts` or `rows[n][p].services`
abbrev pub cell : Kind → ℕ → ℕ → Rows → ℕ
cell kind n p rows = amount kind (get_or (get_or rows n []) p nothing)

-- The rows are `n + 1` long, from `m + 1` on.
abbrev pub Shaped : ℕ → Rows → Type 0
Shaped m [] = Unit
Shaped m (row ∷ rows) = (length row ≡ m + 1) × Shaped (m + 1) rows

abbrev pub one_if : Bool → ℕ
one_if b = if b then 1 else 0

length-bump_at :
    (kind : Kind) (p : ℕ) (row : List Assigned) → length (bump_at kind p row) ≡ length row
length-bump_at kind p [] = refl
length-bump_at kind zero (a ∷ row) = refl
length-bump_at kind (suc p) (a ∷ row) = ap suc (length-bump_at kind p row)

amount-bump : (kind : Kind) (a : Assigned) → amount kind (bump kind a) ≡ amount kind a + 1
amount-bump host_check a = refl
amount-bump service_check a = refl

entry-bump_at :
    (kind : Kind) (q p : ℕ) (row : List Assigned)
    → q < length row
    → amount kind (get_or (bump_at kind q row) p nothing)
      ≡ amount kind (get_or row p nothing) + one_if (q == p)
entry-bump_at kind zero zero (a ∷ row) h = amount-bump kind a
entry-bump_at kind zero (suc p) (a ∷ row) h = ground arith
entry-bump_at kind (suc q) zero (a ∷ row) h = ground arith
entry-bump_at kind (suc q) (suc p) (a ∷ row) h =
    ground (arith, entry-bump_at kind q p row (omega arith))
entry-bump_at kind q p [] h = omega arith

pub Shaped-bump_rows :
    (kind : Kind) (x m : ℕ) (rows : Rows) → Shaped m rows → Shaped m (bump_rows kind x m rows)
unfolding bump_rows
Shaped-bump_rows kind x m [] h = tt
Shaped-bump_rows kind x m (row ∷ rows) h =
    (length-bump_at kind (x % (m + 1)) row ∙ h.0, Shaped-bump_rows kind x (m + 1) rows h.1)

pub length-bump_rows :
    (kind : Kind) (x m : ℕ) (rows : Rows) → length (bump_rows kind x m rows) ≡ length rows
unfolding bump_rows
length-bump_rows kind x m [] = refl
length-bump_rows kind x m (row ∷ rows) = ap suc (length-bump_rows kind x (m + 1) rows)

pub cell-bump_rows :
    (kind : Kind) (x m n p d : ℕ) (rows : Rows)
    → Shaped m rows
    → n < length rows
    → d ≡ m + n + 1
    → cell kind n p (bump_rows kind x m rows) ≡ cell kind n p rows + one_if (x % d == p)
unfolding bump_rows
cell-bump_rows kind x m n p d [] h lt e = omega arith
cell-bump_rows kind x m zero p d (row ∷ rows) h lt e =
    let e1 : d ≡ m + 1 = omega arith in
    rw e1 (
      entry-bump_at kind (x % (m + 1)) p row
        (omega (arith, h.0, mod-lt x {m = m + 1} (omega arith))))
cell-bump_rows kind x m (suc n) p d (row ∷ rows) h lt e =
    cell-bump_rows kind x (m + 1) n p d rows h.1 (omega arith) (omega arith)

-- Of `count` ids from `i` on, those of the set: how many of them have a number that leaves `p`
-- when divided by `d`, the first of the set being numbered `x`.
unfoldable pub tally : IdSet → ℕ → ℕ → ℕ → ℕ → ℕ → ℕ
tally isset d p zero i x = 0
tally isset d p (suc count) i x =
    if isset i
    then one_if (x % d == p) + tally isset d p count (i + 1) (x + 1)
    else tally isset d p count (i + 1) x

-- `bitmap_count_set_bits`: how many of `count` ids from `i` on are in the set.
unfoldable pub members : IdSet → ℕ → ℕ → ℕ
members isset zero i = 0
members isset (suc count) i = one_if (isset i) + members isset count (i + 1)

pub convert_assign :
    (kind : Kind) (isset : IdSet) (pg n p count i x : ℕ) (t : Tables)
    → Shaped 0 t.assign
    → n < length t.assign
    → cell kind n p (convert kind isset pg count i x t).assign
      ≡ cell kind n p t.assign + tally isset (n + 1) p count i x
unfolding convert convert_one tally
convert_assign kind isset pg n p zero i x t h lt = omega arith
convert_assign kind isset pg n p (suc count) i x t h lt = elim (Bool-cases (isset i)) [
  | inl e ↦
      let rows = bump_rows kind x 0 t.assign in
      let rest =
        convert_assign kind isset pg n p count (i + 1) (x + 1) (convert_one kind pg i x t)
          (Shaped-bump_rows kind x 0 t.assign h) (rw (length-bump_rows kind x 0 t.assign) lt) in
      rw e (omega (arith, rest, cell-bump_rows kind x 0 n p (n + 1) t.assign h lt (omega arith)))
  | inr e ↦ rw e (convert_assign kind isset pg n p count (i + 1) x t h lt)
]

-- An entry below the loop's start stays.
convert_below :
    (kind : Kind) (isset : IdSet) (pg j count i x : ℕ) (t : Tables)
    → j < i
    → get_or (convert kind isset pg count i x t).id_table j 0 ≡ get_or t.id_table j 0
unfolding convert convert_one
convert_below kind isset pg j zero i x t h = refl
convert_below kind isset pg j (suc count) i x t h = elim (Bool-cases (isset i)) [
  | inl e ↦ rw e (
      convert_below kind isset pg j count (i + 1) (x + 1) (convert_one kind pg i x t) (omega arith)
      ∙ get_or-set_ne t.id_table x 0 (omega arith))
  | inr e ↦ rw e (convert_below kind isset pg j count (i + 1) x t (omega arith))
]

-- Of `count` ids from `i` on, those of the set: how many `assigned_peer` gives to peer `p` of
-- `d`, by their numbers in the table.
unfoldable pub routed : IdSet → List ℕ → ℕ → ℕ → ℕ → ℕ → ℕ
routed isset table d p zero i = 0
routed isset table d p (suc count) i =
    if isset i
    then one_if (assigned_peer (get_or table i 0) d == p) + routed isset table d p count (i + 1)
    else routed isset table d p count (i + 1)

pub assigned_peer_suc : (x n : ℕ) → x % (n + 1) ≡ assigned_peer x (n + 1)
unfolding assigned_peer
assigned_peer_suc x n = let e : n + 1 ≡ suc n = omega arith in rw e refl

get_or-set_self : (xs : List ℕ) (i v : ℕ) → i < length xs → get_or (set xs i v) i 0 ≡ v
get_or-set_self xs i v h = get_or-get_elem? (set xs i v) i 0 (get_elem?-set_self xs i v h)

-- The entry that the first step of the loop writes is in the final table.
convert_entry :
    (kind : Kind) (isset : IdSet) (pg count i x : ℕ) (t : Tables)
    → i < length t.id_table
    → get_or (convert kind isset pg count (i + 1) (x + 1) (convert_one kind pg i x t)).id_table i 0
      ≡ x
unfolding convert_one
convert_entry kind isset pg count i x t h =
    convert_below kind isset pg i count (i + 1) (x + 1) (convert_one kind pg i x t) (omega arith)
    ∙ get_or-set_self t.id_table i x h

length-convert_one :
    (kind : Kind) (pg i x : ℕ) (t : Tables) {n : ℕ}
    → n ≤ length t.id_table
    → n ≤ length (convert_one kind pg i x t).id_table
unfolding convert_one
length-convert_one kind pg i x t h = rw (length-set t.id_table i x) h

convert_member :
    (kind : Kind) (isset : IdSet) (pg count i x : ℕ) (t : Tables)
    → isset i ≡ true
    → convert kind isset pg (suc count) i x t
      ≡ convert kind isset pg count (i + 1) (x + 1) (convert_one kind pg i x t)
unfolding convert
convert_member kind isset pg count i x t e = rw e refl

convert_other :
    (kind : Kind) (isset : IdSet) (pg count i x : ℕ) (t : Tables)
    → isset i ≡ false
    → convert kind isset pg (suc count) i x t ≡ convert kind isset pg count (i + 1) x t
unfolding convert
convert_other kind isset pg count i x t e = rw e refl

module _ (isset : IdSet) (d p count i : ℕ) where
  routed_member :
      (table : List ℕ) {x : ℕ}
      → isset i ≡ true
      → get_or table i 0 ≡ x
      → routed isset table d p (suc count) i
        ≡ one_if (assigned_peer x d == p) + routed isset table d p count (i + 1)
  unfolding routed
  routed_member table e v = rw (e, v) refl

  routed_other :
      (table : List ℕ)
      → isset i ≡ false
      → routed isset table d p (suc count) i ≡ routed isset table d p count (i + 1)
  unfolding routed
  routed_other table e = rw e refl

  tally_member :
      (x : ℕ)
      → isset i ≡ true
      → tally isset d p (suc count) i x
        ≡ one_if (x % d == p) + tally isset d p count (i + 1) (x + 1)
  unfolding tally
  tally_member x e = rw e refl

  tally_other :
      (x : ℕ) → isset i ≡ false → tally isset d p (suc count) i x ≡ tally isset d p count (i + 1) x
  unfolding tally
  tally_other x e = rw e refl

-- The numbers that the loop counts by are those that the final table routes by.
convert-routed :
    (kind : Kind) (isset : IdSet) (pg n p count i x : ℕ) (t : Tables)
    → i + count ≤ length t.id_table
    → tally isset (n + 1) p count i x
      ≡ routed isset (convert kind isset pg count i x t).id_table (n + 1) p count i
unfolding tally routed
convert-routed kind isset pg n p zero i x t h = refl
convert-routed kind isset pg n p (suc count) i x t h = elim (Bool-cases (isset i)) [
  | inl e ↦
      let next = convert_one kind pg i x t in
      let table = (convert kind isset pg count (i + 1) (x + 1) next).id_table in
      tally_member isset (n + 1) p count i x e
      ∙ ap₂ (λ a b. one_if (a == p) + b) (assigned_peer_suc x n)
          (convert-routed kind isset pg n p count (i + 1) (x + 1) next
            (length-convert_one kind pg i x t (omega arith)))
      ∙ sym (
          routed_member isset (n + 1) p count i table e
            (convert_entry kind isset pg count i x t (omega arith)))
      ∙ ap (λ u. routed isset u.id_table (n + 1) p (suc count) i)
          (sym (convert_member kind isset pg count i x t e))
  | inr e ↦
      tally_other isset (n + 1) p count i x e
      ∙ convert-routed kind isset pg n p count (i + 1) x t (omega arith)
      ∙ sym (
          routed_other isset (n + 1) p count i (convert kind isset pg count (i + 1) x t).id_table e)
      ∙ ap (λ u. routed isset u.id_table (n + 1) p (suc count) i)
          (sym (convert_other kind isset pg count i x t e))
]

pub Shaped-zero_rows : (alloc m : ℕ) → Shaped m (zero_rows alloc m)
unfolding zero_rows
Shaped-zero_rows zero m = tt
Shaped-zero_rows (suc alloc) m = (length-replicate (m + 1) nothing, Shaped-zero_rows alloc (m + 1))

pub length-zero_rows : (alloc m : ℕ) → length (zero_rows alloc m) ≡ alloc
unfolding zero_rows
length-zero_rows zero m = refl
length-zero_rows (suc alloc) m = ap suc (length-zero_rows alloc (m + 1))

entry-nothing : (kind : Kind) (k p : ℕ) → amount kind (get_or (replicate k nothing) p nothing) ≡ 0
entry-nothing host_check zero p = refl
entry-nothing service_check zero p = refl
entry-nothing host_check (suc k) zero = refl
entry-nothing service_check (suc k) zero = refl
entry-nothing kind (suc k) (suc p) = entry-nothing kind k p

pub cell-zero_rows : (kind : Kind) (n p alloc m : ℕ) → cell kind n p (zero_rows alloc m) ≡ 0
unfolding zero_rows
cell-zero_rows host_check n p zero m = refl
cell-zero_rows service_check n p zero m = refl
cell-zero_rows kind zero p (suc alloc) m = entry-nothing kind (m + 1) p
cell-zero_rows kind (suc n) p (suc alloc) m = cell-zero_rows kind n p alloc (m + 1)

-- the tables of a group for which `pgroup_alloc_counters` has just run
abbrev pub start : ℕ → List (Option ℕ) → Tables
start alloc id2pg = record {
  id_table = [];
  id2pg = id2pg;
  assign = zero_rows alloc 0;
  inherit = zero_rows alloc 0;
}

routed-le :
    (isset : IdSet) (table : List ℕ) (d p count i : ℕ) → routed isset table d p count i ≤ count
unfolding routed
routed-le isset table d p zero i = omega arith
routed-le isset table d p (suc count) i = ground (arith, routed-le isset table d p count (i + 1))

-- One run of `pg_create_id_convtables` on counters in rows as `pgroup_alloc_counters` lays them out,
-- whatever they hold: for every number of active nodes that they cover and every peer id below it, the run
-- adds to the counter of that peer the number of the group's objects that `assigned_peer` gives to it by
-- the table of ids that the same run fills. Where the counter and the number of all objects are together
-- below 2^31, the counter does not overflow.
pub assign-routed :
    (kind : Kind) (isset : IdSet) (pg count : ℕ) (t : Tables) (n p : ℕ)
    → Shaped 0 t.assign
    → n < length t.assign
    → cell kind n p t.assign + count < 2 ^ 31
    → let after = create_id_convtable kind isset pg count t in
      (cell kind n p after.assign
        ≡ cell kind n p t.assign + routed isset after.id_table (n + 1) p count 0)
      × (cell kind n p after.assign < 2 ^ 31)
unfolding create_id_convtable
assign-routed kind isset pg count t n p h lt few =
    let after = create_id_convtable kind isset pg count t in
    let first : Tables = record t { id_table = replicate count unset_id } in
    let added : cell kind n p after.assign
        ≡ cell kind n p t.assign + routed isset after.id_table (n + 1) p count 0 =
      omega (
        arith,
        convert_assign kind isset pg n p count 0 0 first h lt,
        convert-routed kind isset pg n p count 0 0 first
            (rw (length-replicate count unset_id) (omega arith)),
      ) in
    (added, omega (arith, added, few, routed-le isset after.id_table (n + 1) p count 0))

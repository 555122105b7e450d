-- ===== src/Pgroup/Balance.antt =====
-- How even the shares of `pg_create_id_convtables` are, however many runs there are.
use native.Mathlib.Nat.{mod-lt, suc-mod, mod-eq_of_lt, mod_self}
use monitor_merlin.Base.{
  ℕ, ◌^◌, [], ◌∷◌, zero, suc, ◌+◌, ◌*◌, ◌%◌, ◌≤◌, ◌<◌, ◌≡◌, ◌⊎◌, inl, inr, refl, ap, ◌∙◌, Option,
  List, arith, ◌==◌, Bool-cases, length, replicate, ltb, leb, ◌&&◌,
}
use monitor_merlin.Pgroup.{Kind, IdSet}
use monitor_merlin.Pgroup.Tables.{
  Tables, convert_one, convert, unset_id, create_id_convtable, create_id_convtables,
}
use monitor_merlin.Pgroup.Shares.{
  cell, Shaped, one_if, tally, start, convert_assign, Shaped-bump_rows, length-bump_rows,
  length-zero_rows, Shaped-zero_rows, cell-zero_rows,
}

lt_cases : (r d : ℕ) → r < d → (suc r < d) ⊎ (suc r ≡ d)
lt_cases r zero h = omega arith
lt_cases zero (suc zero) h = inr refl
lt_cases zero (suc (suc d)) h = inl (omega arith)
lt_cases (suc r) (suc d) h = elim (lt_cases r d (omega arith)) [
  | inl l ↦ inl (omega (arith, l))
  | inr e ↦ inr (ap suc e)
]

step_mod : (x d : ℕ) → 0 < d → ((x + 1) % d ≡ x % d + 1) ⊎ (((x + 1) % d ≡ 0) × (x % d + 1 ≡ d))
step_mod x d h =
    let e0 : x + 1 ≡ suc x = omega arith in
    rw e0 (elim (lt_cases (x % d) d (mod-lt x h)) [
      | inl l ↦ inl (omega (arith, suc-mod x d, mod-eq_of_lt l))
      | inr e ↦ inr (omega (arith, suc-mod x d ∙ ap (λ k. k % d) e, mod_self d), omega (arith, e))
    ])

-- one more for the lower peer while the turn is between the two
abbrev between : ℕ → ℕ → ℕ → ℕ
between p q r = one_if (ltb p r && leb r q)

between_step :
    (x d p q : ℕ)
    → p < q
    → q < d
    → between p q (x % d) + one_if (x % d == p) ≡ between p q ((x + 1) % d) + one_if (x % d == q)
between_step x d p q h lt = elim (step_mod x d (omega arith)) [
  | inl e ↦ ground (arith, e, h, lt)
  | inr e ↦ ground (arith, e.0, e.1, h, lt)
]

tally_balanced :
    (isset : IdSet) (d p q count i x a b : ℕ)
    → p < q
    → q < d
    → a ≡ b + between p q (x % d)
    → (b + tally isset d q count i x ≤ a + tally isset d p count i x)
      × (a + tally isset d p count i x ≤ b + tally isset d q count i x + 1)
unfolding tally
tally_balanced isset d p q zero i x a b h lt e = ground (arith, e)
tally_balanced isset d p q (suc count) i x a b h lt e = elim (Bool-cases (isset i)) [
  | inl m ↦
      let rest =
        tally_balanced isset d p q count (i + 1) (x + 1) (a + one_if (x % d == p))
          (b + one_if (x % d == q)) h lt (omega (arith, e, between_step x d p q h lt)) in
      rw m (omega (arith, rest.0), omega (arith, rest.1))
  | inr m ↦ rw m (tally_balanced isset d p q count (i + 1) x a b h lt e)
]

convert-Shaped :
    (kind : Kind) (isset : IdSet) (pg count i x : ℕ) (t : Tables)
    → Shaped 0 t.assign
    → Shaped 0 (convert kind isset pg count i x t).assign
unfolding convert convert_one
convert-Shaped kind isset pg zero i x t h = h
convert-Shaped kind isset pg (suc count) i x t h = elim (Bool-cases (isset i)) [
  | inl m ↦ rw m (
      convert-Shaped kind isset pg count (i + 1) (x + 1) (convert_one kind pg i x t)
        (Shaped-bump_rows kind x 0 t.assign h))
  | inr m ↦ rw m (convert-Shaped kind isset pg count (i + 1) x t h)
]

length-convert :
    (kind : Kind) (isset : IdSet) (pg count i x : ℕ) (t : Tables)
    → length (convert kind isset pg count i x t).assign ≡ length t.assign
unfolding convert convert_one
length-convert kind isset pg zero i x t = refl
length-convert kind isset pg (suc count) i x t = elim (Bool-cases (isset i)) [
  | inl m ↦ rw m (
      length-convert kind isset pg count (i + 1) (x + 1) (convert_one kind pg i x t)
      ∙ length-bump_rows kind x 0 t.assign)
  | inr m ↦ rw m (length-convert kind isset pg count (i + 1) x t)
]

tally-le : (isset : IdSet) (d p count i x : ℕ) → tally isset d p count i x ≤ count
unfolding tally
tally-le isset d p zero i x = omega arith
tally-le isset d p (suc count) i x =
    ground (arith, tally-le isset d p count (i + 1) x, tally-le isset d p count (i + 1) (x + 1))

-- The shares of two peers differ by at most `k`, and the larger is at most `most`.
record Even (kind : Kind) (n p q k most : ℕ) (t : Tables) : Type 0 where
  shaped : Shaped 0 t.assign
  covered : n < length t.assign
  ordered : cell kind n q t.assign ≤ cell kind n p t.assign
  near : cell kind n p t.assign ≤ cell kind n q t.assign + k
  bounded : cell kind n p t.assign ≤ most

module _ (kind : Kind) (pg count n p q : ℕ) (lt : p < q) (le : q ≤ n) where
  Even-once :
      (isset : IdSet) (t : Tables) (k most : ℕ)
      → Even kind n p q k most t
      → Even kind n p q (k + 1) (most + count) (create_id_convtable kind isset pg count t)
  unfolding create_id_convtable
  Even-once isset t k most e =
      let first : Tables = record t { id_table = replicate count unset_id } in
      let even =
        tally_balanced isset (n + 1) p q count 0 0 0 0 lt (omega (arith, le))
          (ground (arith, mod-lt 0 {m = n + 1} (omega arith))) in
      let at_p = convert_assign kind isset pg n p count 0 0 first e.shaped e.covered in
      let at_q = convert_assign kind isset pg n q count 0 0 first e.shaped e.covered in
      record {
        shaped = convert-Shaped kind isset pg count 0 0 first e.shaped;
        covered = omega (arith, e.covered, length-convert kind isset pg count 0 0 first);
        ordered = omega (arith, e.ordered, even.0, at_p, at_q);
        near = omega (arith, e.near, even.1, at_p, at_q);
        bounded = omega (arith, e.bounded, at_p, tally-le isset (n + 1) p count 0 0);
      }

  Even-runs :
      (sets : List IdSet) (t : Tables) (k most : ℕ)
      → Even kind n p q k most t
      → Even kind n p q
          (k + length sets)
          (most + length sets * count)
          (create_id_convtables kind pg count sets t)
  unfolding create_id_convtables
  Even-runs [] t k most e = record {
    shaped = e.shaped;
    covered = e.covered;
    ordered = e.ordered;
    near = omega (arith, e.near);
    bounded = omega (arith, e.bounded);
  }
  Even-runs (isset ∷ sets) t k most e =
      let rest =
        Even-runs sets (create_id_convtable kind isset pg count t) (k + 1) (most + count)
          (Even-once isset t k most e) in
      record {
        shaped = rest.shaped;
        covered = rest.covered;
        ordered = rest.ordered;
        near = omega (arith, rest.near);
        bounded = grind (arith, rest.bounded);
      }

-- For a peer group with any number of host groups, from the counters that `pgroup_alloc_counters`
-- leaves, with `n + 1` active nodes: of two peers the one with the lower id has no smaller share of the
-- group's objects, and at most one object more for each host group, since each run of
-- `pg_create_id_convtables` counts on. Where the number of all objects, for each host group once, is
-- below 2^31, no counter overflows.
pub assign-balanced :
    (kind : Kind) (pg alloc count : ℕ) (sets : List IdSet) (id2pg : List (Option ℕ)) (n p q : ℕ)
    → p < q
    → q ≤ n
    → n < alloc
    → length sets * count < 2 ^ 31
    → let after = create_id_convtables kind pg count sets (start alloc id2pg) in
      (cell kind n q after.assign ≤ cell kind n p after.assign)
      × (cell kind n p after.assign ≤ cell kind n q after.assign + length sets)
      × (cell kind n p after.assign < 2 ^ 31)
assign-balanced kind pg alloc count sets id2pg n p q lt le covered few =
    let at_p = cell-zero_rows kind n p alloc 0 in
    let at_q = cell-zero_rows kind n q alloc 0 in
    let e = Even-runs kind pg count n p q lt le sets (start alloc id2pg) 0 0 (record {
      shaped = Shaped-zero_rows alloc 0;
      covered = omega (arith, covered, length-zero_rows alloc 0);
      ordered = omega (arith, at_p, at_q);
      near = omega (arith, at_p, at_q);
      bounded = omega (arith, at_p);
    }) in
    (e.ordered, omega (arith, e.near), omega (arith, e.bounded, few))

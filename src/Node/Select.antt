-- ===== src/Node/Select.antt =====
-- The selections of nodes in shared/node.c: groups of nodes by name.
use monitor_merlin.Base.{
  ℕ, zero, suc, ◌+◌, Bool, ◌||◌, Option, none, some, List, [], ◌∷◌, ◌++◌, length, get_elem?, set,
  ltb, leb, ◌==◌, if◌then◌else◌,
}
use monitor_merlin.Binlog.{Bytes}
use monitor_merlin.Node.Config.{same_bytes, is_negative, minus_one}

-- `node_selection`; the nodes by their indices, the newest first.
pub record Selection : Type 0 where
  pub id : ℕ
  pub name : Bytes
  pub nodes : List ℕ

-- NULL, what was looked up, or a read outside of the table.
pub data Looked (A : Type 0) : Type 0 where
  null outside : Looked A
  here : A → Looked A

-- The loop of strcmp(3) over the table, from the index `i`.
unfoldable pub index_of : Bytes → ℕ → List Selection → Option ℕ
index_of name i [] = none
index_of name i (s ∷ table) =
    let rest = index_of name (i + 1) table in if same_bytes name s.name then some i else rest

unfoldable pub node_selection_by_name : List Selection → Bytes → Looked Selection
node_selection_by_name table name = elim (index_of name 0 table) [
  | none ↦ null
  | some i ↦ elim (get_elem? table i) [ none ↦ outside | some s ↦ here s ]
]

unfoldable pub nodes_at : Option Selection → Looked (List ℕ)
nodes_at none = outside
nodes_at (some s) = here s.nodes

-- `sel` is an `int`, as its 32 bits, like every answer that may be -1.
unfoldable pub nodes_by_sel_id : List Selection → ℕ → Looked (List ℕ)
nodes_by_sel_id table sel =
    if is_negative sel || ltb (length table) sel then null else nodes_at (get_elem? table sel)

unfoldable pub name_at : Option Selection → Looked Bytes
name_at none = outside
name_at (some s) = here s.name

unfoldable pub get_sel_name : List Selection → ℕ → Looked Bytes
get_sel_name table idx =
    if is_negative idx || leb (length table) idx then null else name_at (get_elem? table idx)

-- The id of the selection at the index that was found.
unfoldable pub id_at : List Selection → Option ℕ → ℕ
id_at table none = minus_one
id_at table (some i) = elim (get_elem? table i) [ none ↦ minus_one | some s ↦ s.id ]

-- The name may be NULL.
unfoldable pub get_sel_id : List Selection → Option Bytes → ℕ
get_sel_id table none = minus_one
get_sel_id table (some name) =
    if length table == 0 then minus_one else id_at table (index_of name 0 table)

unfoldable pub nodes_by_sel_name : List Selection → Option Bytes → Looked (List ℕ)
nodes_by_sel_name table name = nodes_by_sel_id table (get_sel_id table name)

abbrev pub is_blank : ℕ → Bool
is_blank c = (c == 9) || (c == 32)

-- The name without its trailing blanks; `none` for a blank name, where the loop goes on before its
-- start, which is not followed.
unfoldable pub strip : Bytes → Option Bytes
strip [] = none
strip (c ∷ cs) = elim (strip cs) [
  | none ↦ if is_blank c then none else some (c ∷ [])
  | some name ↦ some (c ∷ name)
]

-- The selection with one more node.
unfoldable pub with_one : ℕ → Option Selection → List Selection → ℕ → List Selection × ℕ
with_one i none table node = (table, i)
with_one i (some s) table node = (set table i (record s { nodes = node ∷ s.nodes }), s.id)

-- `add_one_selection` after the name was stripped, where memory can be had.
unfoldable pub add_named : List Selection → Bytes → ℕ → List Selection × ℕ
add_named table name node = elim (index_of name 0 table) [
  | some i ↦ with_one i (get_elem? table i) table node
  | none ↦
      (table ++ record { id = length table; name = name; nodes = node ∷ [] } ∷ [], length table)
]

unfoldable pub add_one_selection : List Selection → Bytes → ℕ → Option (List Selection × ℕ)
add_one_selection table name node = elim (strip name) [
  | none ↦ none
  | some stripped ↦ some (add_named table stripped node)
]

-- The bytes up to the first comma, and those behind it, where there is one.
unfoldable pub cut : Bytes → Bytes × Option Bytes
cut [] = ([], none)
cut (c ∷ cs) = let rest = cut cs in if c == 44 then ([], some cs) else (c ∷ rest.0, rest.1)

unfoldable pub skip_blanks : Bytes → Bytes
skip_blanks [] = []
skip_blanks (c ∷ cs) = let rest = skip_blanks cs in if is_blank c then rest else c ∷ cs

-- With fuel for the names; `none` also where a name is blank.
unfoldable pub add_selection : ℕ → List Selection → Bytes → ℕ → Option (List Selection)
add_selection zero table names node = none
add_selection (suc fuel) table names node = elim (add_one_selection table (cut names).0 node) [
  | none ↦ none
  | some added ↦ elim (cut names).1 [
    | none ↦ some added.0
    | some more ↦ add_selection fuel added.0 (skip_blanks more) node
  ]
]

-- ===== src/Node/SelectTests.antt =====
-- The selections at concrete names.
use monitor_merlin.Base.{◌≡◌, refl, some, none, List, [], ◌∷◌, length}
use monitor_merlin.Node.Select.{
  Selection, outside, here, index_of, nodes_at, nodes_by_sel_id, id_at, get_sel_id,
  nodes_by_sel_name, strip, add_named, add_one_selection, cut, skip_blanks, add_selection,
}

-- "a , b"
abbrev table : List Selection
table =
    record { id = 0; name = 97 ∷ []; nodes = 5 ∷ [] }
    ∷ record { id = 1; name = 98 ∷ []; nodes = 5 ∷ [] }
    ∷ []

added : add_selection 2 [] (97 ∷ 32 ∷ 44 ∷ 32 ∷ 98 ∷ []) 5 ≡ some table
unfolding add_selection add_one_selection add_named index_of strip cut skip_blanks
added = refl

found : nodes_by_sel_name table (some (98 ∷ [])) ≡ here (5 ∷ [])
unfolding nodes_by_sel_name nodes_by_sel_id nodes_at get_sel_id id_at index_of
found = refl

-- The number of selections passes the test of the index.
outside_the_table : nodes_by_sel_id table (length table) ≡ outside
unfolding nodes_by_sel_id nodes_at
outside_the_table = refl

blank_name : add_selection 9 [] (44 ∷ 97 ∷ []) 5 ≡ none
unfolding add_selection add_one_selection strip cut
blank_name = refl

-- ===== src/Slist/Tests.antt =====
-- The sorted lists of tools/slist.c with numbers for items.
use monitor_merlin.Base.{ℕ, ◌≡◌, refl, true, false, some, none, [], ◌∷◌, arith}
use monitor_merlin.Slist.{
  done, Slist, pushed, push, pop, find, find_pos, item_at, bisect_sorted, bisect, probe, set_list,
  attach, release, sort, sort_slots,
}
use monitor_merlin.Slist.Find.{Holds, Finds, find-Finds}
use monitor_merlin.Slist.Push.{Allocated}
use monitor_merlin.Slist.Grow.{push-pop}
use monitor_merlin.Slist.Numbers.{compare_numbers, Orders-numbers, insertion_sort, Sorts-insertion}

abbrev three : Slist ℕ
three = record {
  slots = some (some 3 ∷ some 1 ∷ some 2 ∷ none ∷ none ∷ []);
  alloc = 5;
  pos = 3;
  is_sorted = false;
}

Holds-three : Holds compare_numbers three (3 ∷ 1 ∷ 2 ∷ [])
Holds-three = record {
  rest = none ∷ none ∷ [];
  filled = refl;
  count = refl;
  ordered = λ e. absurd (cc e);
}

find-Finds_example :
    Finds compare_numbers insertion_sort Sorts-insertion Orders-numbers 2
      (find compare_numbers insertion_sort 4 three 2)
      (3 ∷ 1 ∷ 2 ∷ [])
find-Finds_example =
    find-Finds compare_numbers insertion_sort Sorts-insertion Orders-numbers 2 4 three
      (3 ∷ 1 ∷ 2 ∷ []) Holds-three (omega arith) (omega arith)

push-pop_example :
    (sl' sl'' : Slist ℕ) × (push compare_numbers insertion_sort true three 7 ≡ done (pushed sl'))
    × Holds compare_numbers sl' (3 ∷ 1 ∷ 2 ∷ 7 ∷ [])
    × Allocated sl'
    × (pop sl' ≡ done (sl'', some 7))
    × Holds compare_numbers sl'' (3 ∷ 1 ∷ 2 ∷ [])
push-pop_example =
    push-pop compare_numbers insertion_sort Orders-numbers three (3 ∷ 1 ∷ 2 ∷ []) 7 Holds-three
      (record { size = refl; some_slots = omega arith }) (omega arith)

-- as `slist_set_list` leaves it
abbrev attached : Slist ℕ
attached = record { slots = some (some 2 ∷ some 1 ∷ []); alloc = 0; pos = 2; is_sorted = false }

-- A list that was released says that it is sorted, so that a new list is not sorted.
set_list_after_release :
    set_list compare_numbers insertion_sort (release three) (some (some 2 ∷ some 1 ∷ [])) 2 false
    ≡ done (record attached { is_sorted = true }, true)
unfolding set_list attach release sort sort_slots
set_list_after_release = refl

-- An item of such a list is not found.
not_found :
    find compare_numbers insertion_sort 9 (record attached { is_sorted = true }) 2
    ≡ some (done (record attached { is_sorted = true }, none))
unfolding find find_pos item_at bisect_sorted bisect probe
not_found = refl

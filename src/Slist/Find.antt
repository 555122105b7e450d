-- ===== src/Slist/Find.antt =====
-- Looking up an item: `slist_sort`, `slist_find_pos` and `slist_find` of tools/slist.c.
use monitor_merlin.Base.{
  ℕ, zero, suc, ◌^◌, ◌<◌, ◌≤◌, ◌≡◌, ◌≢◌, ◌↔◌, ◌∙◌, ap, refl, sym, Bool, true, false, ◌||◌, Option,
  none, some, List, [], ◌∷◌, ◌++◌, map, length, get_elem?, take, drop, take-length, length-map, ltb,
  ◌==◌, if◌then◌else◌, if_true, if_false, arith, nil-or-cons, inl, inr, Bool-cases,
}
use monitor_merlin.Binlog.{u32}
use monitor_merlin.Binlog.Log.{is_none}
use monitor_merlin.Slist.{
  Sign, equal, Run, done, crash, Slist, Place, missing, slot, array, present, sort_items,
  sort_slots, sort, bisect, bisect_sorted, find_pos, item_at, find,
}
use monitor_merlin.Slist.Bisect.{Has, Orders, SortedBy, Located, bisect-Located, get-slots}

module _ {Item : Type 0} (compare : Item → Item → Sign) where
  -- qsort(3): the same items, sorted.
  pub record Sorts (qsort : List Item → List Item) : Type 0 where
    pub sorted : (xs : List Item) → SortedBy compare (qsort xs)
    pub same_length : (xs : List Item) → length (qsort xs) ≡ length xs
    pub into : (xs : List Item) (x : Item) → Has xs x → Has (qsort xs) x
    pub from : (xs : List Item) (x : Item) → Has (qsort xs) x → Has xs x

  -- The list holds the items `xs`, and is sorted if it says so.
  pub record Holds (sl : Slist Item) (xs : List Item) : Type 0 where
    pub rest : List (Option Item)
    pub filled : sl.slots ≡ some (map some xs ++ rest)
    pub count : sl.pos ≡ length xs
    pub ordered : sl.is_sorted ≡ true → SortedBy compare xs

out_of_range :
    {Item : Type 0} (xs : List Item) (i : ℕ) (x : Item)
    → length xs ≤ i
    → get_elem? xs i ≡ some x
    → ⊥
out_of_range [] i x le h = absurd (cc h)
out_of_range (y ∷ xs) zero x le h = absurd (omega arith)
out_of_range (y ∷ xs) (suc i) x le h = out_of_range xs i x (omega arith) h

pub in_range :
    {Item : Type 0} (xs : List Item) (i : ℕ) (x : Item) → get_elem? xs i ≡ some x → i < length xs
in_range [] i x h = absurd (cc h)
in_range (y ∷ xs) zero x h = omega arith
in_range (y ∷ xs) (suc i) x h = omega (arith, in_range xs i x h)

present-map : {Item : Type 0} (xs : List Item) → present (map some xs) ≡ some xs
present-map [] = refl
present-map (x ∷ xs) = rw (present-map xs) refl

module _ {Item : Type 0} (compare : Item → Item → Sign) (qsort : List Item → List Item)
    (sorts : Sorts compare qsort) where
  -- The items of a list that is not sorted are sorted.
  pub sort-Holds :
      (sl : Slist Item) (xs : List Item)
      → Holds compare sl xs
      → sl.is_sorted ≡ false
      → (sl.pos == 0) ≡ false
      → (sl' : Slist Item) × (sort compare qsort sl ≡ done sl')
        × (sl'.is_sorted ≡ true)
        × Holds compare sl' (qsort xs)
  unfolding sort sort_slots sort_items
  sort-Holds sl xs h new more = (
    record sl {
      slots = some (map some (qsort xs) ++ drop sl.pos (array sl.slots));
      is_sorted = true;
    },
    ap (sort_slots compare qsort sl) h.filled
        ∙ if_false _ _ not_yet
        ∙ ap (sort_items compare qsort sl) (ap present its_items ∙ present-map xs),
    refl,
    record {
      rest = drop sl.pos (array sl.slots);
      filled = refl;
      count = h.count ∙ sym (sorts.same_length xs);
      ordered = λ e. sorts.sorted xs;
    },
  )
    where
      not_yet : (sl.pos == 0 || sl.is_sorted) ≡ false
      not_yet = rw (more, new) refl

      its_items : take sl.pos (map some xs ++ h.rest) ≡ map some xs
      its_items =
          ap (λ n. take n (map some xs ++ h.rest)) (h.count ∙ sym (length-map some xs))
          ∙ take-length (map some xs) h.rest

  module _ (laws : Orders compare) (key : Item) where
    -- An answer about the key.
    abbrev pub Answers : List Item → Option Item → Type 0
    Answers xs none = (x : Item) → Has xs x → compare key x ≢ equal
    Answers xs (some x) = Has xs x × (compare key x ≡ equal)

    -- The list is still in order, with the same items, and the answer is right.
    abbrev pub Finds : Option (Run (Slist Item × Option Item)) → List Item → Type 0
    Finds out xs =
        (sl : Slist Item) × (found : Option Item) × (out ≡ some (done (sl, found)))
        × ((ys : List Item) × Holds compare sl ys × ((x : Item) → Has ys x ↔ Has xs x))
        × Answers xs found

    abbrev with_place : Slist Item → Option (Run Place) → Option (Run (Slist Item × Place))
    with_place sl out = elim out [
      | none ↦ none
      | some crash ↦ some crash
      | some (done place) ↦ some (done (sl, place))
    ]

    bisect_sorted-Located :
        (fuel : ℕ) (sl : Slist Item) (xs : List Item)
        → Holds compare sl xs
        → sl.is_sorted ≡ true
        → length xs < fuel
        → length xs < u32
        → (p : Place) × (bisect_sorted compare qsort fuel key (done sl) ≡ some (done (sl, p)))
          × Located compare xs key p
    unfolding bisect_sorted
    bisect_sorted-Located fuel sl xs h e enough few =
        let (p, answer, found) =
          bisect-Located compare qsort laws xs h.rest key (h.ordered e) few fuel 0 (length xs)
            (omega arith) (omega arith) (omega arith) (λ i x less get. absurd (omega arith))
            (λ i x far get. absurd (out_of_range xs i x far get)) in
        (
          p,
          ap (λ o. with_place sl (bisect compare qsort fuel (array o) key 0 sl.pos)) h.filled
              ∙ ap (λ n. with_place sl (bisect compare qsort fuel (map some xs ++ h.rest) key 0 n))
                  h.count
              ∙ ap (with_place sl) answer,
          found,
        )

    abbrev item_of : Slist Item → Option (Option Item) → Run (Slist Item × Option Item)
    item_of sl o = elim o [ none ↦ crash | some item ↦ done (sl, item) ]

    abbrev going_on : Option (Run (Slist Item × Place)) → Option (Run (Slist Item × Option Item))
    going_on out = elim out [
      | none ↦ none
      | some crash ↦ some crash
      | some (done answer) ↦ some (item_at compare qsort answer)
    ]

    item_at_lem :
        (sl : Slist Item) (xs : List Item) (p : Place)
        → Holds compare sl xs
        → length xs ≤ 2 ^ 31
        → Located compare xs key p
        → (found : Option Item) × (item_at compare qsort (sl, p) ≡ done (sl, found))
          × Answers xs found
    unfolding item_at
    item_at_lem sl xs missing h few nothing = (none, refl, λ x has. nothing has.0 x has.1)
    item_at_lem sl xs (slot m) h few (x, get, same) = (
      some x,
      if_true _ _ small
          ∙ ap (item_of sl)
              (ap (λ o. get_elem? (array o) m) h.filled ∙ get-slots xs h.rest m x get),
      ((m, get), same),
    )
      where
        small : ltb m (2 ^ 31) ≡ true
        small = ground (arith, in_range xs m x get)

    -- The list sorted, where it is not, and looked into.
    find_in :
        (fuel : ℕ) (sl sl' : Slist Item) (xs ys : List Item)
        → (if sl.is_sorted then done sl else sort compare qsort sl) ≡ done sl'
        → (sl.pos == 0 || is_none sl.slots) ≡ false
        → Holds compare sl' ys
        → sl'.is_sorted ≡ true
        → ((x : Item) → Has ys x ↔ Has xs x)
        → length ys < fuel
        → length ys ≤ 2 ^ 31
        → Finds (find compare qsort fuel sl key) xs
    unfolding find find_pos
    find_in fuel sl sl' xs ys sorted more h e same enough few =
        let (p, answer, there) = bisect_sorted-Located fuel sl' ys h e enough (omega arith) in
        let (found, item, right) = item_at_lem sl' ys p h few there in
        (
          sl',
          found,
          ap going_on
                (if_false _ _ more ∙ ap (bisect_sorted compare qsort fuel key) sorted ∙ answer)
              ∙ ap some item,
          (ys, h, same),
          moved found right,
        )
      where
        moved : (found : Option Item) → Answers ys found → Answers xs found
        moved none nothing = λ x has. nothing x ((same x).1 has)
        moved (some x) (has, eq) = ((same x).0 has, eq)

    find_nothing :
        (fuel : ℕ) (sl : Slist Item)
        → (sl.pos == 0) ≡ true
        → find compare qsort fuel sl key ≡ some (done (sl, none))
    unfolding find find_pos item_at
    find_nothing fuel sl e = ap going_on (if_true _ _ (ap (λ t. t || is_none sl.slots) e))

    -- `slist_find` of a list that is in order, with more fuel than items and no more than 2^31 of them,
    -- where qsort sorts, ends with an item of the list that compares equal to the key; or, just if there
    -- is none, with NULL. The items of the list stay, and it is in order.
    pub find-Finds :
        (fuel : ℕ) (sl : Slist Item) (xs : List Item)
        → Holds compare sl xs
        → length xs < fuel
        → length xs ≤ 2 ^ 31
        → Finds (find compare qsort fuel sl key) xs
    find-Finds fuel sl xs h enough few = elim (nil-or-cons xs) [
      | inl nothing ↦ (
        sl,
        none,
        find_nothing fuel sl (is_zero (h.count ∙ ap length nothing)),
        (xs, h, λ x. (λ a. a, λ a. a)),
        λ x has e.
            absurd (omega (arith, in_range xs has.0 x has.1, ap (length {A = Item}) nothing)),
      )
      | inr (y, ys, e) ↦ elim (Bool-cases sl.is_sorted) [
        | inl t ↦
            find_in fuel sl sl xs xs (if_true _ _ t) (more y ys e) h t (λ x. (λ a. a, λ a. a))
              enough few
        | inr t ↦
            (let (sl', answer, now, h') = sort-Holds sl xs h t (or_left _ _ (more y ys e)) in
              find_in fuel sl sl' xs (qsort xs) (if_false _ _ t ∙ answer) (more y ys e) h' now
                (λ x. (sorts.from xs x, sorts.into xs x)) (omega (arith, sorts.same_length xs))
                (omega (arith, sorts.same_length xs)))
      ]
    ]
      where
        is_zero : sl.pos ≡ 0 → (sl.pos == 0) ≡ true
        is_zero e = ground arith

        counted : (y : Item) (ys : List Item) → xs ≡ y ∷ ys → (sl.pos == 0) ≡ false
        counted y ys e = ground (arith, h.count, ap (length {A = Item}) e)

        more : (y : Item) (ys : List Item) → xs ≡ y ∷ ys → (sl.pos == 0 || is_none sl.slots) ≡ false
        more y ys e = rw (counted y ys e) (ap is_none h.filled)

        or_left : (a b : Bool) → (a || b) ≡ false → a ≡ false
        or_left true b p = p
        or_left false b p = refl

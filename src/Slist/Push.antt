-- ===== src/Slist/Push.antt =====
-- Storing an item behind the others: `slist_push` of tools/slist.c.
use monitor_merlin.Base.{
  ◌+◌, ◌-◌, ◌<◌, ◌≡◌, ◌≢◌, ◌∙◌, ap, refl, Bool, true, false, not, ◌&&◌, Option, some, List, [], ◌∷◌,
  ◌++◌, map, length, get_elem?, set, length-map, length-append, length-set, ltb, ◌==◌,
  if◌then◌else◌, if_true, if_false, arith, nil-or-cons, ◌⊎◌, inl, inr, Bool-cases, get_elem?_lt,
}
use monitor_merlin.Binlog.{u32, add32}
use monitor_merlin.Slist.{
  Sign, below, equal, above, Run, done, Slist, Pushed, pushed, array, seen, flipped, out_of_order,
  count_pushed, store,
}
use monitor_merlin.Slist.Bisect.{Orders, SortedBy, get-slots}
use monitor_merlin.Slist.Find.{Holds}
use monitor_merlin.Slist.Ends.{set-filled, SortedBy-append, SortedBy-single}

-- The array has as many slots as it says, and there are some.
pub record Allocated {Item : Type 0} (sl : Slist Item) : Type 0 where
  pub size : length (array sl.slots) ≡ sl.alloc
  pub some_slots : 0 < sl.alloc

module _ {Item : Type 0} (compare : Item → Item → Sign) (qsort : List Item → List Item)
    (laws : Orders compare) where
  -- Whether the new item is found to be out of order.
  abbrev check : Slist Item → Item → Run Bool
  check sl item =
      if sl.is_sorted && not (sl.pos == 0)
      then out_of_order compare qsort
          (flipped compare qsort item (get_elem? (array sl.slots) (sl.pos - 1)))
      else done false

  order_cases :
      (s : Sign) → (s ≡ above) ⊎ ((s ≢ above) × (out_of_order compare qsort (seen s) ≡ done false))
  unfolding out_of_order
  order_cases above = inl refl
  order_cases below = inr (λ e. absurd (cc e), refl)
  order_cases equal = inr (λ e. absurd (cc e), refl)

  -- What the check answers, and that it is right.
  abbrev Checked : Slist Item → List Item → Item → Type 0
  Checked sl xs item =
      (wrong : Bool) × (check sl item ≡ done wrong)
      × ((sl.is_sorted && not wrong) ≡ true → SortedBy compare (xs ++ item ∷ []))

  check_of :
      (sl : Slist Item) (xs : List Item) (item last : Item)
      → Holds compare sl xs
      → sl.is_sorted ≡ true
      → 0 < length xs
      → get_elem? xs (length xs - 1) ≡ some last
      → check sl item ≡ out_of_order compare qsort (seen (compare last item))
  unfolding flipped
  check_of sl xs item last h e more found =
      if_true _ _ asked
      ∙ ap
          (λ o.
            out_of_order compare qsort
              (flipped compare qsort item (get_elem? (array o) (sl.pos - 1))))
          h.filled
      ∙ ap
          (λ n.
            out_of_order compare qsort
              (flipped compare qsort item (get_elem? (map some xs ++ h.rest) (n - 1))))
          h.count
      ∙ ap (λ o. out_of_order compare qsort (flipped compare qsort item o))
          (get-slots xs h.rest _ last found)
    where
      counted : (sl.pos == 0) ≡ false
      counted = ground (arith, h.count)

      asked : (sl.is_sorted && not (sl.pos == 0)) ≡ true
      asked = rw (e, counted) refl

  checked :
      (sl : Slist Item) (xs : List Item) (item : Item) → Holds compare sl xs → Checked sl xs item
  unfolding out_of_order
  checked sl xs item h = elim (Bool-cases sl.is_sorted) [
    | inr e ↦ (false, if_false _ _ (ap (λ t. t && not (sl.pos == 0)) e), λ e'. absurd (cc (e, e')))
    | inl e ↦ elim (nil-or-cons xs) [
      | inl nothing ↦ (
        false,
        if_false _ _ (first nothing),
        λ e'. rw nothing (SortedBy-single compare laws item),
      )
      | inr (y, ys, more) ↦
          (let some_items : 0 < length xs = omega (arith, ap (length {A = Item}) more) in
            let (last, found) = get_elem?_lt xs (length xs - 1) (omega arith) in
            let step = check_of sl xs item last h e some_items found in
            elim (order_cases (compare last item)) [
              | inl c ↦ (
                true,
                step ∙ ap (λ s. out_of_order compare qsort (seen s)) c,
                λ e'. absurd (cc (e, e')),
              )
              | inr (fine, c) ↦ (
                false,
                step ∙ c,
                λ e'. SortedBy-append compare laws xs item last (h.ordered e) found fine,
              )
            ])
    ]
  ]
    where
      first : xs ≡ [] → (sl.is_sorted && not (sl.pos == 0)) ≡ false
      first nothing = ground (arith, h.count, ap (length {A = Item}) nothing)

  -- The list after the item was stored.
  abbrev stored : Slist Item → Item → Bool → Slist Item
  stored sl item wrong = record sl {
    slots = some (set (array sl.slots) sl.pos (some item));
    is_sorted = sl.is_sorted && not wrong;
    pos = add32 sl.pos 1;
  }

  store_lem :
      (sl : Slist Item) (item : Item) (wrong : Bool)
      → sl.pos < length (array sl.slots)
      → check sl item ≡ done wrong
      → store compare qsort sl item ≡ done (pushed (stored sl item wrong))
  unfolding store count_pushed
  store_lem sl item wrong room answer =
      if_true _ _ fits
      ∙ ap
          (count_pushed compare qsort
            (record sl { slots = some (set (array sl.slots) sl.pos (some item)) }))
          answer
    where
      fits : ltb sl.pos (length (array sl.slots)) ≡ true
      fits = ground arith

  pub total :
      (sl : Slist Item) (xs : List Item) (h : Holds compare sl xs)
      → length (array sl.slots) ≡ length xs + length h.rest
  total sl xs h =
      ap (λ o. length (array o)) h.filled
      ∙ length-append (map some xs) h.rest
      ∙ ap (λ n. n + length h.rest) (length-map some xs)

  stored-Holds :
      (sl : Slist Item) (xs : List Item) (item : Item) (wrong : Bool)
      → Holds compare sl xs
      → Allocated sl
      → sl.pos < length (array sl.slots)
      → sl.alloc < u32
      → ((sl.is_sorted && not wrong) ≡ true → SortedBy compare (xs ++ item ∷ []))
      → Holds compare (stored sl item wrong) (xs ++ item ∷ [])
  stored-Holds sl xs item wrong h a room small sorted = elim (nil-or-cons h.rest) [
    | inl full ↦
        absurd (omega (arith, room, h.count, total sl xs h, ap (length {A = Option Item}) full))
    | inr (y, rest, e) ↦ record {
      rest = rest;
      filled = ap some (
          ap (λ l. set l sl.pos (some item)) (ap array h.filled ∙ ap (λ r. map some xs ++ r) e)
          ∙ ap (λ n. set (map some xs ++ y ∷ rest) n (some item)) h.count
          ∙ set-filled xs y rest item);
      count = omega (arith, h.count, length-append xs (item ∷ []), room, a.size);
      ordered = sorted;
    }
  ]

  -- The item was added, and there is still an array.
  abbrev pub Pushes : Run (Pushed Item) → List Item → Item → Type 0
  Pushes out xs item =
      (sl : Slist Item) × (out ≡ done (pushed sl))
      × Holds compare sl (xs ++ item ∷ [])
      × Allocated sl

  pub store-Pushes :
      (sl : Slist Item) (xs : List Item) (item : Item)
      → Holds compare sl xs
      → Allocated sl
      → sl.pos < length (array sl.slots)
      → sl.alloc < u32
      → Pushes (store compare qsort sl item) xs item
  store-Pushes sl xs item h a room small =
      let (wrong, answer, sorted) = checked sl xs item h in
      (
        stored sl item wrong,
        store_lem sl item wrong room answer,
        stored-Holds sl xs item wrong h a room small sorted,
        record {
          size = length-set (array sl.slots) sl.pos (some item) ∙ a.size;
          some_slots = a.some_slots;
        },
      )

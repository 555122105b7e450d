-- ===== src/Slist/Grow.antt =====
-- `slist_push` of tools/slist.c when the array may have to grow, and `slist_pop` after it.
use monitor_merlin.Base.{
  ℕ, ◌+◌, ◌-◌, ◌<◌, ◌≤◌, ◌≡◌, ◌∙◌, ap, Bool, true, false, Option, none, some, List, [], ◌∷◌, ◌++◌,
  map, length, get_elem?, set, replicate, length-append, length-replicate, take_all, append_assoc,
  ltb, leb, ◌==◌, if_true, if_false, arith, inl, inr, Bool-cases,
}
use monitor_merlin.Binlog.{u32, add32, sub32}
use monitor_merlin.Slist.{
  Sign, done, crash, Slist, pushed, array, store, push, grow, resize, pop, pop_at,
}
use monitor_merlin.Slist.Bisect.{Orders, get-slots}
use monitor_merlin.Slist.Find.{Holds}
use monitor_merlin.Slist.Ends.{set-emptied, get_last, SortedBy-prefix}
use monitor_merlin.Slist.Push.{Allocated, Pushes, store-Pushes, total}

module _ {Item : Type 0} (compare : Item → Item → Sign) (qsort : List Item → List Item)
    (laws : Orders compare) where
  -- The list after its array has grown.
  abbrev grown : Slist Item → Slist Item
  grown sl = record sl {
    slots = some (resize (array sl.slots) (add32 sl.alloc 5));
    alloc = add32 sl.alloc 5;
  }

  resize_longer :
      (l : List (Option Item)) (n : ℕ)
      → length l ≤ n
      → resize l n ≡ l ++ replicate (n - length l) none
  unfolding resize
  resize_longer l n h = ap (λ t. t ++ replicate (n - length l) none) (take_all n l h)

  grown-Holds :
      (sl : Slist Item) (xs : List Item)
      → Holds compare sl xs
      → Allocated sl
      → sl.alloc + 5 < u32
      → Holds compare (grown sl) xs
  grown-Holds sl xs h a small = record {
    rest = h.rest ++ replicate (add32 sl.alloc 5 - length (array sl.slots)) none;
    filled = ap some (
        resize_longer (array sl.slots) (add32 sl.alloc 5) (omega (arith, a.size))
        ∙ ap (λ l. l ++ replicate (add32 sl.alloc 5 - length (array sl.slots)) none)
            (ap array h.filled)
        ∙ append_assoc (map some xs) h.rest
            (replicate (add32 sl.alloc 5 - length (array sl.slots)) none));
    count = h.count;
    ordered = h.ordered;
  }

  grown-Allocated : (sl : Slist Item) → Allocated sl → sl.alloc + 5 < u32 → Allocated (grown sl)
  grown-Allocated sl a small = record {
    size =
        ap length (resize_longer (array sl.slots) (add32 sl.alloc 5) (omega (arith, a.size)))
        ∙ length-append (array sl.slots)
            (replicate (add32 sl.alloc 5 - length (array sl.slots)) none)
        ∙ ap (λ n. length (array sl.slots) + n)
            (length-replicate (add32 sl.alloc 5 - length (array sl.slots)) none)
        ∙ omega (arith, a.size);
    some_slots = omega (arith, a.some_slots);
  }

  -- A push onto an array with slots, where memory can be had, adds the item.
  push-Pushes :
      (sl : Slist Item) (xs : List Item) (item : Item)
      → Holds compare sl xs
      → Allocated sl
      → sl.alloc + 5 < u32
      → sl.pos ≤ sl.alloc
      → Pushes compare qsort laws (push compare qsort true sl item) xs item
  unfolding push grow
  push-Pushes sl xs item h a small inside = elim (Bool-cases (leb (sub32 sl.alloc 1) sl.pos)) [
    | inr e ↦
        (let (sl', answer, h', a'') =
            store-Pushes compare qsort laws sl xs item h a (below_end e) (omega arith) in
          (sl', if_false _ _ e ∙ answer, h', a''))
    | inl e ↦
        (let a' = grown-Allocated sl a small in
          let (sl', answer, h', a'') =
            store-Pushes compare qsort laws (grown sl) xs item (grown-Holds sl xs h a small) a'
              (omega (arith, a'.size)) (omega arith) in
          (sl', if_true _ _ e ∙ answer, h', a''))
  ]
    where
      below_end : leb (sub32 sl.alloc 1) sl.pos ≡ false → sl.pos < length (array sl.slots)
      below_end e = ground (arith, a.size, a.some_slots)

  pop-Holds :
      (sl : Slist Item) (xs : List Item) (item : Item)
      → Holds compare sl (xs ++ item ∷ [])
      → (sl' : Slist Item) × (pop sl ≡ done (sl', some item)) × Holds compare sl' xs
  unfolding pop pop_at
  pop-Holds sl xs item h = (
    record sl { slots = some (set (array sl.slots) (sl.pos - 1) none); pos = sl.pos - 1 },
    if_false _ _ more
        ∙ ap (pop_at sl (sl.pos - 1)) (
            ap (λ o. get_elem? (array o) (sl.pos - 1)) h.filled
            ∙ ap (get_elem? (map some (xs ++ item ∷ []) ++ h.rest)) last_index
            ∙ get-slots (xs ++ item ∷ []) h.rest (length xs) item (get_last xs item)),
    record {
      rest = none ∷ h.rest;
      filled = ap some (
          ap (λ o. set (array o) (sl.pos - 1) none) h.filled
          ∙ ap (λ i. set (map some (xs ++ item ∷ []) ++ h.rest) i none) last_index
          ∙ set-emptied xs item h.rest);
      count = last_index;
      ordered = λ e. SortedBy-prefix compare laws xs item (h.ordered e);
    },
  )
    where
      last_index : sl.pos - 1 ≡ length xs
      last_index = omega (arith, h.count, length-append xs (item ∷ []))

      more : (sl.pos == 0) ≡ false
      more = ground (arith, h.count, length-append xs (item ∷ []))

  -- Onto a list in order, whose array has slots, all of them and five more fewer than 2^32, `slist_push`
  -- puts the item behind the others, where memory can be had; the list stays in order, sorted where it
  -- says so. `slist_pop` then takes the same item off again and leaves the others, in order.
  pub push-pop :
      (sl : Slist Item) (xs : List Item) (item : Item)
      → Holds compare sl xs
      → Allocated sl
      → sl.alloc + 5 < u32
      → (sl' sl'' : Slist Item) × (push compare qsort true sl item ≡ done (pushed sl'))
        × Holds compare sl' (xs ++ item ∷ [])
        × Allocated sl'
        × (pop sl' ≡ done (sl'', some item))
        × Holds compare sl'' xs
  push-pop sl xs item h a small =
      let (sl', answer, h', a') =
        push-Pushes sl xs item h a small
          (omega (arith, h.count, a.size, total compare qsort laws sl xs h)) in
      let (sl'', taken, h'') = pop-Holds sl' xs item h' in (sl', sl'', answer, h', a', taken, h'')

module _ {Item : Type 0} (compare : Item → Item → Sign) (qsort : List Item → List Item) where
  -- On a list that says that it has no slots, as after `slist_release` or `slist_set_list`, and whose
  -- array has none behind its items, `slist_push` writes outside of the array, also where memory could
  -- be had: the test whether the array must grow wraps around. The list has fewer than 2^32 - 1 items.
  pub push_unallocated :
      (fits : Bool) (sl : Slist Item) (item : Item)
      → sl.alloc ≡ 0
      → length (array sl.slots) ≤ sl.pos
      → sl.pos < u32 - 1
      → push compare qsort fits sl item ≡ crash
  unfolding push store
  push_unallocated fits sl item e full few = if_false _ _ no_growth ∙ if_false _ _ no_slot
    where
      no_growth : leb (sub32 sl.alloc 1) sl.pos ≡ false
      no_growth = ground arith

      no_slot : ltb sl.pos (length (array sl.slots)) ≡ false
      no_slot = ground arith

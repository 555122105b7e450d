-- ===== src/Slist.antt =====
-- tools/slist.c: lists that are sorted when something is looked up in them.
pub mod Bisect
pub mod Find
pub mod Ends
pub mod Push
pub mod Grow
pub mod Numbers
pub mod Tests
use monitor_merlin.Base.{
  ℕ, zero, suc, ◌+◌, ◌-◌, ◌/◌, ◌%◌, ◌^◌, ◌<◌, Bool, true, false, not, ◌&&◌, ◌||◌, Option, none,
  some, List, [], ◌∷◌, ◌++◌, map, length, get_elem?, set, take, drop, replicate, ltb, leb, ◌==◌,
  if◌then◌else◌,
}
use monitor_merlin.Binlog.{u32, add32, sub32}
use monitor_merlin.Binlog.Log.{is_none}

-- The sign of a comparison of the first with the second.
pub data Sign : Type 0 where
  below equal above : Sign

-- A run ends, or reads or writes outside of the array or an empty slot.
pub data Run {ℓ} (A : Type ℓ) : Type ℓ where
  done : A → Run A
  crash : Run A

-- `struct sorted_list`, which is not NULL. The array may be NULL; a slot may hold no item.
pub record Slist (Item : Type 0) : Type 0 where
  pub slots : Option (List (Option Item))
  pub alloc : ℕ
  pub pos : ℕ
  pub is_sorted : Bool

-- -1, or a position
pub data Place : Type 0 where
  missing : Place
  slot : ℕ → Place

-- The answer of a push: 0, or -1.
pub data Pushed (Item : Type 0) : Type 0 where
  pushed : Slist Item → Pushed Item
  no_memory : Slist Item → Pushed Item

-- What is known of the loop after one test.
pub data Probe : Type 0 where
  fault : Probe
  seen : Sign → Probe

module _ {Item : Type 0} where
  abbrev pub array : Option (List (Option Item)) → List (Option Item)
  array none = []
  array (some l) = l

  -- The items of the slots, where none is empty.
  abbrev pub present : List (Option Item) → Option (List Item)
  present [] = some []
  present (none ∷ l) = none
  present (some x ∷ l) = elim (present l) [ none ↦ none | some xs ↦ some (x ∷ xs) ]

  -- `slist_init`, with what `calloc` and the `realloc` of `slist_grow` answer.
  unfoldable pub init : ℕ → Bool → Bool → Option (Slist Item)
  init hint calloc_ok realloc_ok =
      if not calloc_ok
      then none
      else if hint == 0 || not realloc_ok
      then some (record { slots = none; alloc = 0; pos = 0; is_sorted = false })
      else some
          (record { slots = some (replicate hint none); alloc = hint; pos = 0; is_sorted = false })

  -- realloc(3): the slots that the old and the new array share stay.
  unfoldable pub resize : List (Option Item) → ℕ → List (Option Item)
  resize l n = take n l ++ replicate (n - length l) none

  -- `slist_grow`; `false` is -1.
  unfoldable pub grow : Bool → Slist Item → ℕ → Slist Item × Bool
  grow realloc_ok sl hint =
      if hint == 0 then (sl, true) else if not realloc_ok then (sl, false) else (
        record sl {
          slots = some (resize (array sl.slots) (add32 sl.alloc hint));
          alloc = add32 sl.alloc hint;
        },
        true,
      )

  -- `slist_set_list` without the sorting; `false` is -1. `list` may be NULL.
  unfoldable pub attach : Slist Item → Option (List (Option Item)) → ℕ → Slist Item × Bool
  attach sl none items = (sl, false)
  attach sl (some l) items =
      if items == 0
      then (sl, false)
      else (record sl { slots = some l; pos = items; alloc = 0 }, true)

  unfoldable pub release : Slist Item → Slist Item
  release sl = record { slots = none; alloc = 0; pos = 0; is_sorted = true }

  unfoldable pub free_items : Slist Item → Slist Item
  free_items sl = elim sl.slots [ none ↦ sl | some l ↦ record sl { pos = 0 } ]

  unfoldable pub entries : Slist Item → ℕ
  entries sl = sl.pos

  -- The item taken off the end; none where the list has none.
  unfoldable pub pop_at : Slist Item → ℕ → Option (Option Item) → Run (Slist Item × Option Item)
  pop_at sl i none = crash
  pop_at sl i (some item) =
      done (record sl { slots = some (set (array sl.slots) i none); pos = i }, item)

  unfoldable pub pop : Slist Item → Run (Slist Item × Option Item)
  pop sl =
      if sl.pos == 0
      then done (sl, none)
      else pop_at sl (sl.pos - 1) (get_elem? (array sl.slots) (sl.pos - 1))

module _ {Item : Type 0} (compare : Item → Item → Sign) (qsort : List Item → List Item) where
  unfoldable pub sort_items : Slist Item → Option (List Item) → Run (Slist Item)
  sort_items sl none = crash
  sort_items sl (some xs) = done (record sl {
    slots = some (map some (qsort xs) ++ drop sl.pos (array sl.slots));
    is_sorted = true;
  })

  unfoldable pub sort_slots : Slist Item → Option (List (Option Item)) → Run (Slist Item)
  sort_slots sl none = done sl
  sort_slots sl (some l) =
      if sl.pos == 0 || sl.is_sorted then done sl else sort_items sl (present (take sl.pos l))

  -- `slist_sort`, for an array of `pos` slots at least.
  unfoldable pub sort : Slist Item → Run (Slist Item)
  sort sl = sort_slots sl sl.slots

  unfoldable pub set_list :
      Slist Item → Option (List (Option Item)) → ℕ → Bool → Run (Slist Item × Bool)
  set_list sl list items sorted =
      let (sl', okay) = attach sl list items in
      if not okay
      then done (sl, false)
      else if sorted
      then done (sl', true)
      else elim (sort sl') [ done sl'' ↦ done (sl'', true) | crash ↦ crash ]

  unfoldable pub probe : Item → Option (Option Item) → Probe
  probe key none = fault
  probe key (some none) = fault
  probe key (some (some x)) = seen (compare key x)

  -- The loop of `slist_find_pos`, with fuel; `none` means that the fuel ran out.
  unfoldable pub bisect : ℕ → List (Option Item) → Item → ℕ → ℕ → Option (Run Place)
  bisect zero l key low high = none
  bisect (suc fuel) l key low high =
      if sub32 high low == 0
      then some (done missing)
      else (let mid = add32 low (sub32 high low / 2) in
          elim (probe key (get_elem? l mid)) [
            | fault ↦ some crash
            | seen above ↦ bisect fuel l key (add32 mid 1) high
            | seen below ↦ bisect fuel l key low mid
            | seen equal ↦ some (done (slot mid))
          ])

  -- What `slist_find_pos` does with a list that was sorted, where it has items.
  unfoldable pub bisect_sorted : ℕ → Item → Run (Slist Item) → Option (Run (Slist Item × Place))
  bisect_sorted fuel key crash = some crash
  bisect_sorted fuel key (done sl) = elim (bisect fuel (array sl.slots) key 0 sl.pos) [
    | none ↦ none
    | some crash ↦ some crash
    | some (done place) ↦ some (done (sl, place))
  ]

  unfoldable pub find_pos : ℕ → Slist Item → Item → Option (Run (Slist Item × Place))
  find_pos fuel sl key =
      if sl.pos == 0 || is_none sl.slots
      then some (done (sl, missing))
      else bisect_sorted fuel key (if sl.is_sorted then done sl else sort sl)

  -- `sl->list[slot]`; a slot of 2^31 or more is a negative `int`.
  unfoldable pub item_at : Slist Item × Place → Run (Slist Item × Option Item)
  item_at (sl, missing) = done (sl, none)
  item_at (sl, slot i) =
      if ltb i (2 ^ 31)
      then elim (get_elem? (array sl.slots) i) [ none ↦ crash | some item ↦ done (sl, item) ]
      else done (sl, none)

  unfoldable pub find : ℕ → Slist Item → Item → Option (Run (Slist Item × Option Item))
  find fuel sl key = elim (find_pos fuel sl key) [
    | none ↦ none
    | some crash ↦ some crash
    | some (done answer) ↦ some (item_at answer)
  ]

  -- The item before the new one compared with it.
  unfoldable pub flipped : Item → Option (Option Item) → Probe
  flipped item none = fault
  flipped item (some none) = fault
  flipped item (some (some x)) = seen (compare x item)

  unfoldable pub out_of_order : Probe → Run Bool
  out_of_order fault = crash
  out_of_order (seen above) = done true
  out_of_order (seen other) = done false

  unfoldable pub count_pushed : Slist Item → Run Bool → Run (Pushed Item)
  count_pushed sl crash = crash
  count_pushed sl (done wrong) =
      done (pushed (record sl { is_sorted = sl.is_sorted && not wrong; pos = add32 sl.pos 1 }))

  -- `slist_push` where there is memory.
  unfoldable pub store : Slist Item → Item → Run (Pushed Item)
  store sl item =
      if ltb sl.pos (length (array sl.slots))
      then (let sl' = record sl { slots = some (set (array sl.slots) sl.pos (some item)) } in
          count_pushed sl' (
            if sl.is_sorted && not (sl.pos == 0)
            then out_of_order (flipped item (get_elem? (array sl.slots) (sl.pos - 1)))
            else done false))
      else crash

  -- `fits` says that the memory for a longer array can be had.
  unfoldable pub push : Bool → Slist Item → Item → Run (Pushed Item)
  push fits sl item =
      if leb (sub32 sl.alloc 1) sl.pos
      then (let grown = grow fits sl 5 in
          if grown.1 then store grown.0 item else done (no_memory grown.0))
      else store sl item

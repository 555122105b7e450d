-- ===== src/Binlog/MemoryLaws.antt =====
-- The memory operations on a backlog that is in order, where memory can be allocated.
use monitor_merlin.Base.{
  ℕ, suc, ◌+◌, ◌-◌, ◌*◌, ◌^◌, ◌≤◌, ◌<◌, ◌≡◌, refl, sym, ◌∙◌, ap, Option, none, some, List, [], ◌∷◌,
  ◌++◌, map, arith, length, set, get_or, nil_of_length, get_elem?, get_or-get_elem?, take, drop,
  window, replicate, length-append, length-replicate, length-take, length-drop, length-set,
  length-map, take_all, window-append, window-set_end, drop-set_before, drop-cons, get_elem?_lt,
  Option-cases, Bool-cases, ◌⊎◌, inl, inr, leb, leb→le,
}
use mathlib.Core.List.{map-append}
use monitor_merlin.Binlog.{Bytes, ok, empty, Binlog, Os, add32, sub32, array}
use monitor_merlin.Binlog.Memory.{
  resize, grown, grow, make_room, add_entry, mem_add, mem_read, entry_struct_size, pointer_size,
}
use monitor_merlin.Binlog.Inv.{Works, MemoryHolds, InMemory}

abbrev pub Slots : Type 0
Slots = List (Option Bytes)

-- The number of entries is what the two indices say.
pub length-MemoryHolds :
    {l : Slots} {alloc r w : ℕ} {mem : List Bytes}
    → MemoryHolds l alloc r w mem
    → length mem ≡ w - r
length-MemoryHolds {l} {alloc} {r} {w} {mem} m = omega (
  arith,
  ap (length {A = Option Bytes}) m.entries,
  length-map some mem,
  length-take (w - r) (drop r l),
  length-drop r l,
)

-- realloc(3) to a larger size keeps what is held.
resize-MemoryHolds :
    {l : Slots} {alloc r w : ℕ} {mem : List Bytes} (n : ℕ)
    → MemoryHolds l alloc r w mem
    → alloc ≤ n
    → MemoryHolds (resize l n) n r w mem
resize-MemoryHolds {l} {alloc} {r} {w} {mem} n m h = record {
  room = rw whole long;
  read_in = m.read_in;
  write_in = omega (arith, m.write_in);
  entries =
      rw whole rw
        (window-append l (replicate (n - length l) none) r (w - r) (omega (arith, m.room)))
        m.entries;
}
  where
    long : length (l ++ replicate (n - length l) none) ≡ n
    long = omega (
      arith,
      m.room,
      length-append l (replicate (n - length l) none),
      length-replicate {A = Option Bytes} (n - length l) none,
    )

    whole : resize l n ≡ l ++ replicate (n - length l) none
    whole = take_all n (l ++ replicate (n - length l) none) (omega (arith, long))

-- Storing at the write index adds the entry at the end.
store-MemoryHolds :
    {l : Slots} {alloc r w : ℕ} {mem : List Bytes} (b : Bytes)
    → MemoryHolds l alloc r w mem
    → w < alloc
    → w < 2 ^ 30
    → MemoryHolds (set l w (some b)) alloc r (add32 w 1) (mem ++ b ∷ [])
store-MemoryHolds {l} {alloc} {r} {w} {mem} b m room small = record {
  room = length-set l w (some b) ∙ m.room;
  read_in = omega (arith, m.read_in);
  write_in = omega arith;
  entries =
      rw (count, map-append) rw
        (window-set_end l r (w - r) w (some b) (omega (arith, m.read_in)) (omega (arith, m.room)))
        rw m.entries refl;
}
  where
    count : add32 w 1 - r ≡ suc (w - r)
    count = omega (arith, m.read_in)

-- The array is there, with room for one more, after the first test of `binlog_mem_add`.
abbrev with_array : Binlog → ℕ → Slots → Binlog
with_array bl n l = record bl { alloc = n; cache = some l }

make_room_lem :
    (os : Os) (bl : Binlog) (mem : List Bytes)
    → Works os
    → InMemory bl mem
    → bl.write_index < 2 ^ 30
    → (n : ℕ) × (l : Slots) × (make_room os bl ≡ (with_array bl n l, ok))
      × MemoryHolds l n bl.read_index bl.write_index mem
      × (bl.write_index < n)
unfolding make_room grow
make_room_lem os bl mem w m small = elim (Bool-cases (leb bl.alloc bl.write_index)) [
  | inl full ↦ (
    grown bl.alloc,
    resize (array bl.cache) (grown bl.alloc),
    ground (arith, w.alloc (pointer_size * grown bl.alloc)),
    resize-MemoryHolds (grown bl.alloc) m (omega (arith, leb→le _ _ full, m.write_in)),
    omega (arith, leb→le _ _ full, m.write_in),
  )
  | inr room ↦ elim (Option-cases bl.cache) [
    | inl e ↦ absurd (ground (arith, m.room))
    | inr (l, e) ↦ (bl.alloc, l, ground arith, rw e at m, ground arith)
  ]
]

pub mem_add_lem :
    (os : Os) (bl : Binlog) (b : Bytes) (mem : List Bytes)
    → Works os
    → InMemory bl mem
    → bl.write_index < 2 ^ 30
    → (n : ℕ) × (l : Slots) × (mem_add os bl b ≡ (
      record bl {
        cache = some l;
        alloc = n;
        write_index = add32 bl.write_index 1;
        mem_size = add32 bl.mem_size (length b + entry_struct_size);
        mem_avail = add32 bl.mem_avail (length b);
      },
      ok,
    ))
      × MemoryHolds l n bl.read_index (add32 bl.write_index 1) (mem ++ b ∷ [])
unfolding mem_add add_entry
mem_add_lem os bl b mem w m small =
    let (n, l, e, m', room) = make_room_lem os bl mem w m small in
    (
      n,
      set l bl.write_index (some b),
      rw e (ground (arith, w.alloc entry_struct_size, w.alloc (length b))),
      store-MemoryHolds b m' room small,
    )

-- Reading from a cache with nothing unread only resets the indices.
pub mem_read_empty :
    (bl : Binlog)
    → InMemory bl []
    → mem_read bl ≡ (record bl { read_index = 0; write_index = 0 }, empty, none)
unfolding mem_read
mem_read_empty bl m = ground (arith, length-MemoryHolds m)

pub reset-MemoryHolds :
    {l : Slots} {alloc r w : ℕ} {mem : List Bytes}
    → MemoryHolds l alloc r w mem
    → MemoryHolds l alloc 0 0 []
reset-MemoryHolds m = record {
  room = m.room;
  read_in = omega arith;
  write_in = omega arith;
  entries = refl;
}

-- The first unread entry is in the slot at the read index.
pub first_slot :
    {l : Slots} {alloc r w : ℕ} {b : Bytes} {mem : List Bytes}
    → MemoryHolds l alloc r w (b ∷ mem)
    → (get_or l r none ≡ some b) × (r < w) × (window l (r + 1) (w - r - 1) ≡ map some mem)
first_slot {l} {alloc} {r} {w} {b} {mem} m = (
  get_or-get_elem? l r none slot.1 ∙ cc split,
  omega (arith, count),
  (let e : w - r - 1 ≡ length mem = omega (arith, count) in rw e (cc split)),
)
  where
    count : w - r ≡ suc (length mem)
    count = sym (length-MemoryHolds m)

    slot : (x : Option Bytes) × (get_elem? l r ≡ some x)
    slot = get_elem?_lt l r (omega (arith, count, m.room, m.write_in))

    split : slot.0 ∷ take (length mem) (drop (r + 1) l) ≡ some b ∷ map some mem
    split = (rw (count, drop-cons l r slot.1) at m.entries)

-- The slot at the read index is emptied: what follows it stays.
rest-MemoryHolds :
    {l : Slots} {alloc r w : ℕ} {b : Bytes} {mem : List Bytes}
    → MemoryHolds l alloc r w (b ∷ mem)
    → w < 2 ^ 30
    → r + 1 < w
    → MemoryHolds (set l r none) alloc (add32 r 1) w mem
rest-MemoryHolds {l} {alloc} {r} {w} m small more = record {
  room = length-set l r none ∙ m.room;
  read_in = omega arith;
  write_in = m.write_in;
  entries = rw (next, count) rw (drop-set_before l (r + 1) r none (omega arith)) (first_slot m).2;
}
  where
    next : add32 r 1 ≡ r + 1
    next = omega arith

    count : w - (r + 1) ≡ w - r - 1
    count = omega arith

-- The last entry was read: the indices start again.
last-MemoryHolds :
    {l : Slots} {alloc r w : ℕ} {b : Bytes} {mem : List Bytes}
    → MemoryHolds l alloc r w (b ∷ mem)
    → w ≤ r + 1
    → MemoryHolds (set l r none) alloc 0 0 mem
last-MemoryHolds {l} {alloc} {r} {w} {b} {mem} m last = record {
  room = length-set l r none ∙ m.room;
  read_in = omega arith;
  write_in = omega arith;
  entries = sym (ap (map some) (nil_of_length mem (omega (arith, length-MemoryHolds m))));
}

pub mem_read_next :
    (bl : Binlog) (b : Bytes) (mem : List Bytes)
    → InMemory bl (b ∷ mem)
    → bl.write_index < 2 ^ 30
    → (l : Slots) × (avail r w : ℕ) × (mem_read bl ≡ (
      record bl { mem_avail = avail; cache = some l; read_index = r; write_index = w },
      ok,
      some b,
    ))
      × MemoryHolds l bl.alloc r w mem
      × (w ≤ bl.write_index)
      × ((0 < r) ⊎ (r ≡ 0) × (w ≡ 0))
unfolding mem_read
mem_read_next bl b mem m small = elim (Option-cases bl.cache) [
  | inl e ↦ absurd (ground (arith, length-MemoryHolds m, m.room))
  | inr (l, e) ↦ elim (Bool-cases (leb bl.write_index (add32 bl.read_index 1))) [
    | inl last ↦ (
      set l bl.read_index none,
      0,
      0,
      0,
      ground (arith, first_slot (held l e)),
      last-MemoryHolds (held l e) (omega (arith, leb→le _ _ last, m.write_in, m.read_in)),
      omega arith,
      inr (refl, refl),
    )
    | inr more ↦ (
      set l bl.read_index none,
      sub32 bl.mem_avail (length b),
      add32 bl.read_index 1,
      bl.write_index,
      ground (arith, first_slot (held l e)),
      rest-MemoryHolds (held l e) small (ground (arith, m.read_in)),
      omega arith,
      inl (omega (arith, small, (first_slot (held l e)).1)),
    )
  ]
]
  where
    held :
        (l : Slots)
        → bl.cache ≡ some l
        → MemoryHolds l bl.alloc bl.read_index bl.write_index (b ∷ mem)
    held l e = rw e at m

-- ===== src/Binlog/Undo.antt =====
-- Putting an event back after it was read.
use monitor_merlin.Base.{
  ℕ, suc, ◌+◌, ◌-◌, ◌%◌, ◌^◌, ◌≤◌, ◌<◌, ◌≡◌, ◌≢◌, refl, sym, ◌∙◌, ap, true, some, List, [], ◌∷◌,
  ◌++◌, arith, length, length-set, set, nil_of_length, nil-or-cons, window-set_start, ◌⊎◌, inl, inr,
}
use monitor_merlin.Binlog.{Bytes, ok, Binlog, Os, u32, add32}
use monitor_merlin.Binlog.Memory.{mem_unread, put_back, entry_struct_size}
use monitor_merlin.Binlog.Log.{add, read, unread, num_entries}
use monitor_merlin.Binlog.Inv.{Works, MemoryHolds, Holds}
use monitor_merlin.Binlog.MemoryLaws.{Slots, mem_read_next, length-MemoryHolds}
use monitor_merlin.Binlog.Fifo.{Queued, Queued-mono, has_room, add-fifo}
use monitor_merlin.Binlog.FifoRead.{read-memory}
use monitor_merlin.Binlog.Counts.{num_entries-length}

-- An entry stored in the slot before the read index becomes the first.
back-MemoryHolds :
    {l : Slots} {alloc r w : ℕ} {mem : List Bytes} (b : Bytes)
    → MemoryHolds l alloc r w mem
    → 0 < r
    → MemoryHolds (set l (r - 1) (some b)) alloc (r - 1) w (b ∷ mem)
back-MemoryHolds {l} {alloc} {r} {w} {mem} b m pos = record {
  room = length-set l (r - 1) (some b) ∙ m.room;
  read_in = omega (arith, m.read_in);
  write_in = m.write_in;
  entries =
      rw
        (
          count,
          window-set_start l (r - 1) (w - r) (some b)
              (omega (arith, m.room, m.read_in, m.write_in)),
          back,
        )
        (ap (λ t. some b ∷ t) m.entries);
}
  where
    count : w - (r - 1) ≡ suc (w - r)
    count = omega (arith, m.read_in)

    back : r - 1 + 1 ≡ r
    back = omega arith

-- A cache with nothing unread takes one entry back, in its first slot.
only-MemoryHolds :
    {l : Slots} {alloc : ℕ} {mem : List Bytes} (b : Bytes)
    → MemoryHolds l alloc 0 0 mem
    → 0 < alloc
    → MemoryHolds (set l 0 (some b)) alloc 0 1 (b ∷ [])
only-MemoryHolds {l} {alloc} b m pos = record {
  room = length-set l 0 (some b) ∙ m.room;
  read_in = omega arith;
  write_in = pos;
  entries = window-set_start l 0 0 (some b) (omega (arith, m.room));
}

unread-mem_unread :
    (os : Os) (bl : Binlog) (b : Bytes)
    → 0 < length b
    → num_entries bl ≢ 0
    → bl.file_read_pos ≡ 0
    → unread os bl b ≡ mem_unread os bl b
unfolding unread
unread-mem_unread os bl b pos ne start = ground arith

unread-add :
    (os : Os) (bl : Binlog) (b : Bytes)
    → 0 < length b
    → num_entries bl ≡ 0
    → unread os bl b ≡ add os bl b
unfolding unread
unread-add os bl b pos e = ground arith

mem_unread_lem :
    (os : Os) (bl : Binlog) (b : Bytes) {l : Slots}
    → Works os
    → bl.cache ≡ some l
    → bl.is_valid ≡ true
    → (0 < bl.read_index) ⊎ (bl.read_index ≡ 0) × (bl.write_index ≡ 0)
    → mem_unread os bl b ≡ (put_back bl b l, ok)
unfolding mem_unread
mem_unread_lem os bl b w e v start = ground (arith, w.alloc entry_struct_size)

abbrev credited : Binlog → Bytes → Binlog
credited bl b = record bl { mem_avail = add32 bl.mem_avail (length b) }

put_back_before :
    (bl : Binlog) (b : Bytes) (l : Slots)
    → 0 < bl.read_index
    → put_back bl b l ≡ record (credited bl b) {
      cache = some (set l (bl.read_index - 1) (some b));
      read_index = bl.read_index - 1;
    }
unfolding put_back
put_back_before bl b l pos = ground arith

put_back_start :
    (bl : Binlog) (b : Bytes) (l : Slots)
    → bl.read_index ≡ 0
    → put_back bl b l
      ≡ record (credited bl b) { cache = some (set l 0 (some b)); read_index = 0; write_index = 1 }
unfolding put_back
put_back_start bl b l e = ground arith

-- What `put_back` leaves holds the entry in front.
put_back-Queued :
    (bl : Binlog) (b : Bytes) (l : Slots) {mem file : List Bytes}
    → Holds (record bl { cache = some l }) mem file
    → 0 < bl.alloc
    → length b < 2 ^ 31
    → (0 < bl.read_index) ⊎ (bl.read_index ≡ 0) × (bl.write_index ≡ 0)
    → Queued (put_back bl b l) (b ∷ (mem ++ file)) (bl.write_index + 1)
put_back-Queued bl b l {mem} {file} h room small (inl pos) =
    rw (put_back_before bl b l pos) record {
      mem = b ∷ mem;
      file = file;
      holds = record {
        valid = h.valid;
        named = h.named;
        memory = back-MemoryHolds b h.memory pos;
        on_disk = h.on_disk;
        small_mem = (small, h.small_mem);
        small_file = h.small_file;
      };
      order = refl;
      slots_used = omega arith;
    }
put_back-Queued bl b l {mem} {file} h room small (inr (r, w)) =
    rw (put_back_start bl b l r) record {
      mem = b ∷ [];
      file = file;
      holds = record {
        valid = h.valid;
        named = h.named;
        memory = only-MemoryHolds b start room;
        on_disk = h.on_disk;
        small_mem = (small, tt);
        small_file = h.small_file;
      };
      order = ap (λ t. b ∷ (t ++ file)) (sym none_left);
      slots_used = omega arith;
    }
  where
    start : MemoryHolds l bl.alloc 0 0 mem
    start = (rw (r, w) at h.memory)

    none_left : mem ≡ []
    none_left = nil_of_length mem (omega (arith, length-MemoryHolds start))

-- Putting back into a backlog from whose cache an event was just taken.
unread_taken :
    (os : Os) (bl : Binlog) (b : Bytes) (l : Slots) {mem file : List Bytes} {n : ℕ}
    → Works os
    → Holds bl mem file
    → bl.cache ≡ some l
    → 0 < bl.alloc
    → bl.write_index ≤ n
    → n < 2 ^ 30
    → 0 < length b
    → length b < 2 ^ 31
    → bl.file_read_pos ≡ 0
    → length (mem ++ file) < u32
    → (0 < bl.read_index) ⊎ (bl.read_index ≡ 0) × (bl.write_index ≡ 0)
    → (mem ++ file ≡ [] → has_room bl b ≡ true)
    → ((unread os bl b).1 ≡ ok) × Queued (unread os bl b).0 (b ∷ (mem ++ file)) (n + 1)
unread_taken os bl b l {mem} {file} {n} w h e alloc used few pos small start_pos countable start
      room =
    elim (nil-or-cons (mem ++ file)) [
      | inl nothing ↦
          (let (ret, q') = add-fifo os bl b w queued small few in
            rw (unread-add os bl b pos (count ∙ ap (λ q. length q % u32) nothing))
              ((rw (room nothing) at ret), rw nothing (rw (room nothing, nothing) at q')))
      | inr (x, xs, more) ↦
          rw
            (unread-mem_unread os bl b pos (omega (arith, count, ap (length {A = Bytes}) more))
                start_pos
              ∙ mem_unread_lem os bl b w e h.valid start)
            (refl, Queued-mono (put_back-Queued bl b l at_array alloc small start) (omega arith))
    ]
  where
    at_array : Holds (record bl { cache = some l }) mem file
    at_array = record {
      valid = h.valid;
      named = h.named;
      memory = (rw e at h.memory);
      on_disk = h.on_disk;
      small_mem = h.small_mem;
      small_file = h.small_file;
    }

    queued : Queued bl (mem ++ file) n
    queued = record { mem = mem; file = file; holds = h; order = refl; slots_used = used }

    count : num_entries bl ≡ length (mem ++ file) % u32
    count = num_entries-length bl queued

module _ (os : Os) (bl : Binlog) (b : Bytes) {mem file : List Bytes} {n : ℕ} (w : Works os)
    (h : Holds bl (b ∷ mem) file) (used : bl.write_index ≤ n) (few : n < 2 ^ 30)
    (pos : 0 < length b) (unread_file : bl.file_read_pos ≡ 0)
    (countable : length (mem ++ file) < u32) where
  -- What was read from the cache is put back with other bytes, `c`, in its place.
  pub unread-read_as :
      (c : Bytes)
      → length c ≡ length b
      → (mem ++ file ≡ [] → has_room (read os bl).0 c ≡ true)
      → ((unread os (read os bl).0 c).1 ≡ ok)
        × Queued (unread os (read os bl).0 c).0 (c ∷ (mem ++ file)) (n + 1)
  unread-read_as c same room =
      let (l, avail, r, wi, e, m, le, start) = mem_read_next bl b mem h.memory (omega arith) in
      rw (read-memory os bl h.valid e) (
        unread_taken os
          (record bl { mem_avail = avail; cache = some l; read_index = r; write_index = wi }) c l w
          (record {
            valid = h.valid;
            named = h.named;
            memory = m;
            on_disk = h.on_disk;
            small_mem = h.small_mem.1;
            small_file = h.small_file;
          })
          refl (omega (arith, h.memory.read_in, h.memory.write_in, length-MemoryHolds h.memory))
          (omega arith) few (omega (arith, same)) (omega (arith, same, h.small_mem.0)) unread_file
          countable start (rw (read-memory os bl h.valid e) at room))

  -- On a system whose calls succeed, an event that is not empty, was read from the cache and is put back
  -- is again the first of the queue, with the others behind it. Nothing was read from the file yet, fewer
  -- than 2^30 slots are used, and fewer than 2^32 events are behind it; if it was the only event in the
  -- cache and in the file, room for it is needed, since it is then added anew.
  pub unread-read :
      (mem ++ file ≡ [] → has_room (read os bl).0 b ≡ true)
      → ((unread os (read os bl).0 b).1 ≡ ok)
        × Queued (unread os (read os bl).0 b).0 (b ∷ (mem ++ file)) (n + 1)
  unread-read room = unread-read_as b refl room

-- ===== src/Binlog/FlushLaws.antt =====
-- What flushing keeps, and what it does not.
use monitor_merlin.Base.{
  ℕ, suc, ◌+◌, ◌-◌, ◌^◌, ◌≤◌, ◌<◌, ◌≡◌, refl, ◌∙◌, ap, none, some, List, [], ◌∷◌, ◌++◌,
  append_assoc, append-nil, arith, length, get_or, length-append, Option-cases, inl, inr,
}
use monitor_merlin.Binlog.{Bytes, Status, ok, Binlog, Os, add32, array, le32}
use monitor_merlin.Binlog.File.{file_add}
use monitor_merlin.Binlog.Flush.{flush_loop, flush, reset_memory}
use monitor_merlin.Binlog.Inv.{Works, MemoryHolds, Holds, AllSmall-append, frames, length-le32}
use monitor_merlin.Binlog.FileLaws.{with_entry, file_add_fits, file_add_full, OnDisk-with_entry}
use monitor_merlin.Binlog.MemoryLaws.{Slots, first_slot, length-MemoryHolds}

-- The read index moves on, and the slot stays as it is.
advance-MemoryHolds :
    {l : Slots} {alloc r w : ℕ} {b : Bytes} {mem : List Bytes}
    → MemoryHolds l alloc r w (b ∷ mem)
    → w < 2 ^ 30
    → MemoryHolds l alloc (add32 r 1) w mem
advance-MemoryHolds {l} {alloc} {r} {w} {b} {mem} m small =
    let next : add32 r 1 ≡ r + 1 = omega (arith, m.read_in) in
    let count : w - (r + 1) ≡ w - r - 1 = omega arith in
    record {
      room = m.room;
      read_in = omega (arith, first_slot m);
      write_in = m.write_in;
      entries = rw (next, count) (first_slot m).2;
    }

-- the backlog after one round of the loop, where the entry fits
abbrev moved : Binlog → Bytes → Binlog
moved bl b = with_entry (record bl { read_index = add32 bl.read_index 1 }) b

flush_step :
    (os : Os) (bl : Binlog) (b : Bytes) (n : ℕ) {bl' : Binlog}
    → get_or (array bl.cache) bl.read_index none ≡ some b
    → (file_add os (record bl { read_index = add32 bl.read_index 1 }) b).0 ≡ bl'
    → flush_loop (suc n) os bl ≡ flush_loop n os bl'
unfolding flush_loop
flush_step os bl b n e f = rw (e, flush_loop) (ap (flush_loop n os) f)

moved-Holds :
    (bl : Binlog) (b : Bytes) {mem file : List Bytes}
    → Holds bl (b ∷ mem) file
    → bl.write_index < 2 ^ 30
    → Holds (moved bl b) mem (file ++ b ∷ [])
moved-Holds bl b {mem} {file} h few = record {
  valid = h.valid;
  named = h.named;
  memory = advance-MemoryHolds h.memory few;
  on_disk = OnDisk-with_entry (record bl { read_index = add32 bl.read_index 1 }) b file h.on_disk;
  small_mem = h.small_mem.1;
  small_file = AllSmall-append file (b ∷ []) h.small_file (h.small_mem.0, tt);
}

flush_all :
    (os : Os) (bl : Binlog) (mem file : List Bytes)
    → Works os
    → Holds bl mem file
    → bl.write_index < 2 ^ 30
    → bl.file_size + length (frames mem) ≤ bl.max_file_size
    → (bl' : Binlog) × (flush_loop (length mem) os bl ≡ some bl') × Holds bl' [] (file ++ mem)
flush_all os bl [] file w h few fits = (bl, unfold flush_loop in refl, rw (append-nil file) h)
flush_all os bl (b ∷ mem) file w h few fits =
    let (bl', e, h') =
      flush_all os (moved bl b) mem (file ++ b ∷ []) w (moved-Holds bl b h few) few
        (omega (arith, sizes)) in
    (
      bl',
      flush_step os bl b (length mem) (first_slot h.memory).0 (
            ap (λ (t : Binlog × Status). t.0)
              (file_add_fits os (record bl { read_index = add32 bl.read_index 1 }) b file w h.valid
                h.named h.on_disk (omega (arith, sizes))))
          ∙ e,
      rw (← append_assoc file (b ∷ []) mem) h',
    )
  where
    sizes : bl.file_size + (4 + length b + length (frames mem)) ≤ bl.max_file_size
    sizes = omega (
      arith,
      length-append (le32 (length b)) (b ++ frames mem),
      length-append b (frames mem),
      length-le32 (length b),
    )

emptied-Holds :
    (bl : Binlog) {file : List Bytes}
    → Holds bl [] file
    → Holds (reset_memory (record bl { cache = none })) [] file
emptied-Holds bl h = record {
  valid = h.valid;
  named = h.named;
  memory = record { room = refl; read_in = omega arith; write_in = omega arith; entries = refl };
  on_disk = h.on_disk;
  small_mem = tt;
  small_file = h.small_file;
}

no_rounds : (os : Os) (bl bl' : Binlog) → flush_loop 0 os bl ≡ some bl' → bl' ≡ bl
unfolding flush_loop
no_rounds os bl bl' e = cc e

flush-none :
    (os : Os) (bl : Binlog)
    → bl.cache ≡ none
    → flush os bl ≡ (reset_memory (record bl { cache = none }), ok)
unfolding flush
flush-none os bl e = ground arith

pub flush-some :
    (os : Os) (bl : Binlog) {l : Slots} {bl' : Binlog}
    → bl.cache ≡ some l
    → flush_loop (bl.write_index - bl.read_index) os bl ≡ some bl'
    → flush os bl ≡ (reset_memory (record bl' { cache = none }), ok)
unfolding flush
flush-some os bl e loop = rw (e, flush) (rw loop refl)

-- The result of a flush from that of its loop.
flush_of_loop :
    (os : Os) (bl bl' : Binlog) {mem file q : List Bytes}
    → Holds bl mem file
    → flush_loop (length mem) os bl ≡ some bl'
    → Holds bl' [] q
    → ((flush os bl).1 ≡ ok) × Holds (flush os bl).0 [] q
flush_of_loop os bl bl' {mem} h loop h' = elim (Option-cases bl.cache) [
  | inl e ↦
      (let nothing : length mem ≡ 0 =
          ground (arith, length-MemoryHolds h.memory, h.memory.room, h.memory.write_in) in
        let same : bl' ≡ bl = no_rounds os bl bl' (rw nothing at loop) in
        rw (flush-none os bl e) (refl, emptied-Holds bl (rw same at h')))
  | inr (l, e) ↦
      rw (flush-some os bl {bl' = bl'} e (rw (← length-MemoryHolds h.memory) loop))
        (refl, emptied-Holds bl' h')
]

-- On a system whose calls succeed, with room in the file and fewer than 2^30 slots used: the events
-- of the cache go behind those of the file, though they are the older ones: where both
-- held events, a flush turns the order `mem ++ file` of the queue into `file ++ mem`.
pub flush-rotates :
    (os : Os) (bl : Binlog) {mem file : List Bytes}
    → Works os
    → Holds bl mem file
    → bl.write_index < 2 ^ 30
    → bl.file_size + length (frames mem) ≤ bl.max_file_size
    → ((flush os bl).1 ≡ ok) × Holds (flush os bl).0 [] (file ++ mem)
flush-rotates os bl {mem} {file} w h few fits =
    let (bl', loop, h') = flush_all os bl mem file w h few fits in flush_of_loop os bl bl' h loop h'

abbrev pub TooLarge : Binlog → List Bytes → Type 0
TooLarge bl [] = Unit
TooLarge bl (b ∷ mem) = (bl.max_file_size < bl.file_size + length b) × TooLarge bl mem

TooLarge-passed :
    (bl bl' : Binlog) (mem : List Bytes)
    → bl'.max_file_size ≡ bl.max_file_size
    → bl'.file_size ≡ bl.file_size
    → TooLarge bl mem
    → TooLarge bl' mem
TooLarge-passed bl bl' [] e f t = tt
TooLarge-passed bl bl' (b ∷ mem) e f t = (omega (arith, t.0), TooLarge-passed bl bl' mem e f t.1)

drop_all_entries :
    (os : Os) (bl : Binlog) (mem file : List Bytes)
    → Holds bl mem file
    → bl.write_index < 2 ^ 30
    → TooLarge bl mem
    → (bl' : Binlog) × (flush_loop (length mem) os bl ≡ some bl') × Holds bl' [] file
drop_all_entries os bl [] file h few large = (bl, unfold flush_loop in refl, h)
drop_all_entries os bl (b ∷ mem) file h few large =
    let passed : Binlog = record bl { read_index = add32 bl.read_index 1 } in
    let (bl', e, h') =
      drop_all_entries os passed mem file
        (record {
          valid = h.valid;
          named = h.named;
          memory = advance-MemoryHolds h.memory few;
          on_disk = h.on_disk;
          small_mem = h.small_mem.1;
          small_file = h.small_file;
        })
        few (TooLarge-passed bl passed mem refl refl large.1) in
    (
      bl',
      flush_step os bl b (length mem) (first_slot h.memory).0
            (ap (λ (t : Binlog × Status). t.0) (file_add_full os passed b large.0))
          ∙ e,
      h',
    )

-- With fewer than 2^30 slots used: a flush ignores the answer of `binlog_file_add`: events of the cache for which the file has no
-- room are gone afterwards, and the flush still returns 0.
pub flush-loses :
    (os : Os) (bl : Binlog) {mem file : List Bytes}
    → Holds bl mem file
    → bl.write_index < 2 ^ 30
    → TooLarge bl mem
    → ((flush os bl).1 ≡ ok) × Holds (flush os bl).0 [] file
flush-loses os bl {mem} {file} h few large =
    let (bl', loop, h') = drop_all_entries os bl mem file h few large in
    flush_of_loop os bl bl' h loop h'

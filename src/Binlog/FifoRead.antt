-- ===== src/Binlog/FifoRead.antt =====
-- Reading from the backlog reads the head of its queue: `binlog_read`.
use monitor_merlin.Base.{
  ℕ, ◌^◌, ◌<◌, ◌≡◌, refl, ◌∙◌, true, Option, none, some, List, [], ◌∷◌, ◌++◌, arith, Option-cases,
  inl, inr,
}
use monitor_merlin.Binlog.{Bytes, Status, ok, empty, Binlog, Os}
use monitor_merlin.Binlog.File.{file_read}
use monitor_merlin.Binlog.Memory.{mem_read}
use monitor_merlin.Binlog.Log.{read}
use monitor_merlin.Binlog.Inv.{Works, OnDisk, Holds}
use monitor_merlin.Binlog.FileLaws.{file_read_empty, file_read_next, OnDisk-past_entry}
use monitor_merlin.Binlog.MemoryLaws.{mem_read_empty, mem_read_next, reset-MemoryHolds}
use monitor_merlin.Binlog.Fifo.{Queued, Queued-mono}

-- The answer to a read of the queue, and what is left of it.
abbrev pub first : List Bytes → Status × Option Bytes × List Bytes
first [] = (empty, none, [])
first (b ∷ q) = (ok, some b, q)

pub read-memory :
    (os : Os) (bl : Binlog) {bl' : Binlog} {b : Bytes}
    → bl.is_valid ≡ true
    → mem_read bl ≡ (bl', ok, some b)
    → read os bl ≡ (bl', ok, some b)
unfolding read
read-memory os bl v e = ground arith

pub read-file :
    (os : Os) (bl : Binlog) {bl' : Binlog}
    → bl.is_valid ≡ true
    → mem_read bl ≡ (bl', empty, none)
    → read os bl ≡ file_read os bl'
unfolding read
read-file os bl v e = ground arith

abbrev ReadsFirst : Os → Binlog → List Bytes → Type 0
ReadsFirst os bl q =
    ((read os bl).1 ≡ (first q).0)
    × ((read os bl).2 ≡ (first q).1)
    × Queued (read os bl).0 (first q).2 bl.write_index

read_by_cases :
    (os : Os) (bl : Binlog) (mem file : List Bytes)
    → Works os
    → Holds bl mem file
    → bl.write_index < 2 ^ 30
    → ReadsFirst os bl (mem ++ file)
read_by_cases os bl (b ∷ mem) file w h room =
    let (l, avail, i, j, e, m, le, start) = mem_read_next bl b mem h.memory room in
    rw (read-memory os bl h.valid e) (
      refl,
      refl,
      record {
        mem = mem;
        file = file;
        holds = record {
          valid = h.valid;
          named = h.named;
          memory = m;
          on_disk = h.on_disk;
          small_mem = h.small_mem.1;
          small_file = h.small_file;
        };
        order = refl;
        slots_used = omega arith;
      },
    )
read_by_cases os bl [] [] w h room =
    rw
      (read-file os bl h.valid (mem_read_empty bl h.memory)
        ∙ file_read_empty os (record bl { read_index = 0; write_index = 0 }) h.named h.on_disk)
      (
        refl,
        refl,
        record {
          mem = [];
          file = [];
          holds = record {
            valid = h.valid;
            named = h.named;
            memory = reset-MemoryHolds h.memory;
            on_disk = (refl, refl, refl, refl, refl, refl);
            small_mem = tt;
            small_file = tt;
          };
          order = refl;
          slots_used = omega arith;
        },
      )
read_by_cases os bl [] (b ∷ file) w h room = elim (Option-cases bl.fd) [
  | inl e ↦ absurd (cc (rw e at h.on_disk).5)
  | inr (f, e) ↦
      (let d : OnDisk bl (some f) (b ∷ file) = rw e at h.on_disk in
        rw
          (read-file os bl h.valid (mem_read_empty bl h.memory)
            ∙ file_read_next os (record bl { read_index = 0; write_index = 0 }) b file w
                h.small_file.0 e d)
          (
            refl,
            refl,
            record {
              mem = [];
              file = file;
              holds = record {
                valid = h.valid;
                named = h.named;
                memory = reset-MemoryHolds h.memory;
                on_disk =
                    OnDisk-past_entry (record bl { read_index = 0; write_index = 0 }) f b file d;
                small_mem = tt;
                small_file = h.small_file.1;
              };
              order = refl;
              slots_used = omega arith;
            },
          ))
]

-- On a system whose calls succeed, with fewer than 2^30 slots used: a read answers with the first event of the queue and leaves the rest; of an empty queue it
-- answers BINLOG_EMPTY, with no event.
pub read-fifo :
    (os : Os) (bl : Binlog) {q : List Bytes} {n : ℕ}
    → Works os
    → Queued bl q n
    → n < 2 ^ 30
    → ((read os bl).1 ≡ (first q).0)
      × ((read os bl).2 ≡ (first q).1)
      × Queued (read os bl).0 (first q).2 n
read-fifo os bl w h room =
    let r = read_by_cases os bl h.mem h.file w h.holds (omega (arith, h.slots_used)) in
    rw (← h.order) (r.0, r.1, Queued-mono r.2 h.slots_used)

-- ===== src/Binlog/Counts.antt =====
-- The sizes and counts that a backlog keeps.
use monitor_merlin.Base.{
  ℕ, ◌+◌, ◌-◌, ◌%◌, ◌≤◌, ◌<◌, ◌≡◌, ap, List, [], ◌∷◌, ◌++◌, arith, length, length-append,
  length-drop, not, ◌==◌, ltb, if◌then◌else◌, ◌&&◌,
}
use monitor_merlin.Binlog.{Bytes, Status, ok, Binlog, Os, u32, content, le32}
use monitor_merlin.Binlog.File.{file_add, safe_write, open_file, add_opened}
use monitor_merlin.Binlog.Memory.{mem_add}
use monitor_merlin.Binlog.Log.{is_none, add, num_entries}
use monitor_merlin.Binlog.Inv.{InMemory, frames, OnDisk-Unread, Unread, length-le32}
use monitor_merlin.Binlog.MemoryLaws.{length-MemoryHolds}
use monitor_merlin.Binlog.Fifo.{Queued}

pub length-frames_pos : (b : Bytes) (file : List Bytes) → 0 < length (frames (b ∷ file))
length-frames_pos b file =
    omega (arith, length-append (le32 (length b)) (b ++ frames file), length-le32 (length b))

file_count :
    (bl : Binlog) (file : List Bytes)
    → Unread bl file
    → (if not (bl.file_size == 0) && ltb bl.file_read_pos bl.file_size then bl.file_entries else 0)
      ≡ length file % u32
file_count bl [] u = ground (
  arith,
  u.length_bytes,
  ap (length {A = ℕ}) u.rest,
  length-drop bl.file_read_pos (content bl.disk),
)
file_count bl (b ∷ file) u = ground (
  arith,
  u.length_bytes,
  ap (length {A = ℕ}) u.rest,
  u.counted,
  length-drop bl.file_read_pos (content bl.disk),
  length-frames_pos b file,
)

memory_count :
    (bl : Binlog) (mem : List Bytes)
    → InMemory bl mem
    → (if not (is_none bl.cache) && ltb bl.read_index bl.write_index
        then bl.write_index - bl.read_index
        else 0)
      ≡ length mem
memory_count bl mem m = ground (arith, length-MemoryHolds m, m.room)

-- `binlog_num_entries` is the number of events in the queue, modulo the width of the counter.
pub num_entries-length :
    (bl : Binlog) {q : List Bytes} {n : ℕ} → Queued bl q n → num_entries bl ≡ length q % u32
unfolding num_entries
num_entries-length bl h =
    rw
      (
        file_count bl h.file (OnDisk-Unread bl h.file h.holds.on_disk),
        memory_count bl h.mem h.holds.memory,
        ← h.order,
        length-append h.mem h.file,
      )
      (omega arith)

safe_write_sizes :
    (os : Os) (bl : Binlog) (buf : Bytes)
    → ((safe_write os bl buf).0.file_size ≡ bl.file_size)
      × ((safe_write os bl buf).0.max_file_size ≡ bl.max_file_size)
unfolding safe_write
safe_write_sizes os bl buf = ground arith

open_file_sizes :
    (os : Os) (bl : Binlog)
    → ((open_file os bl).0.file_size ≤ bl.file_size)
      × ((open_file os bl).0.max_file_size ≡ bl.max_file_size)
unfolding open_file
open_file_sizes os bl = ground arith

-- the file's size counter after the two writes, whatever they answer
add_opened_sizes :
    (os : Os) (bl : Binlog) (buf : Bytes) (ret : Status)
    → ((add_opened os bl buf ret).0.file_size ≤ bl.file_size + (length buf + 4))
      × ((add_opened os bl buf ret).0.max_file_size ≡ bl.max_file_size)
unfolding add_opened
add_opened_sizes os bl buf ok = ground (
  arith,
  safe_write_sizes os bl (le32 (length buf)),
  safe_write_sizes os (safe_write os bl (le32 (length buf))).0 buf,
)
add_opened_sizes os bl buf ret = ground arith

file_add_size :
    (os : Os) (bl : Binlog) (buf : Bytes)
    → bl.file_size ≤ bl.max_file_size + 4
    → (file_add os bl buf).0.file_size ≤ (file_add os bl buf).0.max_file_size + 4
unfolding file_add
file_add_size os bl buf h =
    ground (
      arith,
      open_file_sizes os bl,
      add_opened_sizes os (open_file os bl).0 buf (open_file os bl).1,
    )

mem_add_sizes :
    (os : Os) (bl : Binlog) (buf : Bytes)
    → ((mem_add os bl buf).0.file_size ≡ bl.file_size)
      × ((mem_add os bl buf).0.max_file_size ≡ bl.max_file_size)
unfolding mem_add
mem_add_sizes os bl buf = ground arith

-- Whatever the operating system answers, the counted size of the file passes the limit by at most
-- the four bytes of one length, which the test for room leaves out.
pub file_size-add-le :
    (os : Os) (bl : Binlog) (buf : Bytes)
    → bl.file_size ≤ bl.max_file_size + 4
    → (add os bl buf).0.file_size ≤ (add os bl buf).0.max_file_size + 4
unfolding add
file_size-add-le os bl buf h = ground (arith, mem_add_sizes os bl buf, file_add_size os bl buf h)

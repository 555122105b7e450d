-- ===== src/Binlog/Misplaced.antt =====
-- Putting an event back into the file of the backlog: `binlog_unread`.
use monitor_merlin.Base.{
  ◌+◌, ◌-◌, ◌≤◌, ◌<◌, ◌≡◌, ◌≢◌, refl, ◌∙◌, some, List, [], ◌∷◌, arith, length, Option-cases, inl,
  inr,
}
use monitor_merlin.Binlog.{Bytes, Binlog, Os, u32}
use monitor_merlin.Binlog.File.{file_unread}
use monitor_merlin.Binlog.Memory.{mem_unread, put_back}
use monitor_merlin.Binlog.Log.{read, unread, num_entries}
use monitor_merlin.Binlog.Inv.{Works, OnDisk, Holds}
use monitor_merlin.Binlog.FileLaws.{past_entry, file_read_next, OnDisk-past_entry}
use monitor_merlin.Binlog.MemoryLaws.{mem_read_empty, reset-MemoryHolds}
use monitor_merlin.Binlog.Fifo.{Queued}
use monitor_merlin.Binlog.FifoRead.{read-file}
use monitor_merlin.Binlog.Counts.{num_entries-length}

mem_unread_read_pos :
    (os : Os) (bl : Binlog) (b : Bytes) → (mem_unread os bl b).0.file_read_pos ≡ bl.file_read_pos
unfolding mem_unread put_back
mem_unread_read_pos os bl b = ground arith

unread_steps_back :
    (os : Os) (bl : Binlog) (b : Bytes)
    → 0 < length b
    → num_entries bl ≢ 0
    → length b ≤ bl.file_read_pos
    → (unread os bl b).0.file_read_pos ≡ bl.file_read_pos - length b
unfolding unread file_unread
unread_steps_back os bl b pos ne le =
    ground (arith, mem_unread_read_pos os (file_unread bl (length b)) b)

-- On a system whose calls succeed, an event that is not empty and was read from the file while the cache is
-- empty, with others behind it, fewer than 2^32, is not put back where it was: the
-- read position ends four bytes further than before the read, past the event's length, so that the
-- next read of the file takes the first bytes of the event for a length.
pub unread_file_misplaced :
    (os : Os) (bl : Binlog) (b c : Bytes) {file : List Bytes}
    → Works os
    → Holds bl [] (b ∷ c ∷ file)
    → 0 < length b
    → length (c ∷ file) < u32
    → (unread os (read os bl).0 b).0.file_read_pos ≡ bl.file_read_pos + 4
unread_file_misplaced os bl b c {file} w h pos countable = elim (Option-cases bl.fd) [
  | inl e ↦ absurd (cc (rw e at h.on_disk).5)
  | inr (f, e) ↦
      (let bl0 : Binlog = record bl { read_index = 0; write_index = 0 } in
        let d : OnDisk bl (some f) (b ∷ c ∷ file) = rw e at h.on_disk in
        let left : Queued (past_entry bl0 f b) (c ∷ file) 0 = record {
          mem = [];
          file = c ∷ file;
          holds = record {
            valid = h.valid;
            named = h.named;
            memory = reset-MemoryHolds h.memory;
            on_disk = OnDisk-past_entry bl0 f b (c ∷ file) d;
            small_mem = tt;
            small_file = h.small_file.1;
          };
          order = refl;
          slots_used = omega arith;
        } in
        rw
          (read-file os bl h.valid (mem_read_empty bl h.memory)
            ∙ file_read_next os bl0 b (c ∷ file) w h.small_file.0 e d)
          rw
          (unread_steps_back os (past_entry bl0 f b) b pos
            (omega (arith, num_entries-length (past_entry bl0 f b) left)) (omega arith))
          (omega arith))
]

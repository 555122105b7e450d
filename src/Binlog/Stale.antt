-- ===== src/Binlog/Stale.antt =====
-- What wiping leaves behind.
use monitor_merlin.Base.{
  ℕ, ◌+◌, ◌^◌, ◌≤◌, ◌<◌, ◌≡◌, ◌≢◌, refl, ap, true, false, none, some, List, [], ◌∷◌, ◌++◌,
  append_assoc, arith, length, length-append, length-drop,
}
use monitor_merlin.Binlog.{Bytes, ok, Binlog, Os, content, le32}
use monitor_merlin.Binlog.File.{file_add, file_read}
use monitor_merlin.Binlog.Memory.{mem_read}
use monitor_merlin.Binlog.Log.{is_none, add, read}
use monitor_merlin.Binlog.Flush.{wipe, cleared}
use monitor_merlin.Binlog.Inv.{Works, OnDisk-Unread, Holds, frames, length-le32}
use monitor_merlin.Binlog.FileLaws.{
  opened, with_entry, open_file_closed, add_opened_lem, read_entry_lem,
}
use monitor_merlin.Binlog.Fifo.{Queued, add-file}
use monitor_merlin.Binlog.FifoRead.{read-file}

-- Wiped with BINLOG_UNLINK, the file stays if it is open with something unread.
wipe_keeps_file :
    (os : Os) (bl : Binlog) → bl.file_read_pos ≢ bl.file_write_pos → wipe os bl true ≡ cleared bl
unfolding wipe
wipe_keeps_file os bl ne = ground arith

wipe_removes_file :
    (os : Os) (bl : Binlog)
    → bl.file_read_pos ≡ bl.file_write_pos
    → is_none bl.path ≡ false
    → wipe os bl true ≡ cleared (record bl { disk = none })
unfolding wipe
wipe_removes_file os bl e named = ground arith

-- Where all that was in the file has been read, wiping with BINLOG_UNLINK leaves an empty backlog
-- that is ready for use, whatever was in the cache.
pub wipe-empties :
    (os : Os) (bl : Binlog) {mem : List Bytes} → Holds bl mem [] → Queued (wipe os bl true) [] 0
wipe-empties os bl h =
    let u = OnDisk-Unread bl [] h.on_disk in
    rw
      (wipe_removes_file os bl
        (omega (
          arith,
          u.length_bytes,
          u.written,
          u.read_le,
          ap (length {A = ℕ}) u.rest,
          length-drop bl.file_read_pos (content bl.disk),
        ))
        h.named)
      record {
        mem = [];
        file = [];
        holds = record {
          valid = refl;
          named = h.named;
          memory = record {
            room = refl;
            read_in = omega arith;
            write_in = omega arith;
            entries = refl;
          };
          on_disk = (refl, refl, refl, refl, refl, refl);
          small_mem = tt;
          small_file = tt;
        };
        order = refl;
        slots_used = omega arith;
      }

-- a wiped backlog whose file was left in place, after an event went to that file
abbrev reused : Binlog → Bytes → Binlog
reused bl x = with_entry (opened (cleared bl)) x

add-reused :
    (os : Os) (bl : Binlog) (x : Bytes)
    → Works os
    → is_none bl.path ≡ false
    → bl.max_mem_size ≤ length x
    → length x < 2 ^ 31
    → length x ≤ bl.max_file_size
    → add os (cleared bl) x ≡ (reused bl x, ok)
unfolding file_add
add-reused os bl x w named large small fits = rw (add-file os (cleared bl) x refl (ground arith)) (
    ground (
      arith,
      open_file_closed os (cleared bl) w refl named refl,
      add_opened_lem os (opened (cleared bl)) x w refl refl,
    ))

read_reused :
    (os : Os) (bl : Binlog) (x b r : Bytes)
    → Works os
    → length b < 2 ^ 31
    → content bl.disk ≡ le32 (length b) ++ (b ++ r)
    → (read os (reused bl x)).2 ≡ some b
unfolding file_read mem_read
read_reused os bl x b r w small stale = rw (read-file os (reused bl x) refl refl) (
    ground (
      arith,
      read_entry_lem os (reused bl x) b (r ++ (le32 (length x) ++ x)) w small rest
          (record { pos = length (content bl.disk ++ le32 (length x)) + length x; append = true }),
    ))
  where
    rest :
        (content bl.disk ++ le32 (length x)) ++ x
        ≡ le32 (length b) ++ (b ++ (r ++ (le32 (length x) ++ x)))
    rest = rw stale (simp append_assoc)

-- An event of before the wipe is handed out after it: where the file held an unread event `b` at its
-- start, wiping with BINLOG_UNLINK leaves the file, and once a later event `x` has gone to the file,
-- the next read answers with `b`.
pub wipe_stale :
    (os : Os) (bl : Binlog) (b x : Bytes) {mem file : List Bytes}
    → Works os
    → Holds bl mem (b ∷ file)
    → bl.file_read_pos ≡ 0
    → bl.max_mem_size ≤ length x
    → length x < 2 ^ 31
    → length x ≤ bl.max_file_size
    → (read os (add os (wipe os bl true) x).0).2 ≡ some b
wipe_stale os bl b x {mem} {file} w h start large small fits =
    let u = OnDisk-Unread bl (b ∷ file) h.on_disk in
    let behind : bl.file_read_pos ≢ bl.file_write_pos = omega (
      arith,
      u.length_bytes,
      u.written,
      ap (length {A = ℕ}) u.rest,
      length-drop bl.file_read_pos (content bl.disk),
      length-append (le32 (length b)) (b ++ frames file),
      length-le32 (length b),
    ) in
    rw (wipe_keeps_file os bl behind) rw (add-reused os bl x w h.named large small fits)
      (read_reused os bl x b (frames file) w h.small_file.0 (rw start at u.rest))

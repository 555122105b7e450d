-- ===== src/Binlog/Flush.antt =====
-- Flushing and wiping in shared/binlog.c.
use monitor_merlin.Base.{
  ℕ, zero, suc, ◌-◌, Bool, true, false, not, ◌||◌, Option, none, some, ◌==◌, if◌then◌else◌, get_or,
}
use monitor_merlin.Binlog.{Bytes, Status, ok, fault, Binlog, Os, add32, array}
use monitor_merlin.Binlog.File.{unlink, close, file_add}

-- One round of the loop: the entry goes to the file, whatever `binlog_file_add` answers.
unfoldable pub flush_entry : Os → Binlog → Option Bytes → Option Binlog
flush_entry os bl none = none
flush_entry os bl (some e) =
    some (file_add os (record bl { read_index = add32 bl.read_index 1 }) e).0

-- The loop over `n` entries from `read_index` on. `none` is the access through a NULL entry.
unfoldable pub flush_loop : ℕ → Os → Binlog → Option Binlog
unfolding flush_entry
flush_loop zero os bl = some bl
flush_loop (suc n) os bl = elim (flush_entry os bl (get_or (array bl.cache) bl.read_index none)) [
  | none ↦ none
  | some bl' ↦ flush_loop n os bl'
]

abbrev pub reset_memory : Binlog → Binlog
reset_memory bl = record bl { mem_size = 0; write_index = 0; read_index = 0; alloc = 0 }

unfoldable pub flush : Os → Binlog → Binlog × Status
unfolding flush_loop
flush os bl = elim bl.cache [
  | none ↦ (reset_memory bl, ok)
  | some _ ↦ elim (flush_loop (bl.write_index - bl.read_index) os bl) [
    | none ↦ (bl, fault)
    | some bl' ↦ (reset_memory (record bl' { cache = none }), ok)
  ]
]

-- The memory of the object is cleared; its limits, its path and the file on disk stay.
abbrev pub cleared : Binlog → Binlog
cleared bl = record {
  cache = none;
  write_index = 0;
  read_index = 0;
  file_entries = 0;
  alloc = 0;
  mem_size = 0;
  max_mem_size = bl.max_mem_size;
  mem_avail = 0;
  max_file_size = bl.max_file_size;
  file_size = 0;
  file_read_pos = 0;
  file_write_pos = 0;
  is_valid = true;
  should_warn_if_full = false;
  path = bl.path;
  fd = none;
  disk = bl.disk;
}

-- `binlog_wipe`; `unlink_flag` is set where the flags hold BINLOG_UNLINK.
unfoldable pub wipe : Os → Binlog → Bool → Binlog
unfolding close flush
wipe os bl unlink_flag =
    let flushed = if unlink_flag then bl else (flush os bl).0 in
    let closed = (close os flushed).0 in
    cleared (
      if not unlink_flag || (closed.file_read_pos == closed.file_write_pos)
      then unlink closed
      else closed)

-- `binlog_destroy`: what is left is the file.
unfoldable pub destroy : Os → Binlog → Bool → Option Bytes
destroy os bl unlinks = (wipe os bl unlinks).disk

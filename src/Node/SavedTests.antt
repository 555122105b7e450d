-- ===== src/Node/SavedTests.antt =====
-- A backlog that is saved and read again, with one event in memory and one in the file.
use monitor_merlin.Base.{true, none, some, [], ◌∷◌}
use monitor_merlin.Binlog.{Binlog}
use monitor_merlin.Binlog.Inv.{frames}
use monitor_merlin.Binlog.Save.{Dir, absent, Files}
use monitor_merlin.Node.Tests.{event}

abbrev spilled : Binlog
spilled = record {
  cache = some (some (event 1) ∷ none ∷ []);
  write_index = 1;
  read_index = 0;
  file_entries = 1;
  alloc = 2;
  mem_size = 144;
  max_mem_size = 200;
  mem_avail = 0;
  max_file_size = 1000;
  file_size = 132;
  file_read_pos = 0;
  file_write_pos = 132;
  is_valid = true;
  should_warn_if_full = true;
  path = some (1 ∷ []);
  fd = some (record { pos = 132; append = true });
  disk = some (frames (event 2 ∷ []));
}

-- The backlog of the next run.
abbrev empty_log : Binlog
empty_log = record {
  cache = none;
  write_index = 0;
  read_index = 0;
  file_entries = 0;
  alloc = 0;
  mem_size = 0;
  max_mem_size = 200;
  mem_avail = 0;
  max_file_size = 1000;
  file_size = 0;
  file_read_pos = 0;
  file_write_pos = 0;
  is_valid = true;
  should_warn_if_full = true;
  path = some (1 ∷ []);
  fd = none;
  disk = none;
}

abbrev all_good : Files
all_good = record {
  create_ok = true;
  write_ok = true;
  rename_ok = true;
  open_ok = true;
  alloc_ok = true;
  read_ok = true;
}

abbrev nothing_saved : Dir
nothing_saved = record { meta = absent; saved = none }

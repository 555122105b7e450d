-- ===== src/Binlog/Tests.antt =====
-- Runs of the backlog, and its theorems at concrete backlogs.
use monitor_merlin.Base.{
  ◌+◌, ◌≤◌, ◌≡◌, refl, true, none, some, List, [], ◌∷◌, ◌++◌, arith, length-replicate, replicate,
}
use monitor_merlin.Binlog.{Bytes, ok, Binlog, Os, le32, value32}
use monitor_merlin.Binlog.File.{file_add, file_read}
use monitor_merlin.Binlog.Memory.{mem_add, mem_read}
use monitor_merlin.Binlog.Log.{create, add, read, unread, num_entries}
use monitor_merlin.Binlog.Inv.{Works, Holds, frames}
use monitor_merlin.Binlog.Fifo.{Queued}
use monitor_merlin.Binlog.Run.{Call, put, get, run, run-fifo}
use monitor_merlin.Binlog.Counts.{file_size-add-le}
use monitor_merlin.Binlog.Undo.{unread-read}
use monitor_merlin.Binlog.Misplaced.{unread_file_misplaced}

-- A system on which every call succeeds.
abbrev pub good : Os
good = record {
  alloc_ok = λ n. true;
  block = λ n. replicate n 0;
  stale = 0 ∷ 0 ∷ 0 ∷ 0 ∷ [];
  open_ok = true;
  close_ok = true;
  read_ok = λ p. true;
  write = λ p n. some n;
  seek_ok = true;
}

pub Works-good : Works good
Works-good = record {
  alloc = λ n. refl;
  open_file = refl;
  read = λ n. refl;
  write = λ p n. refl;
  block = λ n. length-replicate n 0;
}

abbrev fresh : Binlog
fresh = record {
  cache = none;
  write_index = 0;
  read_index = 0;
  file_entries = 0;
  alloc = 0;
  mem_size = 0;
  max_mem_size = 20;
  mem_avail = 0;
  max_file_size = 64;
  file_size = 0;
  file_read_pos = 0;
  file_write_pos = 0;
  is_valid = true;
  should_warn_if_full = true;
  path = some (1 ∷ []);
  fd = none;
  disk = none;
}

-- two events in the cache
abbrev cached : Binlog
cached = record fresh {
  cache = some (some (1 ∷ 2 ∷ []) ∷ some (3 ∷ []) ∷ none ∷ none ∷ []);
  alloc = 4;
  write_index = 2;
  mem_size = 35;
  mem_avail = 3;
}

abbrev in_file : List Bytes
in_file = (7 ∷ []) ∷ (8 ∷ 9 ∷ []) ∷ []

-- two events in the cache and two in the file
abbrev spread : Binlog
spread = record cached {
  fd = some (record { pos = 11; append = true });
  disk = some (frames in_file);
  file_size = 11;
  file_write_pos = 11;
  file_entries = 2;
}

-- two events in the file
abbrev filed : Binlog
filed = record spread { cache = none; alloc = 0; write_index = 0; mem_size = 0; mem_avail = 0 }

abbrev first_events : List Bytes
first_events = (1 ∷ 2 ∷ []) ∷ (3 ∷ []) ∷ []

Holds-fresh : Holds fresh [] []
Holds-fresh = record {
  valid = refl;
  named = refl;
  memory = record { room = refl; read_in = omega arith; write_in = omega arith; entries = refl };
  on_disk = (refl, refl, refl, refl, refl, refl);
  small_mem = tt;
  small_file = tt;
}

Holds-cached : Holds cached first_events []
Holds-cached = record {
  valid = refl;
  named = refl;
  memory = record { room = refl; read_in = omega arith; write_in = omega arith; entries = refl };
  on_disk = (refl, refl, refl, refl, refl, refl);
  small_mem = omega arith;
  small_file = tt;
}

Holds-spread : Holds spread first_events in_file
unfolding le32
Holds-spread = record {
  valid = refl;
  named = refl;
  memory = record { room = refl; read_in = omega arith; write_in = omega arith; entries = refl };
  on_disk = (refl, refl, refl, omega arith, refl, refl);
  small_mem = omega arith;
  small_file = omega arith;
}

Holds-filed : Holds filed [] in_file
unfolding le32
Holds-filed = record {
  valid = refl;
  named = refl;
  memory = record { room = refl; read_in = omega arith; write_in = omega arith; entries = refl };
  on_disk = (refl, refl, refl, omega arith, refl, refl);
  small_mem = tt;
  small_file = omega arith;
}

Queued-cached : Queued cached first_events 2
Queued-cached = record {
  mem = first_events;
  file = [];
  holds = Holds-cached;
  order = refl;
  slots_used = omega arith;
}

Queued-spread : Queued spread (first_events ++ in_file) 2
Queued-spread = record {
  mem = first_events;
  file = in_file;
  holds = Holds-spread;
  order = refl;
  slots_used = omega arith;
}

-- The third event does not fit into memory and goes to the file; all come back in order.
run_passes_the_file :
    (run good fresh
      (put (1 ∷ 2 ∷ []) ∷ put (3 ∷ []) ∷ put (4 ∷ 5 ∷ 6 ∷ []) ∷ get ∷ get ∷ get ∷ get ∷ [])).1
    ≡ (1 ∷ 2 ∷ []) ∷ (3 ∷ []) ∷ (4 ∷ 5 ∷ 6 ∷ []) ∷ []
unfolding run add read mem_add mem_read file_add file_read le32 value32
run_passes_the_file = refl

create_checks_path : create none 10 20 true none ≡ none
unfolding create
create_checks_path = refl

num_entries-spread : num_entries spread ≡ 4
unfolding num_entries
num_entries-spread = refl

abbrev calls : List Call
calls = get ∷ put (5 ∷ []) ∷ get ∷ get ∷ []

run-fifo_example :
    let (added, got, end) = run good spread calls in
    (q' : List Bytes) × (first_events ++ in_file ++ added ≡ got ++ q') × Queued end q' 6
run-fifo_example =
    run-fifo good spread calls Works-good Queued-spread (omega arith, tt) (omega arith)

file_size-add-le_example :
    (add good filed (1 ∷ [])).0.file_size ≤ (add good filed (1 ∷ [])).0.max_file_size + 4
file_size-add-le_example = file_size-add-le good filed (1 ∷ []) (omega arith)

unread-read_example :
    ((unread good (read good spread).0 (1 ∷ 2 ∷ [])).1 ≡ ok)
    × Queued (unread good (read good spread).0 (1 ∷ 2 ∷ [])).0 (first_events ++ in_file) 3
unread-read_example =
    unread-read good spread (1 ∷ 2 ∷ []) {mem = (3 ∷ []) ∷ []} {file = in_file} {n = 2} Works-good
      Holds-spread (omega arith) (omega arith) (omega arith) refl (omega arith) (λ e. cc e)

unread_file_misplaced_example : (unread good (read good filed).0 (7 ∷ [])).0.file_read_pos ≡ 4
unread_file_misplaced_example =
    unread_file_misplaced good filed (7 ∷ []) (8 ∷ 9 ∷ []) Works-good Holds-filed (omega arith)
      (omega arith)

-- the same backlog with its file full
abbrev full : Binlog
full = record spread { max_file_size = 11 }

abbrev late : Bytes
late = replicate 20 5

-- ===== src/Binlog/Save.antt =====
-- Backlogs that are kept across a restart: `binlog_write_file_metadata`, `binlog_save` and
-- `binlog_get_saved` of shared/binlog.c. `name` is `file_save_path`, which is set just where
-- `file_metadata_path` is: `binlog_create` sets both, and `binlog_wipe` clears them.
use monitor_merlin.Base.{Bool, true, not, ◌||◌, ◌&&◌, Option, none, some, ◌==◌, if◌then◌else◌}
use monitor_merlin.Binlog.{Bytes, Status, ok, error, fault, Binlog, Os}
use monitor_merlin.Binlog.File.{open_file}
use monitor_merlin.Binlog.Log.{is_none, num_entries}
use monitor_merlin.Binlog.Flush.{flush, destroy}

-- The file with the metadata: there is none, it is too short, or it holds the bytes of a backlog.
pub data Meta : Type 0 where
  absent short : Meta
  image : Binlog → Meta

-- The two files that are left for the next start.
pub record Dir : Type 0 where
  pub meta : Meta
  pub saved : Option Bytes

-- What the calls on these files answer. fopen(3) of a NULL name fails.
pub record Files : Type 0 where
  pub create_ok : Bool
  pub write_ok : Bool
  pub rename_ok : Bool
  pub open_ok : Bool
  pub alloc_ok : Bool
  pub read_ok : Bool

-- The part behind `binlog_flush`, whose answer is not looked at.
unfoldable pub metadata : Files → Option Bytes → Binlog × Status → Dir → Binlog × Dir × Status
metadata files name (bl, fault) d = (bl, d, fault)
metadata files name (bl, ret) d =
    if is_none name || not files.create_ok
    then (bl, d, error)
    else (bl, record d { meta = if files.write_ok then image bl else short }, ok)

unfoldable pub write_file_metadata :
    Os → Files → Option Bytes → Binlog → Dir → Binlog × Dir × Status
unfolding metadata
write_file_metadata os files name bl d = metadata files name (flush os bl) d

-- rename(2) of the backlog's file, after the metadata is written.
unfoldable pub renamed : Files → Binlog × Dir × Status → Binlog × Dir × Status
renamed files (bl, d, ok) =
    if is_none bl.path || is_none bl.disk || not files.rename_ok
    then (bl, d, error)
    else (record bl { disk = none }, record d { saved = bl.disk }, ok)
renamed files (bl, d, ret) = (bl, d, ret)

unfoldable pub save : Os → Files → Option Bytes → Binlog → Dir → Binlog × Dir × Status
unfolding write_file_metadata renamed
save os files name bl d =
    if num_entries bl == 0
    then (bl, d, ok)
    else renamed files (write_file_metadata os files name bl d)

-- The answer of `binlog_open`. The saved file is the one of the backlog that is returned.
unfoldable pub reopened : Os → Meta → Binlog × Status → Option Binlog × Dir
reopened os meta (bl, ok) = (some bl, record { meta = absent; saved = none })
reopened os meta (bl, ret) = (none, record { meta = meta; saved = destroy os bl true })

-- The metadata is read, for a saved file with the given bytes.
unfoldable pub read_metadata : Os → Files → Bytes → Meta → Bytes → Option Binlog × Dir
unfolding reopened
read_metadata os files name (image bl) bytes =
    if files.read_ok
    then reopened os (image bl)
        (open_file os (record bl { path = some name; fd = none; disk = some bytes }))
    else (none, record { meta = absent; saved = none })
read_metadata os files name meta bytes = (none, record { meta = absent; saved = none })

unfoldable pub find_saved : Os → Files → Bytes → Meta → Option Bytes → Option Binlog × Dir
unfolding read_metadata
find_saved os files name absent saved = (none, record { meta = absent; saved = saved })
find_saved os files name meta none = (none, record { meta = absent; saved = none })
find_saved os files name meta (some bytes) =
    if files.open_ok && files.alloc_ok
    then read_metadata os files name meta bytes
    else (none, record { meta = meta; saved = some bytes })

unfoldable pub get_saved : Os → Files → Option Bytes → Dir → Option Binlog × Dir
unfolding find_saved
get_saved os files none d = (none, d)
get_saved os files (some name) d = find_saved os files name d.meta d.saved

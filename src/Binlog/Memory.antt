-- ===== src/Binlog/Memory.antt =====
-- The memory part of shared/binlog.c.
use monitor_merlin.Base.{
  ℕ, ◌+◌, ◌-◌, ◌*◌, ◌/◌, ◌%◌, ◌&&◌, Option, none, some, List, ◌++◌, leb, ◌==◌, if◌then◌else◌,
  length, get_or, set, take, replicate,
}
use monitor_merlin.Binlog.{
  Bytes, Status, ok, error, empty, einvalid, edropped, fault, Binlog, Os, u32, add32, sub32, array,
}

-- sizeof(struct binlog_entry) and the size of a pointer, with 64-bit pointers
abbrev pub entry_struct_size : ℕ
entry_struct_size = 16

abbrev pub pointer_size : ℕ
pointer_size = 8

-- realloc(3): the first array stay, new ones hold nothing that is read before it is written.
abbrev pub resize : List (Option Bytes) → ℕ → List (Option Bytes)
resize l n = take n (l ++ replicate (n - length l) none)

abbrev pub grown : ℕ → ℕ
grown n = (n + 16) * 3 % u32 / 2

unfoldable pub grow : Os → Binlog → Binlog × Status
grow os bl =
    let n = grown bl.alloc in
    if os.alloc_ok (pointer_size * n)
    then (record bl { alloc = n; cache = some (resize (array bl.cache) n) }, ok)
    else (record bl { alloc = n; cache = none }, error)

-- the first test of `binlog_mem_add`
unfoldable pub make_room : Os → Binlog → Binlog × Status
unfolding grow
make_room os bl = if leb bl.alloc bl.write_index then grow os bl else (bl, ok)

-- A store through a NULL `cache` is a fault.
unfoldable pub store_entry : Binlog → Bytes → Option (List (Option Bytes)) → Binlog × Status
store_entry bl buf none = (bl, fault)
store_entry bl buf (some l) = (
  record bl {
    cache = some (set l bl.write_index (some buf));
    write_index = add32 bl.write_index 1;
    mem_size = add32 bl.mem_size (length buf + entry_struct_size);
    mem_avail = add32 bl.mem_avail (length buf);
  },
  ok,
)

unfoldable pub add_entry : Os → Binlog → Bytes → Status → Binlog × Status
unfolding store_entry
add_entry os bl buf ok =
    if os.alloc_ok entry_struct_size && os.alloc_ok (length buf)
    then store_entry bl buf bl.cache
    else (bl, edropped)
add_entry os bl buf ret = (bl, edropped)

unfoldable pub mem_add : Os → Binlog → Bytes → Binlog × Status
unfolding make_room add_entry
mem_add os bl buf = let (bl', ret) = make_room os bl in add_entry os bl' buf ret

-- the entry that `binlog_mem_read` finds at `read_index`
unfoldable pub take_entry :
    Binlog → List (Option Bytes) → Option Bytes → Binlog × Status × Option Bytes
take_entry bl l none = (record bl { read_index = 0; write_index = 0 }, einvalid, none)
take_entry bl l (some e) =
    let bl' = record bl {
      mem_avail = sub32 bl.mem_avail (length e);
      cache = some (set l bl.read_index none);
      read_index = add32 bl.read_index 1;
    } in
    if leb bl'.write_index bl'.read_index
    then (record bl' { read_index = 0; write_index = 0; mem_avail = 0 }, ok, some e)
    else (bl', ok, some e)

unfoldable pub mem_read_from :
    Binlog → Option (List (Option Bytes)) → Binlog × Status × Option Bytes
unfolding take_entry
mem_read_from bl none = (record bl { read_index = 0; write_index = 0 }, empty, none)
mem_read_from bl (some l) =
    if leb bl.write_index bl.read_index
    then (record bl { read_index = 0; write_index = 0 }, empty, none)
    else take_entry bl l (get_or l bl.read_index none)

unfoldable pub mem_read : Binlog → Binlog × Status × Option Bytes
unfolding mem_read_from
mem_read bl = mem_read_from bl bl.cache

unfoldable pub put_back : Binlog → Bytes → List (Option Bytes) → Binlog
put_back bl buf l =
    let bl' = record bl { mem_avail = add32 bl.mem_avail (length buf) } in
    if bl.read_index == 0
    then record bl' { cache = some (set l 0 (some buf)); write_index = 1 }
    else record bl' {
      cache = some (set l (bl.read_index - 1) (some buf));
      read_index = bl.read_index - 1;
    }

unfoldable pub mem_unread : Os → Binlog → Bytes → Binlog × Status
unfolding put_back
mem_unread os bl buf = elim bl.cache [
  | none ↦ (bl, edropped)
  | some l ↦
      if bl.is_valid
      then (if (bl.read_index == 0) && (bl.write_index == 1)
          then (bl, edropped)
          else if os.alloc_ok entry_struct_size
          then (put_back bl buf l, ok)
          else (bl, edropped))
      else (bl, edropped)
]

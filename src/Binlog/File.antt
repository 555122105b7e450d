-- ===== src/Binlog/File.antt =====
-- The file part of shared/binlog.c.
use monitor_merlin.Base.{
  ℕ, ◌+◌, ◌-◌, false, Option, none, some, [], ◌++◌, leb, ltb, ◌==◌, if◌then◌else◌, length, take,
  drop,
}
use monitor_merlin.Binlog.{
  Bytes, Status, ok, error, enopath, eincomplete, empty, einvalid, enospc, Fd, Binlog, Os, add32,
  sub32, le32, value32, overlay, content,
}

-- unlink(2) of `bl->path`. It is only called with the file closed.
abbrev pub unlink : Binlog → Binlog
unlink bl = elim bl.path [ none ↦ bl | some _ ↦ record bl { disk = none } ]

unfoldable pub close : Os → Binlog → Binlog × Status
close os bl = elim bl.fd [
  | none ↦ (bl, ok)
  | some _ ↦ (record bl { fd = none }, if os.close_ok then ok else error)
]

unfoldable pub invalidate : Os → Binlog → Binlog
unfolding close
invalidate os bl = unlink (record (close os bl).0 { is_valid = false })

-- write(2) of `buf` through `f`: with O_APPEND at the end of the file, else at the offset.
abbrev pub put : Binlog → Fd → Bytes → Binlog
put bl f buf =
    if f.append
    then record bl {
      disk = some (content bl.disk ++ buf);
      fd = some (record f { pos = length (content bl.disk) + length buf });
    }
    else record bl {
      disk =
          some
            (take f.pos (content bl.disk) ++ (buf ++ drop (f.pos + length buf) (content bl.disk)));
      fd = some (record f { pos = f.pos + length buf });
    }

abbrev pub offset : Binlog → ℕ
offset bl = elim bl.fd [ none ↦ 0 | some f ↦ f.pos ]

-- `lseek(bl->fd, 0, SEEK_END)`, made where the offset is not the file's size.
abbrev pub at_end : Binlog → Fd → Fd
at_end bl f = if f.pos == bl.file_size then f else record f { pos = length (content bl.disk) }

-- the rest of `safe_write` after a write of `n` bytes; `pos` is the offset at entry
written : Os → Binlog → Fd → ℕ → Bytes → Option ℕ → Binlog × Status
unfolding invalidate
written os bl f pos buf none = (record bl { fd = some f }, error)
written os bl f pos buf (some n) =
    let bl' = put bl f (take n buf) in
    if n == length buf
    then (record bl' { file_write_pos = offset bl' }, ok)
    else if os.seek_ok
    then (record bl' { fd = some (record f { pos = pos }) }, eincomplete)
    else (invalidate os bl', einvalid)

unfoldable pub safe_write : Os → Binlog → Bytes → Binlog × Status
unfolding written
safe_write os bl buf = elim bl.fd [
  | none ↦ (bl, error)
  | some f ↦ let f' = at_end bl f in written os bl f' f.pos buf (os.write f'.pos (length buf))
]

-- `binlog_open`; a file that is open already counts as success
unfoldable pub open_file : Os → Binlog → Binlog × Status
open_file os bl = elim bl.fd [
  | some _ ↦ (bl, ok)
  | none ↦ elim bl.path [
    | none ↦ (bl, enopath)
    | some _ ↦
        let bl' =
          if bl.is_valid
          then bl
          else record bl { file_read_pos = 0; file_write_pos = 0; file_size = 0 } in
        if os.open_ok
        then (
          record bl' {
            fd = some (record { pos = 0; append = bl.is_valid });
            disk = some (if bl.is_valid then content bl.disk else []);
          },
          ok,
        )
        else (bl', error)
  ]
]

-- the last part of `binlog_file_add`, after the length is written
add_data : Os → Binlog → Bytes → Status → Binlog × Status
unfolding safe_write
add_data os bl buf ok =
    let (bl', ret) = safe_write os bl buf in
    (
      record bl' {
        file_size = bl'.file_size + (length buf + 4);
        file_entries = add32 bl'.file_entries 1;
      },
      ret,
    )
add_data os bl buf ret = (bl, ret)

unfoldable pub add_opened : Os → Binlog → Bytes → Status → Binlog × Status
unfolding add_data
add_opened os bl buf ok =
    let (bl', ret) = safe_write os bl (le32 (length buf)) in add_data os bl' buf ret
add_opened os bl buf ret = (bl, ret)

unfoldable pub file_add : Os → Binlog → Bytes → Binlog × Status
unfolding add_opened open_file
file_add os bl buf =
    if ltb bl.max_file_size (bl.file_size + length buf)
    then (bl, enospc)
    else (let (bl', ret) = open_file os bl in add_opened os bl' buf ret)

-- The bytes that a read of `n` bytes at `pos` gives; fewer at the end of the file.
abbrev pub read_at : Binlog → ℕ → ℕ → Bytes
read_at bl pos n = take n (drop pos (content bl.disk))

-- the two reads of `binlog_file_read`, from `bl->file_read_pos` on
unfoldable pub read_entry : Os → Binlog → Fd → Binlog × Status × Option Bytes
read_entry os bl f =
    let head = read_at bl bl.file_read_pos 4 in
    let len = value32 (overlay os.stale head) in
    let pos = bl.file_read_pos + length head in
    let body = read_at bl pos len in
    if os.read_ok bl.file_read_pos
    then (if os.read_ok pos
        then (
          record bl {
            fd = some (record f { pos = pos + length body });
            file_read_pos = pos + length body;
            file_entries = sub32 bl.file_entries 1;
          },
          ok,
          some (overlay (os.block len) body),
        )
        else (record bl { fd = some (record f { pos = pos }) }, error, none))
    else (record bl { fd = some (record f { pos = bl.file_read_pos }) }, error, none)

unfoldable pub file_read : Os → Binlog → Binlog × Status × Option Bytes
unfolding read_entry close
file_read os bl =
    if leb bl.file_size bl.file_read_pos
    then (
      unlink (record (close os bl).0 {
        file_read_pos = 0;
        file_write_pos = 0;
        file_size = 0;
        file_entries = 0;
      }),
      empty,
      none,
    )
    else elim bl.fd [ none ↦ (bl, error, none) | some f ↦ read_entry os bl f ]

unfoldable pub file_unread : Binlog → ℕ → Binlog
file_unread bl len = record bl {
  file_read_pos = bl.file_read_pos - len;
  file_entries = add32 bl.file_entries 1;
}

-- ===== src/Binlog/Log.antt =====
-- The public operations of shared/binlog.c but for flushing.
use monitor_merlin.Base.{
  ℕ, ◌+◌, ◌-◌, ◌%◌, ◌^◌, Bool, true, false, not, ◌&&◌, Option, none, some, leb, ltb, ◌==◌,
  if◌then◌else◌, length,
}
use monitor_merlin.Binlog.{Bytes, Status, ok, einvalid, eaddress, Binlog, Os, u32, add32}
use monitor_merlin.Binlog.File.{unlink, file_add, file_read, file_unread}
use monitor_merlin.Binlog.Memory.{mem_add, mem_read, mem_unread}

abbrev pub is_none {ℓ} : {A : Type ℓ} → Option A → Bool
is_none none = true
is_none (some _) = false

-- The length of the name that asprintf(3) makes of `%s.meta` or `%s.save`; glibc prints a NULL path
-- as `(null)`.
abbrev pub name_length : Option Bytes → ℕ
name_length none = 6 + 5
name_length (some p) = length p + 5

-- A new backlog, where memory can be allocated; `none` is NULL. `disk` is the file that is already
-- at the path. The two names that persistence uses are checked, and not kept.
unfoldable pub create : Option Bytes → ℕ → ℕ → Bool → Option Bytes → Option Binlog
create path msize fsize unlink_flag disk =
    if not (fsize == 0) && is_none path
    then none
    else if ltb (name_length path) 15
    then none
    else (let bl : Binlog = record {
      cache = none;
      write_index = 0;
      read_index = 0;
      file_entries = 0;
      alloc = 0;
      mem_size = 0;
      max_mem_size = msize;
      mem_avail = 0;
      max_file_size = fsize;
      file_size = 0;
      file_read_pos = 0;
      file_write_pos = 0;
      is_valid = true;
      should_warn_if_full = true;
      path = if fsize == 0 then none else path;
      fd = none;
      disk = disk;
    } in
        some (if unlink_flag then unlink bl else bl))

unfoldable pub full_warning : Binlog → Binlog × Bool
full_warning bl =
    if bl.should_warn_if_full
    then (record bl { should_warn_if_full = false }, true)
    else (bl, false)

unfoldable pub num_entries : Binlog → ℕ
num_entries bl =
    add32
      (if not (bl.file_size == 0) && ltb bl.file_read_pos bl.file_size then bl.file_entries else 0)
      (if not (is_none bl.cache) && ltb bl.read_index bl.write_index
        then bl.write_index - bl.read_index
        else 0)

unfoldable pub add : Os → Binlog → Bytes → Binlog × Status
add os bl buf =
    if bl.is_valid
    then (if is_none bl.fd && ltb (add32 bl.mem_size (length buf)) bl.max_mem_size
        then mem_add os bl buf
        else file_add os bl buf)
    else (bl, einvalid)

unfoldable pub or_file : Os → Binlog × Status × Option Bytes → Binlog × Status × Option Bytes
or_file os (bl, ok, out) = (bl, ok, out)
or_file os (bl, ret, out) = file_read os bl

unfoldable pub read : Os → Binlog → Binlog × Status × Option Bytes
unfolding or_file
read os bl = if bl.is_valid then or_file os (mem_read bl) else (bl, einvalid, none)

unfoldable pub unread : Os → Binlog → Bytes → Binlog × Status
unread os bl buf =
    if length buf == 0
    then (bl, eaddress)
    else if num_entries bl == 0
    then add os bl buf
    else mem_unread os
        (if leb (length buf) bl.file_read_pos then file_unread bl (length buf) else bl) buf

-- `binlog_msize`, `binlog_fsize`, `binlog_size` and `binlog_available`.
abbrev pub low32 : ℕ → ℕ
low32 n = add32 n 0

unfoldable pub msize : Binlog → ℕ
msize bl = bl.mem_size

unfoldable pub fsize : Binlog → ℕ
fsize bl = low32 bl.file_size

unfoldable pub size : Binlog → ℕ
unfolding fsize msize
size bl = add32 (fsize bl) (msize bl)

unfoldable pub available : Binlog → ℕ
-- The difference may be negative: it is taken modulo the width of the result.
available bl = (bl.file_size + bl.mem_avail + 2 ^ 64 - bl.file_read_pos) % u32

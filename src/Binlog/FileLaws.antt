-- ===== src/Binlog/FileLaws.antt =====
-- The file operations on a backlog that is in order, where the system calls succeed.
use monitor_merlin.Base.{
  ℕ, ◌+◌, ◌-◌, ◌%◌, ◌^◌, ◌≤◌, ◌<◌, ◌≡◌, refl, ap, true, false, none, some, List, [], ◌∷◌, ◌++◌,
  append_assoc, append-nil, arith, length, drop, length-append, length-drop, drop-drop, take-length,
  drop-length, drop_all, drop-append_le, take_self, Option-cases, inl, inr,
}
use monitor_merlin.Binlog.{
  Bytes, ok, empty, enospc, Fd, Binlog, Os, u32, add32, sub32, le32, content,
}
use monitor_merlin.Binlog.File.{
  safe_write, open_file, add_opened, file_add, read_at, read_entry, file_read,
}
use monitor_merlin.Binlog.Log.{is_none}
use monitor_merlin.Binlog.Inv.{
  Works, OnDisk, Unread, OnDisk-Unread, frames, frames-append, length-le32, value32-le32,
}

-- What a complete write leaves.
abbrev appended : Binlog → Bytes → Binlog
appended bl buf = record bl {
  disk = some (content bl.disk ++ buf);
  fd = some (record { pos = length (content bl.disk) + length buf; append = true });
  file_write_pos = length (content bl.disk) + length buf;
}

safe_write_appends :
    (os : Os) (bl : Binlog) (buf : Bytes) {f : Fd}
    → Works os
    → bl.fd ≡ some f
    → f.append ≡ true
    → safe_write os bl buf ≡ (appended bl buf, ok)
unfolding safe_write
safe_write_appends os bl buf {f} w e a = ground (
  arith,
  w.write f.pos (length buf),
  w.write (length (content bl.disk)) (length buf),
  take_self buf,
)

-- The file after `binlog_file_add` of an entry that fits.
abbrev pub with_entry : Binlog → Bytes → Binlog
with_entry bl buf = record bl {
  disk = some ((content bl.disk ++ le32 (length buf)) ++ buf);
  fd =
      some (record {
        pos = length (content bl.disk ++ le32 (length buf)) + length buf;
        append = true;
      });
  file_write_pos = length (content bl.disk ++ le32 (length buf)) + length buf;
  file_size = bl.file_size + (length buf + 4);
  file_entries = add32 bl.file_entries 1;
}

abbrev pub opened : Binlog → Binlog
opened bl = record bl {
  fd = some (record { pos = 0; append = true });
  disk = some (content bl.disk);
}

pub open_file_closed :
    (os : Os) (bl : Binlog)
    → Works os
    → bl.is_valid ≡ true
    → is_none bl.path ≡ false
    → bl.fd ≡ none
    → open_file os bl ≡ (opened bl, ok)
unfolding open_file
open_file_closed os bl w v p e = ground (arith, w.open_file)

open_file_open : (os : Os) (bl : Binlog) {f : Fd} → bl.fd ≡ some f → open_file os bl ≡ (bl, ok)
unfolding open_file
open_file_open os bl e = ground arith

-- The two writes of an entry, on a file that is open.
pub add_opened_lem :
    (os : Os) (bl : Binlog) (buf : Bytes) {f : Fd}
    → Works os
    → bl.fd ≡ some f
    → f.append ≡ true
    → add_opened os bl buf ok ≡ (with_entry bl buf, ok)
unfolding add_opened
add_opened_lem os bl buf w e a =
    rw (safe_write_appends os bl (le32 (length buf)) w e a) rw
      (safe_write_appends os (appended bl (le32 (length buf))) buf w refl refl) refl

pub file_add_fits :
    (os : Os) (bl : Binlog) (buf : Bytes) (file : List Bytes)
    → Works os
    → bl.is_valid ≡ true
    → is_none bl.path ≡ false
    → OnDisk bl bl.fd file
    → bl.file_size + length buf ≤ bl.max_file_size
    → file_add os bl buf ≡ (with_entry bl buf, ok)
unfolding file_add
file_add_fits os bl buf file w v p h fits = elim (Option-cases bl.fd) [
  | inl e ↦
      ground (arith, open_file_closed os bl w v p e, add_opened_lem os (opened bl) buf w refl refl)
  | inr (f, e) ↦ ground (arith, open_file_open os bl e, add_opened_lem os bl buf w e (rw e at h).0)
]

pub file_add_full :
    (os : Os) (bl : Binlog) (buf : Bytes)
    → bl.max_file_size < bl.file_size + length buf
    → file_add os bl buf ≡ (bl, enospc)
unfolding file_add
file_add_full os bl buf h = ground arith

-- The entry joins those that are unread in the file.
pub OnDisk-with_entry :
    (bl : Binlog) (buf : Bytes) (file : List Bytes)
    → OnDisk bl bl.fd file
    → OnDisk (with_entry bl buf) (with_entry bl buf).fd (file ++ buf ∷ [])
OnDisk-with_entry bl buf file h =
    (refl, omega (arith, sizes), omega (arith, sizes), omega (arith, u.read_le), counts, unread)
  where
    u : Unread bl file
    u = OnDisk-Unread bl file h

    sizes :
        (length (content bl.disk ++ le32 (length buf) ++ buf) ≡ bl.file_size + (length buf + 4))
        × (length (content bl.disk ++ le32 (length buf)) + length buf
            ≡ bl.file_size + (length buf + 4))
    sizes = omega (
      arith,
      u.length_bytes,
      length-append (content bl.disk ++ le32 (length buf)) buf,
      length-append (content bl.disk) (le32 (length buf)),
      length-le32 (length buf),
    )

    counts : add32 bl.file_entries 1 ≡ length (file ++ buf ∷ []) % u32
    counts = omega (arith, u.counted, length-append file (buf ∷ []))

    unread :
        drop bl.file_read_pos (content bl.disk ++ le32 (length buf) ++ buf)
        ≡ frames (file ++ buf ∷ [])
    unread =
        rw (append_assoc (content bl.disk) (le32 (length buf)) buf) rw
          (drop-append_le bl.file_read_pos (content bl.disk) (le32 (length buf) ++ buf)
            (omega (arith, u.read_le, u.length_bytes)))
          rw (u.rest, frames-append file (buf ∷ []), append-nil buf) refl

-- The file after the last entry was read: closed and removed.
abbrev pub drained : Binlog → Binlog
drained bl = record bl {
  fd = none;
  disk = none;
  file_read_pos = 0;
  file_write_pos = 0;
  file_size = 0;
  file_entries = 0;
}

-- A file with nothing unread is read past its end.
read_past_end : (bl : Binlog) → Unread bl [] → bl.file_size ≤ bl.file_read_pos
read_past_end bl u = omega (
  arith,
  u.length_bytes,
  ap (length {A = ℕ}) u.rest,
  length-drop bl.file_read_pos (content bl.disk),
)

pub file_read_empty :
    (os : Os) (bl : Binlog)
    → is_none bl.path ≡ false
    → OnDisk bl bl.fd []
    → file_read os bl ≡ (drained bl, empty, none)
unfolding file_read
file_read_empty os bl p h = ground (arith, read_past_end bl (OnDisk-Unread bl [] h))

drop-le32 : (n : ℕ) (xs : Bytes) → drop 4 (le32 n ++ xs) ≡ xs
unfolding le32
drop-le32 n xs = refl

-- The file after the next entry was read.
abbrev pub past_entry : Binlog → Fd → Bytes → Binlog
past_entry bl f b = record bl {
  fd = some (record f { pos = bl.file_read_pos + 4 + length b });
  file_read_pos = bl.file_read_pos + 4 + length b;
  file_entries = sub32 bl.file_entries 1;
}

module _ (os : Os) (bl : Binlog) (b r : Bytes) (w : Works os) (small : length b < 2 ^ 31)
    (rest : drop bl.file_read_pos (content bl.disk) ≡ le32 (length b) ++ (b ++ r)) where
  head_read : read_at bl bl.file_read_pos 4 ≡ le32 (length b)
  unfolding le32
  head_read = rw rest refl

  body_read : read_at bl (bl.file_read_pos + 4) (length b) ≡ b
  unfolding le32
  body_read = rw (← drop-drop 4 bl.file_read_pos (content bl.disk), rest) (take-length b r)

  pub read_entry_lem : (f : Fd) → read_entry os bl f ≡ (past_entry bl f b, ok, some b)
  unfolding read_entry
  read_entry_lem f = ground (
    arith,
    head_read,
    value32-le32 (length b) (drop (length (le32 (length b))) os.stale) (omega arith),
    length-le32 (length b),
    body_read,
    w.read bl.file_read_pos,
    w.read (bl.file_read_pos + 4),
    drop_all (length b) (os.block (length b)) (omega (arith, w.block (length b))),
    append-nil b,
  )

pub file_read_next :
    (os : Os) (bl : Binlog) (b : Bytes) (file : List Bytes) {f : Fd}
    → Works os
    → length b < 2 ^ 31
    → bl.fd ≡ some f
    → OnDisk bl (some f) (b ∷ file)
    → file_read os bl ≡ (past_entry bl f b, ok, some b)
unfolding file_read
file_read_next os bl b file {f} w small e h = ground (
  arith,
  read_entry_lem os bl b (frames file) w small h.5 f,
  h.1,
  ap (length {A = ℕ}) h.5,
  length-drop bl.file_read_pos (content bl.disk),
  length-append (le32 (length b)) (b ++ frames file),
  length-le32 (length b),
)

pub OnDisk-past_entry :
    (bl : Binlog) (f : Fd) (b : Bytes) (file : List Bytes)
    → OnDisk bl (some f) (b ∷ file)
    → OnDisk (past_entry bl f b) (past_entry bl f b).fd file
OnDisk-past_entry bl f b file h = (h.0, h.1, h.2, omega (arith, sizes), omega (arith, h.4), unread)
  where
    sizes : bl.file_size - bl.file_read_pos ≡ 4 + (length b + length (frames file))
    sizes = omega (
      arith,
      h.1,
      ap (length {A = ℕ}) h.5,
      length-drop bl.file_read_pos (content bl.disk),
      length-append (le32 (length b)) (b ++ frames file),
      length-append b (frames file),
      length-le32 (length b),
    )

    unread : drop (bl.file_read_pos + 4 + length b) (content bl.disk) ≡ frames file
    unread =
        rw (← drop-drop (length b) (bl.file_read_pos + 4) (content bl.disk)) rw
          (← drop-drop 4 bl.file_read_pos (content bl.disk)) rw h.5 rw
          (drop-le32 (length b) (b ++ frames file)) (drop-length b (frames file))

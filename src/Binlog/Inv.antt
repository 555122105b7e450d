-- ===== src/Binlog/Inv.antt =====
-- When a backlog is in order, and what it then holds.
use monitor_merlin.Base.{
  ℕ, ◌-◌, ◌%◌, ◌^◌, ◌≤◌, ◌<◌, ◌≡◌, refl, true, false, Option, none, some, List, [], ◌∷◌, ◌++◌,
  append_assoc, map, arith, length, drop, window, Option-cases, inl, inr,
}
use monitor_merlin.Binlog.{Bytes, Fd, Binlog, Os, u32, le32, value32, content, array}
use monitor_merlin.Binlog.Log.{is_none}

-- The entries as `binlog_file_add` writes them, each behind its length.
abbrev pub frames : List Bytes → Bytes
frames [] = []
frames (b ∷ bs) = le32 (length b) ++ (b ++ frames bs)

abbrev pub AllSmall : List Bytes → Type 0
AllSmall [] = Unit
AllSmall (b ∷ bs) = (length b < 2 ^ 31) × AllSmall bs

-- The calls of the operating system succeed, and writes are complete; a fresh block has its size.
pub record Works (os : Os) : Type 0 where
  pub alloc : (n : ℕ) → os.alloc_ok n ≡ true
  pub open_file : os.open_ok ≡ true
  pub read : (n : ℕ) → os.read_ok n ≡ true
  pub write : (p n : ℕ) → os.write p n ≡ some n
  pub block : (n : ℕ) → length (os.block n) ≡ n

-- The file part: closed and empty, or open with `file` unread behind the read offset.
abbrev pub FileHolds : Option Fd → Option Bytes → ℕ → ℕ → ℕ → ℕ → List Bytes → Type 0
FileHolds none disk size read_pos write_pos entries file =
    (disk ≡ none) × (size ≡ 0) × (read_pos ≡ 0) × (write_pos ≡ 0) × (entries ≡ 0) × (file ≡ [])
FileHolds (some f) disk size read_pos write_pos entries file =
    (f.append ≡ true)
    × (length (content disk) ≡ size)
    × (write_pos ≡ size)
    × (read_pos ≤ size)
    × (entries ≡ length file % u32)
    × (drop read_pos (content disk) ≡ frames file)

abbrev pub OnDisk : Binlog → Option Fd → List Bytes → Type 0
OnDisk bl fd file =
    FileHolds fd bl.disk bl.file_size bl.file_read_pos bl.file_write_pos bl.file_entries file

-- The memory part: `mem` stands in the slots from the read index up to the write index.
pub record MemoryHolds (l : List (Option Bytes)) (alloc read_index write_index : ℕ)
    (mem : List Bytes) : Type 0 where
  pub room : length l ≡ alloc
  pub read_in : read_index ≤ write_index
  pub write_in : write_index ≤ alloc
  pub entries : window l read_index (write_index - read_index) ≡ map some mem

abbrev pub InMemory : Binlog → List Bytes → Type 0
InMemory bl mem = MemoryHolds (array bl.cache) bl.alloc bl.read_index bl.write_index mem

-- `bl` is in order, with `mem` unread in the cache and `file` unread in the file.
pub record Holds (bl : Binlog) (mem file : List Bytes) : Type 0 where
  pub valid : bl.is_valid ≡ true
  pub named : is_none bl.path ≡ false
  pub memory : InMemory bl mem
  pub on_disk : OnDisk bl bl.fd file
  pub small_mem : AllSmall mem
  pub small_file : AllSmall file

pub length-le32 : (n : ℕ) → length (le32 n) ≡ 4
unfolding le32
length-le32 n = refl

pub value32-le32 : (n : ℕ) (rest : Bytes) → n < u32 → value32 (le32 n ++ rest) ≡ n
unfolding le32 value32
value32-le32 n rest h = omega arith

pub frames-append : (xs ys : List Bytes) → frames (xs ++ ys) ≡ frames xs ++ frames ys
frames-append [] ys = refl
frames-append (b ∷ xs) ys = rw (
  frames-append xs ys,
  append_assoc (le32 (length b)) (b ++ frames xs) (frames ys),
  append_assoc b (frames xs) (frames ys),
)

pub AllSmall-append : (xs ys : List Bytes) → AllSmall xs → AllSmall ys → AllSmall (xs ++ ys)
AllSmall-append [] ys hx hy = hy
AllSmall-append (b ∷ xs) ys hx hy = (hx.0, AllSmall-append xs ys hx.1 hy)

-- What both cases of `FileHolds` give.
pub record Unread (bl : Binlog) (file : List Bytes) : Type 0 where
  pub length_bytes : length (content bl.disk) ≡ bl.file_size
  pub written : bl.file_write_pos ≡ bl.file_size
  pub read_le : bl.file_read_pos ≤ bl.file_size
  pub counted : bl.file_entries ≡ length file % u32
  pub rest : drop bl.file_read_pos (content bl.disk) ≡ frames file

pub OnDisk-Unread : (bl : Binlog) (file : List Bytes) → OnDisk bl bl.fd file → Unread bl file
OnDisk-Unread bl file h = elim (Option-cases bl.fd) [
  | inl e ↦ closed (rw e at h)
  | inr (f, e) ↦
      (let g : OnDisk bl (some f) file = rw e at h in
        record { length_bytes = g.1; written = g.2; read_le = g.3; counted = g.4; rest = g.5 })
]
  where
    closed : OnDisk bl none file → Unread bl file
    closed g = record {
      length_bytes = rw g.0 (omega (arith, g.1));
      written = omega (arith, g.1, g.3);
      read_le = omega (arith, g.2);
      counted = rw g.5 (omega (arith, g.4));
      rest = rw (g.0, g.2, g.5) refl;
    }

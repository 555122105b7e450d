-- ===== src/Binlog.antt =====
-- shared/binlog.h and the data of shared/binlog.c: the backlog of one node, kept in a memory cache
-- and, past a size, in a file. The operations are in the modules below.
pub mod File
pub mod Memory
pub mod Log
pub mod Flush
pub mod Inv
pub mod FileLaws
pub mod MemoryLaws
pub mod Fifo
pub mod FifoRead
pub mod Run
pub mod Counts
pub mod Undo
pub mod Misplaced
pub mod FlushLaws
pub mod Save
pub mod SaveLaws
pub mod Stale
pub mod Tests
use monitor_merlin.Base.{
  ℕ, ◌+◌, ◌-◌, ◌*◌, ◌/◌, ◌%◌, ◌^◌, Bool, Option, none, some, List, [], ◌∷◌, ◌++◌, length, take,
  drop,
}

-- An event as the backlog stores it. A `binlog_entry` is its bytes: `size` is their number.
abbrev pub Bytes : Type 0
Bytes = List ℕ

-- 0, -1, and the BINLOG_E codes. `fault` stands for an access through a NULL pointer.
pub data Status : Type 0 where
  ok error enopath eincomplete empty einvalid enospc edropped eaddress fault : Status

-- An open file description: the offset, and whether O_APPEND is set.
pub record Fd : Type 0 where
  pub pos : ℕ
  pub append : Bool

-- `struct binlog`. `cache` is NULL or the array; `disk` is the file that `path` names, if there is
-- one. Pointers to the object itself are never NULL here.
pub record Binlog : Type 0 where
  pub cache : Option (List (Option Bytes))
  pub write_index : ℕ
  pub read_index : ℕ
  pub file_entries : ℕ
  pub alloc : ℕ
  pub mem_size : ℕ
  pub max_mem_size : ℕ
  pub mem_avail : ℕ
  pub max_file_size : ℕ
  pub file_size : ℕ
  pub file_read_pos : ℕ
  pub file_write_pos : ℕ
  pub is_valid : Bool
  pub should_warn_if_full : Bool
  pub path : Option Bytes
  pub fd : Option Fd
  pub disk : Option Bytes

-- What the operating system answers during one operation. `write p n` is the result of write(2) of
-- `n` bytes at offset `p`, `none` for -1; `block n` is what a fresh block of `n` bytes holds, and
-- `stale` what the caller's length variable held before.
pub record Os : Type 0 where
  pub alloc_ok : ℕ → Bool
  pub block : ℕ → Bytes
  pub stale : Bytes
  pub open_ok : Bool
  pub close_ok : Bool
  pub read_ok : ℕ → Bool
  pub write : ℕ → ℕ → Option ℕ
  pub seek_ok : Bool

-- `unsigned int` arithmetic.
abbrev pub u32 : ℕ
u32 = 2 ^ 32

abbrev pub add32 : ℕ → ℕ → ℕ
add32 a b = (a + b) % u32

abbrev pub sub32 : ℕ → ℕ → ℕ
sub32 a b = (a + u32 - b) % u32

-- An `unsigned int` as it lies in memory, low byte first.
unfoldable pub le32 : ℕ → Bytes
le32 n = n % 256 ∷ n / 256 % 256 ∷ n / 65536 % 256 ∷ n / 16777216 % 256 ∷ []

unfoldable pub value32 : Bytes → ℕ
value32 (a ∷ b ∷ c ∷ d ∷ rest) = a + 256 * b + 65536 * c + 16777216 * d
value32 other = 0

-- What a buffer holds after a read that may have been short.
abbrev pub overlay : Bytes → Bytes → Bytes
overlay old new = new ++ drop (length new) old

abbrev pub content : Option Bytes → Bytes
content none = []
content (some b) = b

abbrev pub array : Option (List (Option Bytes)) → List (Option Bytes)
array none = []
array (some l) = l

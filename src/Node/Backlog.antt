-- ===== src/Node/Backlog.antt =====
-- What the sending of events uses of a backlog, and what it relies on: an interface that
-- Node.Stored fills with the operations of shared/binlog.c.
use monitor_merlin.Base.{
  ℕ, ◌+◌, ◌%◌, ◌^◌, ◌<◌, ◌≡◌, ◌⊎◌, Bool, Option, some, List, [], ◌∷◌, ◌++◌, length,
}
use monitor_merlin.Binlog.{Bytes, Status, ok, enospc, u32}
use monitor_merlin.Binlog.FifoRead.{first}

-- The operations. `create` is `binlog_create` for the node, `none` where it fails.
pub record Backlog : Type 1 where
  pub Store : Type 0
  pub create : Option Store
  pub add : Store → Bytes → Store × Status
  pub read : Store → Store × Status × Option Bytes
  pub unread : Store → Bytes → Store × Status
  pub wipe : Store → Store
  pub num_entries : Store → ℕ
  pub full_warning : Store → Store × Bool

-- More events than this are never kept.
abbrev pub limit : ℕ
limit = 2 ^ 30

-- The laws: a store stands for a queue of events, and at most `n` slots of it are used.
pub record Laws (b : Backlog) : Type 1 where
  pub Queue : b.Store → List Bytes → ℕ → Type 0
  pub count :
      (s : b.Store) (q : List Bytes) (n : ℕ) → Queue s q n → b.num_entries s ≡ length q % u32
  pub read_first :
      (s : b.Store) (q : List Bytes) (n : ℕ)
      → Queue s q n
      → n < limit
      → ((b.read s).1 ≡ (first q).0)
        × ((b.read s).2 ≡ (first q).1)
        × Queue (b.read s).0 (first q).2 n
  pub add_last :
      (s : b.Store) (q : List Bytes) (n : ℕ) (e : Bytes)
      → Queue s q n
      → length e < 2 ^ 31
      → n < limit
      → (((b.add s e).1 ≡ ok) × Queue (b.add s e).0 (q ++ e ∷ []) (n + 1))
        ⊎ (((b.add s e).1 ≡ enospc) × Queue (b.add s e).0 q (n + 1))
  pub later : (s : b.Store) (q : List Bytes) (n : ℕ) → Queue s q n → Queue s q (n + 1)
  pub warned : (s : b.Store) (q : List Bytes) (n : ℕ) → Queue s q n → Queue (b.full_warning s).0 q n
  -- What `read` has just taken can be put back, with other bytes of its length, where more is left.
  pub Undoable : b.Store → List Bytes → ℕ → Type 0
  pub waits : (s : b.Store) (q : List Bytes) (n : ℕ) → Undoable s q n → Queue s q n
  pub undo :
      (s : b.Store) (e c e' : Bytes) (q : List Bytes) (n : ℕ)
      → Undoable s (e ∷ e' ∷ q) n
      → n < limit
      → length c ≡ length e
      → ((b.read s).1 ≡ ok)
        × ((b.read s).2 ≡ some e)
        × (b.num_entries (b.read s).0 ≡ length (e' ∷ q) % u32)
        × ((b.unread (b.read s).0 c).1 ≡ ok)
        × Queue (b.unread (b.read s).0 c).0 (c ∷ e' ∷ q) (n + 1)

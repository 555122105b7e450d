-- ===== src/Node/Stored.antt =====
-- The backlog of a node as `node_create_binlog` sets it up: the operations of shared/binlog.c.
use monitor_merlin.Base.{
  ℕ, ◌+◌, ◌%◌, ◌^◌, ◌≤◌, ◌<◌, ◌≡◌, ap, ◌⊎◌, inl, inr, true, false, Bool, Option, some, List, [],
  ◌∷◌, ◌++◌, arith, length, Bool-cases, if◌then◌else◌,
}
use monitor_merlin.Binlog.{Bytes, ok, enospc, u32, Binlog, Os}
use monitor_merlin.Binlog.Log.{add, read, unread, num_entries, full_warning}
use monitor_merlin.Binlog.Flush.{wipe}
use monitor_merlin.Binlog.Inv.{Works, Holds}
use monitor_merlin.Binlog.Fifo.{Queued, Queued-mono, has_room, add-fifo}
use monitor_merlin.Binlog.FifoRead.{read-fifo}
use monitor_merlin.Binlog.Counts.{num_entries-length}
use monitor_merlin.Binlog.Undo.{unread-read_as}
use monitor_merlin.Node.Backlog.{Backlog, Laws, limit}

-- `made` is what `binlog_create` answers for the node, or `none` where its directory cannot be used.
abbrev pub stored : Os → Option Binlog → Backlog
stored os made = record {
  Store = Binlog;
  create = made;
  add = add os;
  read = read os;
  unread = unread os;
  wipe = λ bl. wipe os bl true;
  num_entries = num_entries;
  full_warning = full_warning;
}

-- The cache holds `e` in front of the queue `q`, and nothing was read from the file yet.
pub record Cached (bl : Binlog) (e : Bytes) (q : List Bytes) (n : ℕ) : Type 0 where
  pub mem : List Bytes
  pub file : List Bytes
  pub holds : Holds bl (e ∷ mem) file
  pub order : mem ++ file ≡ q
  pub unread_file : bl.file_read_pos ≡ 0
  pub not_empty : 0 < length e
  pub countable : length (mem ++ file) < u32
  pub slots_used : bl.write_index ≤ n

abbrev pub CachedFirst : Binlog → List Bytes → ℕ → Type 0
CachedFirst bl [] n = ⊥
CachedFirst bl (e ∷ q) n = Cached bl e q n

pub Cached-Queued :
    (bl : Binlog) (e : Bytes) (q : List Bytes) (n : ℕ) → Cached bl e q n → Queued bl (e ∷ q) n
Cached-Queued bl e q n h = record {
  mem = e ∷ h.mem;
  file = h.file;
  holds = h.holds;
  order = ap (λ t. e ∷ t) h.order;
  slots_used = h.slots_used;
}

pub CachedFirst-Queued : (bl : Binlog) (q : List Bytes) (n : ℕ) → CachedFirst bl q n → Queued bl q n
CachedFirst-Queued bl [] n h = absurd h
CachedFirst-Queued bl (e ∷ q) n h = Cached-Queued bl e q n h

abbrev silent : Binlog → Binlog
silent bl = record bl { should_warn_if_full = false }

silent-Queued : (bl : Binlog) {q : List Bytes} {n : ℕ} → Queued bl q n → Queued (silent bl) q n
silent-Queued bl h = record {
  mem = h.mem;
  file = h.file;
  holds = record {
    valid = h.holds.valid;
    named = h.holds.named;
    memory = h.holds.memory;
    on_disk = h.holds.on_disk;
    small_mem = h.holds.small_mem;
    small_file = h.holds.small_file;
  };
  order = h.order;
  slots_used = h.slots_used;
}

pub full_warning-Queued :
    (bl : Binlog) {q : List Bytes} {n : ℕ} → Queued bl q n → Queued (full_warning bl).0 q n
unfolding full_warning
full_warning-Queued bl {q} {n} h = chosen bl.should_warn_if_full
  where
    chosen :
        (c : Bool)
        → Queued (if◌then◌else◌ {A = Binlog × Bool} c (silent bl, true) (bl, false)).0 q n
    chosen true = silent-Queued bl h
    chosen false = h

module _ (os : Os) (w : Works os) where
  pub add-last :
      (bl : Binlog) (q : List Bytes) (n : ℕ) (e : Bytes)
      → Queued bl q n
      → length e < 2 ^ 31
      → n < limit
      → (((add os bl e).1 ≡ ok) × Queued (add os bl e).0 (q ++ e ∷ []) (n + 1))
        ⊎ (((add os bl e).1 ≡ enospc) × Queued (add os bl e).0 q (n + 1))
  add-last bl q n e h small room =
      let (answer, after) = add-fifo os bl e w h small room in
      elim (Bool-cases (has_room bl e)) [
        | inl t ↦ inl (rw t at answer, rw t at after)
        | inr t ↦ inr (rw t at answer, rw t at after)
      ]

  pub undo :
      (bl : Binlog) (e c e' : Bytes) (q : List Bytes) (n : ℕ)
      → Cached bl e (e' ∷ q) n
      → n < limit
      → length c ≡ length e
      → ((read os bl).1 ≡ ok)
        × ((read os bl).2 ≡ some e)
        × (num_entries (read os bl).0 ≡ length (e' ∷ q) % u32)
        × ((unread os (read os bl).0 c).1 ≡ ok)
        × Queued (unread os (read os bl).0 c).0 (c ∷ e' ∷ q) (n + 1)
  undo bl e c e' q n h room same =
      let (answer, out, rest) = read-fifo os bl w (Cached-Queued bl e (e' ∷ q) n h) room in
      let (back, again) =
        unread-read_as os bl e w h.holds h.slots_used room h.not_empty h.unread_file h.countable c
          same
          (λ nothing.
            absurd
              (omega (arith, ap (length {A = Bytes}) nothing, ap (length {A = Bytes}) h.order))) in
      (answer, out, num_entries-length (read os bl).0 rest, back, rw h.order at again)

  abbrev pub stored-Laws : (made : Option Binlog) → Laws (stored os made)
  stored-Laws made = record {
    Queue = λ bl q n. Queued bl q n;
    count = λ bl q n h. num_entries-length bl h;
    read_first = λ bl q n h room. read-fifo os bl w h room;
    add_last = add-last;
    later = λ bl q n h. Queued-mono h (omega arith);
    warned = λ bl q n h. full_warning-Queued bl h;
    Undoable = CachedFirst;
    waits = CachedFirst-Queued;
    undo = undo;
  }

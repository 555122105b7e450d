-- ===== src/Binlog/Fifo.antt =====
-- Adding to the backlog adds to a first-in first-out queue: `binlog_add`.
use monitor_merlin.Base.{
  ℕ, ◌+◌, ◌^◌, ◌≤◌, ◌<◌, ◌≡◌, refl, sym, ◌∙◌, Bool, true, false, none, List, [], ◌∷◌, ◌++◌,
  append_assoc, append-nil, arith, length, Option-cases, Bool-cases, ◌⊎◌, inl, inr, leb, ltb,
  leb→le, if◌then◌else◌, ◌&&◌, ◌||◌,
}
use monitor_merlin.Binlog.{Bytes, ok, enospc, Binlog, Os, add32}
use monitor_merlin.Binlog.File.{file_add}
use monitor_merlin.Binlog.Memory.{mem_add}
use monitor_merlin.Binlog.Log.{is_none, add}
use monitor_merlin.Binlog.Inv.{Works, OnDisk, Holds, AllSmall-append}
use monitor_merlin.Binlog.FileLaws.{file_add_fits, file_add_full, OnDisk-with_entry}
use monitor_merlin.Binlog.MemoryLaws.{mem_add_lem}

-- The queue that a backlog stands for: the cache, then the file. At most `n` slots are in use.
pub record Queued (bl : Binlog) (q : List Bytes) (n : ℕ) : Type 0 where
  pub mem : List Bytes
  pub file : List Bytes
  pub holds : Holds bl mem file
  pub order : mem ++ file ≡ q
  pub slots_used : bl.write_index ≤ n

pub Queued-mono : {bl : Binlog} {q : List Bytes} {n m : ℕ} → Queued bl q n → n ≤ m → Queued bl q m
Queued-mono h le = record {
  mem = h.mem;
  file = h.file;
  holds = h.holds;
  order = h.order;
  slots_used = omega (arith, h.slots_used);
}

-- where the next event goes
abbrev pub to_memory : Binlog → Bytes → Bool
to_memory bl b = is_none bl.fd && ltb (add32 bl.mem_size (length b)) bl.max_mem_size

add-memory :
    (os : Os) (bl : Binlog) (b : Bytes)
    → bl.is_valid ≡ true
    → to_memory bl b ≡ true
    → add os bl b ≡ mem_add os bl b
unfolding add
add-memory os bl b v t = ground arith

pub add-file :
    (os : Os) (bl : Binlog) (b : Bytes)
    → bl.is_valid ≡ true
    → to_memory bl b ≡ false
    → add os bl b ≡ file_add os bl b
unfolding add
add-file os bl b v t = ground arith

-- Events go to the cache only while the file is closed, and then it holds nothing.
closed_file :
    (bl : Binlog) (b : Bytes) {file : List Bytes}
    → OnDisk bl bl.fd file
    → to_memory bl b ≡ true
    → file ≡ []
closed_file bl b {file} h t = elim (Option-cases bl.fd) [
  | inl e ↦ (let g : OnDisk bl none file = rw e at h in g.5)
  | inr (f, e) ↦ absurd (ground arith)
]

module _ (os : Os) (bl : Binlog) (b : Bytes) {mem file : List Bytes} (w : Works os)
    (h : Holds bl mem file) (small : length b < 2 ^ 31) where
  add-to_memory :
      bl.write_index < 2 ^ 30
      → to_memory bl b ≡ true
      → ((add os bl b).1 ≡ ok)
        × Queued (add os bl b).0 (mem ++ (file ++ b ∷ [])) (bl.write_index + 1)
  add-to_memory room t =
      let (n, l, e, m) = mem_add_lem os bl b mem w h.memory room in
      let empty_file : file ≡ [] = closed_file bl b h.on_disk t in
      rw (add-memory os bl b h.valid t ∙ e) (
        refl,
        record {
          mem = mem ++ b ∷ [];
          file = file;
          holds = record {
            valid = h.valid;
            named = h.named;
            memory = m;
            on_disk = h.on_disk;
            small_mem = AllSmall-append mem (b ∷ []) h.small_mem (small, tt);
            small_file = h.small_file;
          };
          order = rw (empty_file, append-nil (mem ++ b ∷ [])) refl;
          slots_used = omega arith;
        },
      )

  add_to_file :
      to_memory bl b ≡ false
      → bl.file_size + length b ≤ bl.max_file_size
      → ((add os bl b).1 ≡ ok)
        × Queued (add os bl b).0 (mem ++ (file ++ b ∷ [])) (bl.write_index + 1)
  add_to_file t fits =
      rw (add-file os bl b h.valid t ∙ file_add_fits os bl b file w h.valid h.named h.on_disk fits)
        (
          refl,
          record {
            mem = mem;
            file = file ++ b ∷ [];
            holds = record {
              valid = h.valid;
              named = h.named;
              memory = h.memory;
              on_disk = OnDisk-with_entry bl b file h.on_disk;
              small_mem = h.small_mem;
              small_file = AllSmall-append file (b ∷ []) h.small_file (small, tt);
            };
            order = refl;
            slots_used = omega arith;
          },
        )

-- whether there is room for the event
abbrev pub has_room : Binlog → Bytes → Bool
has_room bl b = to_memory bl b || leb (bl.file_size + length b) bl.max_file_size

room_cases :
    (bl : Binlog) (b : Bytes)
    → (to_memory bl b ≡ true)
      ⊎ (to_memory bl b ≡ false)
        × (bl.file_size + length b ≤ bl.max_file_size)
        × (has_room bl b ≡ true)
      ⊎ (to_memory bl b ≡ false)
        × (bl.max_file_size < bl.file_size + length b)
        × (has_room bl b ≡ false)
room_cases bl b = elim (Bool-cases (to_memory bl b)) [
  | inl t ↦ inl t
  | inr f ↦ elim (Bool-cases (leb (bl.file_size + length b) bl.max_file_size)) [
    | inl l ↦ inr (inl (f, leb→le _ _ l, rw (f, l) refl))
    | inr g ↦ inr (inr (f, ground arith, rw (f, g) refl))
  ]
]

-- On a system whose calls succeed, with fewer than 2^30 slots used, for an event shorter than 2^31
-- bytes: one for which there is room joins the end of the queue; without room the answer is
-- BINLOG_ENOSPC and the queue stays.
pub add-fifo :
    (os : Os) (bl : Binlog) (b : Bytes) {q : List Bytes} {n : ℕ}
    → Works os
    → Queued bl q n
    → length b < 2 ^ 31
    → n < 2 ^ 30
    → ((add os bl b).1 ≡ (if has_room bl b then ok else enospc))
      × Queued (add os bl b).0 (if has_room bl b then q ++ b ∷ [] else q) (n + 1)
add-fifo os bl b {q} {n} w h small room = elim (room_cases bl b) [
  | inl t ↦
      (let p = add-to_memory os bl b w h.holds small (omega (arith, h.slots_used)) t in
        rw t (p.0, widen (rw same at p.1)))
  | inr (inl (t, fits, r)) ↦
      (let p = add_to_file os bl b w h.holds small t fits in rw r (p.0, widen (rw same at p.1)))
  | inr (inr (t, full, r)) ↦
      rw (r, add-file os bl b h.holds.valid t ∙ file_add_full os bl b full)
        (refl, Queued-mono h (omega arith))
]
  where
    widen :
        {bl' : Binlog} {q' : List Bytes}
        → Queued bl' q' (bl.write_index + 1)
        → Queued bl' q' (n + 1)
    widen h' = Queued-mono h' (omega (arith, h.slots_used))

    same : h.mem ++ (h.file ++ b ∷ []) ≡ q ++ b ∷ []
    same = rw (← h.order) (sym (append_assoc h.mem h.file (b ∷ [])))

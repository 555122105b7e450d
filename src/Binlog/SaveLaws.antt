-- ===== src/Binlog/SaveLaws.antt =====
-- A backlog that is saved, and found at the next start.
use monitor_merlin.Base.{
  ℕ, ◌+◌, ◌-◌, ◌%◌, ◌^◌, ◌≤◌, ◌<◌, ◌≡◌, refl, ap, if_false, ◌∙◌, inl, inr, ◌⊎◌, true, false, Option,
  none, some, List, [], ◌∷◌, ◌++◌, arith, length, length-append, length-drop, Option-cases, ◌==◌,
}
use monitor_merlin.Binlog.{Bytes, Status, ok, fault, Binlog, Os, u32, content}
use monitor_merlin.Binlog.File.{open_file}
use monitor_merlin.Binlog.Log.{is_none, num_entries}
use monitor_merlin.Binlog.Flush.{flush, flush_loop}
use monitor_merlin.Binlog.Inv.{Works, Holds, Unread, OnDisk-Unread, frames}
use monitor_merlin.Binlog.Fifo.{Queued}
use monitor_merlin.Binlog.Counts.{num_entries-length, length-frames_pos}
use monitor_merlin.Binlog.FlushLaws.{flush-some, flush-rotates}
use monitor_merlin.Binlog.Save.{
  absent, image, Dir, Files, metadata, write_file_metadata, renamed, save, get_saved,
}

-- The calls on the two files succeed.
pub record FilesWork (files : Files) : Type 0 where
  pub create : files.create_ok ≡ true
  pub write : files.write_ok ≡ true
  pub rename : files.rename_ok ≡ true
  pub open_file : files.open_ok ≡ true
  pub alloc : files.alloc_ok ≡ true
  pub read : files.read_ok ≡ true

-- The backlog that the next start makes of a saved one, and its file.
abbrev restored : Bytes → Bytes → Binlog → Binlog
restored name bytes bl = record bl {
  path = some name;
  fd = some (record { pos = 0; append = true });
  disk = some bytes;
}

not_ok : ¬ (fault ≡ ok)
not_ok e = cc e

-- After a flush no slots are in use.
flush-no_slots : (os : Os) (bl : Binlog) → (flush os bl).1 ≡ ok → (flush os bl).0.write_index ≡ 0
unfolding flush
flush-no_slots os bl e = elim (Option-cases bl.cache) [
  | inl n ↦ rw n refl
  | inr (l, c) ↦ looped l c (Option-cases (flush_loop (bl.write_index - bl.read_index) os bl))
]
  where
    looped :
        (l : List (Option Bytes))
        → bl.cache ≡ some l
        → (flush_loop (bl.write_index - bl.read_index) os bl ≡ none)
          ⊎ ((b : Binlog) × (flush_loop (bl.write_index - bl.read_index) os bl ≡ some b))
        → (flush os bl).0.write_index ≡ 0
    looped l c (inl n) = absurd (not_ok (rw (c, flush, n) at e))
    looped l c (inr (b, s)) = rw (flush-some os bl c s) refl

no_frames : (q : List Bytes) → 0 < length q → ¬ (length (frames q) ≡ 0)
no_frames [] h e = omega (arith, h)
no_frames (b ∷ q) h e = omega (arith, e, length-frames_pos b q)

-- Where something is unread in the file alone, there is the file.
file_exists :
    (bl : Binlog) (q : List Bytes) → Holds bl [] q → 0 < length q → (f : Bytes) × (bl.disk ≡ some f)
file_exists bl q h some_q = elim (Option-cases bl.disk) [
  | inl n ↦
      (let u : Unread bl q = OnDisk-Unread bl q h.on_disk in
        absurd (
          no_frames q some_q (
            omega (
              arith,
              ap (λ (d : Option Bytes). length (content d)) n,
              u.length_bytes,
              ap (length {A = ℕ}) u.rest,
              length-drop bl.file_read_pos (content bl.disk),
            ))))
  | inr (f, e) ↦ (f, e)
]

restored-Queued :
    (name bytes : Bytes) (bl : Binlog) (q : List Bytes)
    → Holds bl [] q
    → bl.write_index ≡ 0
    → bl.disk ≡ some bytes
    → Queued (restored name bytes bl) q 0
restored-Queued name bytes bl q h slots e =
    let u : Unread bl q = OnDisk-Unread bl q h.on_disk in
    record {
      mem = [];
      file = q;
      holds = record {
        valid = h.valid;
        named = refl;
        memory = h.memory;
        on_disk = (refl, rw e at u.length_bytes, u.written, u.read_le, u.counted, rw e at u.rest);
        small_mem = tt;
        small_file = h.small_file;
      };
      order = refl;
      slots_used = omega (arith, slots);
    }

metadata_done :
    (files : Files) (name : Bytes) (p : Binlog × Status) (d : Dir)
    → FilesWork files
    → p.1 ≡ ok
    → metadata files (some name) p d ≡ (p.0, record d { meta = image p.0 }, ok)
unfolding metadata
metadata_done files name (bl, ret) d w e = rw e (rw (w.create, w.write) refl)

renamed_done :
    (files : Files) (bl : Binlog) (d : Dir) {f : Bytes}
    → FilesWork files
    → is_none bl.path ≡ false
    → bl.disk ≡ some f
    → renamed files (bl, d, ok) ≡ (record bl { disk = none }, record d { saved = some f }, ok)
unfolding renamed
renamed_done files bl d w named e = rw (named, e, w.rename) refl

get_saved_done :
    (os : Os) (files : Files) (name bytes : Bytes) (bl : Binlog)
    → Works os
    → FilesWork files
    → bl.is_valid ≡ true
    → get_saved os files (some name) (record { meta = image bl; saved = some bytes })
      ≡ (some (restored name bytes bl), record { meta = absent; saved = none })
unfolding get_saved open_file
get_saved_done os files name bytes bl w fw valid =
    rw (fw.open_file, fw.alloc, fw.read, w.open_file, valid) refl

module _ (os : Os) (files : Files) (w : Works os) (fw : FilesWork files) where
  save_done :
      (name : Bytes) (bl : Binlog) (d : Dir) {bytes : Bytes}
      → 0 < num_entries bl
      → (flush os bl).1 ≡ ok
      → is_none (flush os bl).0.path ≡ false
      → (flush os bl).0.disk ≡ some bytes
      → save os files (some name) bl d ≡ (
        record (flush os bl).0 { disk = none },
        record { meta = image (flush os bl).0; saved = some bytes },
        ok,
      )
  unfolding save write_file_metadata
  save_done name bl d entries flushed named there =
      if_false {c = num_entries bl == 0} _ _ (ground (arith, entries))
      ∙ ap (renamed files) (metadata_done files name (flush os bl) d fw flushed)
      ∙ renamed_done files (flush os bl).0 (record d { meta = image (flush os bl).0 }) fw named
          there

  -- What a backlog that is saved leaves for the next start.
  pub save-get_saved :
      (name : Bytes) (bl : Binlog) (d : Dir) {mem file : List Bytes}
      → Holds bl mem file
      → bl.write_index < 2 ^ 30
      → bl.file_size + length (frames mem) ≤ bl.max_file_size
      → 0 < length (mem ++ file)
      → length (mem ++ file) < u32
      → (s : Binlog) × ((save os files (some name) bl d).2 ≡ ok)
        × (get_saved os files (some name) (save os files (some name) bl d).1
            ≡ (some s, record { meta = absent; saved = none }))
        × Queued s (file ++ mem) 0
  save-get_saved name bl d {mem} {file} h few fits some_left countable =
      let (flushed, after) = flush-rotates os bl w h few fits in
      let slots = flush-no_slots os bl flushed in
      let (bytes, there) =
        file_exists (flush os bl).0 (file ++ mem) after
          (omega (arith, some_left, length-append mem file, length-append file mem)) in
      let counted : num_entries bl ≡ length (mem ++ file) % u32 =
        num_entries-length bl {n = bl.write_index}
          (record { mem = mem; file = file; holds = h; order = refl; slots_used = omega arith }) in
      let saved =
        save_done name bl d (omega (arith, counted, some_left, countable)) flushed after.named
          there in
      (
        restored name bytes (flush os bl).0,
        ap (λ (r : Binlog × Dir × Status). r.2) saved,
        ap (λ (r : Binlog × Dir × Status). get_saved os files (some name) r.1) saved
            ∙ get_saved_done os files name bytes (flush os bl).0 w fw after.valid,
        restored-Queued name bytes (flush os bl).0 (file ++ mem) after slots there,
      )

-- ===== src/Vfs/Collector.antt =====
-- The garbage collection of regions of vfs/lfs.go: cleanupDirtyRegion, isValid and changeRegions, with
-- the lock lfs.mu that they take.
pub mod Safety
pub mod Never
pub mod Worker
use wiredkv.Prelude.{
  ℕ, zero, suc, ◌+◌, ◌%◌, ◌^◌, ◌++◌, Bool, true, false, not, ◌&&◌, ◌||◌, List, [], ◌∷◌, Option,
  none, some, Result, ok, err, io_failed, shard_not_found, blocked, stuck, Error, nat_beq, ltb, leb,
  length, take, if◌then◌else◌, nat_eq, list_eq,
}
use wiredkv.Prelude.Bytes.{Bytes}
use wiredkv.Prelude.Map.{Map, lookup, insert, delete}
use wiredkv.Vfs.Segment.{Segment, size, is_tombstone}
use wiredkv.Vfs.Codec.{INode, serialized_segment, read_segment, segment_padding}
use wiredkv.Vfs.Disk.{File, Disk, contents, checked}
use wiredkv.Vfs.Fs.{
  Env, LogStructuredFs, IndexMap, Fs, gc_active, select_shard, store_inode, advance, on_disk,
}
use wiredkv.Vfs.Lfs.{append_to_active_region, create_active_region, data_file_metadata}
use wiredkv.Vfs.Recovery.{sorted_ids}

-- The store and whether its lock is held.
pub record Held : Type 0 where
  pub fs : LogStructuredFs
  pub mu : Bool

abbrev pub Gc : Type 0 → Type 0
Gc A = Held → Result A × Held

abbrev pub go_on : {A B : Type 0} → Result A × Held → (A → Gc B) → Result B × Held
go_on (ok a, h) next = next a h
go_on (err e, h) next = (err e, h)

infixl 5 ◌>>=◌ ◌>>◌
unfoldable pub ◌>>=◌ : {A B : Type 0} → Gc A → (A → Gc B) → Gc B
◌>>=◌ m next h = go_on (m h) next

unfoldable pub ◌>>◌ : {B : Type 0} → Gc (Unit {0}) → Gc B → Gc B
◌>>◌ m next h = go_on (m h) (λ u. next)

abbrev pub yields : {A : Type 0} → Result A → Gc A
yields r h = (r, h)

abbrev pub reads : {A : Type 0} → (LogStructuredFs → A) → Gc A
reads f h = (ok (f h.fs), h)

abbrev pub changes : (LogStructuredFs → LogStructuredFs) → Gc (Unit {0})
changes f h = (ok tt, record h { fs = f h.fs })

-- A call on the store whose error is looked at later.
abbrev pub attempts : {A : Type 0} → Fs A → Gc (Result A)
attempts m h = let (r, s) = m h.fs in (ok r, record h { fs = s })

-- Lock waits for ever when the caller holds the lock itself, which is the only other user here.
unfoldable pub lock : Gc (Unit {0})
lock h = if h.mu then (err blocked, h) else (ok tt, record h { mu = true })

unfoldable pub unlock : Gc (Unit {0})
unlock h = (ok tt, record h { mu = false })

abbrev pub guarded : {A : Type 0} → Fs A → Gc A
guarded m = do lock; r ← attempts m; unlock; yields r

-- `now` is in seconds; expiries are in nanoseconds.
unfoldable pub is_valid : ℕ → Segment → INode → Bool
is_valid now seg n =
    not (is_tombstone seg)
    && (nat_beq seg.created_at n.created_at && (nat_beq seg.expired_at 0 || ltb now seg.expired_at))

abbrev pub synced : Option File → Fs (Unit {0})
synced none s = (err io_failed, s)
synced (some active) s =
    let (r, s') = on_disk (checked (λ d. tt)) s in
    (r, record s' { regions = insert s'.region_id active s'.regions })

abbrev pub created_after : Result (Unit {0}) × LogStructuredFs → Result (Unit {0}) × LogStructuredFs
created_after (ok u, s) = create_active_region s
created_after (err e, s) = (err e, s)

unfoldable pub change_regions : Gc (Unit {0})
change_regions = guarded (λ s. created_after (synced s.active s))

-- atomic.AddUint64 on the entry's place adds the store's to it.
unfoldable pub moved_entry : LogStructuredFs → INode → INode
moved_entry s n = record n {
  position = (n.position + s.offset) % 2 ^ 64;
  region_id = (n.region_id + s.region_id) % 2 ^ 64;
}

unfoldable pub move_record : Env → ℕ → Segment → INode → Gc (Unit {0})
move_record env inum seg n = do
  guarded (λ s. append_to_active_region s.active (serialized_segment env.hashes seg) s)
  guarded (λ s. (ok tt, record s { regions = delete n.region_id s.regions }))
  changes (λ s. store_inode inum (moved_entry s n) s)
  changes (advance (size seg))

-- os.Remove of the name joined to the directory: `named` says which file of the directory that is.
abbrev pub remove_file : Option File → Disk → Result (Unit {0}) × Disk
remove_file none d = (err io_failed, d)
remove_file (some f) d = (ok tt, record d { files = delete f d.files })

abbrev pub change_if_full : Env → Gc (Unit {0})
change_if_full env = do
  offset ← reads (λ s. s.offset)
  if leb env.region_threshold offset then change_regions else yields (ok tt)

module _ (env : Env) (now : ℕ) (named : File → Option File) (fd : File) where
  abbrev pub keep_record : ℕ → Segment → INode → Gc (Unit {0}) → Gc (Unit {0})
  keep_record inum seg n next = do
    move_record env inum seg n
    change_if_full env
    guarded (on_disk (remove_file (named fd)))
    next

  -- A record that is not the newest of its key is looked at again.
  abbrev pub handle_entry : (ℕ → Gc (Unit {0})) → ℕ → ℕ × Segment → Option INode → Gc (Unit {0})
  handle_entry next offset (inum, seg) none = next offset
  handle_entry next offset (inum, seg) (some n) =
      if is_valid now seg n
      then keep_record inum seg n (next ((offset + size seg) % 2 ^ 64))
      else next offset

  abbrev pub handle_record : (ℕ → Gc (Unit {0})) → ℕ → ℕ × Segment → Option IndexMap → Gc (Unit {0})
  handle_record next offset found none = yields (err shard_not_found)
  handle_record next offset (inum, seg) (some m) =
      handle_entry next offset (inum, seg) (lookup inum m)

  -- The loop over the records of one dirty region, on fuel. The file is read as it was at the start.
  unfoldable pub clean_region : Bytes → ℕ → ℕ → Gc (Unit {0})
  clean_region text zero offset = yields (err stuck)
  clean_region text (suc fuel) offset = if leb (length text) offset then yields (ok tt) else do
    found ← yields (read_segment env.hashes env.transformer text offset segment_padding)
    shard ← reads (λ s. select_shard s.indexs found.0)
    handle_record (clean_region text fuel) offset found shard

-- The loop over the dirty regions: Stat, then their records.
unfoldable pub clean_regions : Env → ℕ → (File → Option File) → ℕ → List File → Gc (Unit {0})
clean_regions env now named fuel [] = yields (ok tt)
clean_regions env now named fuel (fd ∷ fds) = do
  stat ← attempts (on_disk (checked (contents fd)))
  text ← yields stat
  clean_region env now named fd text fuel (length data_file_metadata)
  clean_regions env now named fuel fds

-- Each number has its file.
abbrev pub files_of : Map ℕ File → List ℕ → List File
files_of m [] = []
files_of m (id ∷ ids) = or_none (lookup id m) (files_of m ids)
  where
    or_none : Option File → List File → List File
    or_none none fds = fds
    or_none (some f) fds = f ∷ fds

-- Deferred calls run when the function returns, so not when it waits or loops for ever.
abbrev pub returns : Result (Unit {0}) → Bool
returns (err blocked) = false
returns (err stuck) = false
returns r = true

abbrev pub deferred : (Held → Held) → Result (Unit {0}) × Held → Result (Unit {0}) × Held
deferred f (r, h) = (r, if returns r then f h else h)

abbrev pub forgotten : Held → Held
forgotten h = record h { fs = record h.fs { dirty_region = [] } }

abbrev pub collect : Env → ℕ → (File → Option File) → ℕ → Gc (Unit {0})
collect env now named fuel = do
  changes (λ s. record s {
    dirty_region = s.dirty_region ++ files_of s.regions (take 4 (sorted_ids s.regions));
  })
  fds ← reads (λ s. s.dirty_region)
  clean_regions env now named fuel fds

abbrev pub collect_if_enough : Env → ℕ → (File → Option File) → ℕ → Gc (Unit {0})
collect_if_enough env now named fuel h =
    if leb 5 (length h.fs.regions)
    then deferred forgotten (collect env now named fuel h)
    else (ok tt, h)

unfoldable pub cleanup_dirty_region : Env → ℕ → (File → Option File) → ℕ → Gc (Unit {0})
cleanup_dirty_region env now named fuel = do
  lock
  λ h.
      deferred (λ k. record k { mu = false })
        ((changes (λ s. record s { gcstate = gc_active }) >> collect_if_enough env now named fuel)
          h)

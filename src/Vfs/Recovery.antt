-- ===== src/Vfs/Recovery.antt =====
-- The recovery of the index after a crash: crashRecoveryAllIndex of vfs/lfs.go, which replays the
-- records of all region files, oldest region first.
pub mod Log
pub mod Scan
pub mod Regions
pub mod Order
pub mod Journal
pub mod Commands
pub mod Stops
pub mod Termination
use wiredkv.Prelude.{
  ℕ, zero, suc, ◌+◌, ◌%◌, ◌^◌, Bool, not, ◌&&◌, List, [], ◌∷◌, Option, none, some, Result, ok, err,
  leb, nat_beq, length, nat_eq, if◌then◌else◌, shard_not_found, region_not_found, stuck, ◌>>=◌,
}
use wiredkv.Prelude.Bytes.{Bytes}
use wiredkv.Prelude.Map.{Map, lookup, insert, delete}
use wiredkv.Vfs.Segment.{Segment, size, is_tombstone}
use wiredkv.Vfs.Codec.{INode, read_segment, segment_padding}
use wiredkv.Vfs.Disk.{File, Disk, contents}
use wiredkv.Vfs.Fs.{Env, LogStructuredFs, IndexMap, select_shard, update_shard}
use wiredkv.Vfs.Lfs.{data_file_metadata}

-- segment.ExpiredAt <= uint64(time.Now().UnixNano()) && segment.ExpiredAt != 0
unfoldable pub has_lapsed : ℕ → Segment → Bool
has_lapsed now seg = leb seg.expired_at now && not (nat_beq seg.expired_at 0)

unfoldable pub recovered_inode : ℕ → ℕ → Segment → INode
recovered_inode region_id offset seg = record {
  region_id = region_id;
  position = offset;
  length = size seg;
  expired_at = seg.expired_at;
  created_at = seg.created_at;
  mvcc = 0;
}

abbrev pub replay_in :
    Option IndexMap
    → ℕ
    → ℕ
    → ℕ
    → ℕ × Segment
    → List (Option IndexMap)
    → Result (List (Option IndexMap))
replay_in none now region_id offset (inum, seg) indexs = err shard_not_found
replay_in (some m) now region_id offset (inum, seg) indexs =
    if is_tombstone seg
    then ok (update_shard (delete inum) inum indexs)
    else if has_lapsed now seg
    then ok indexs
    else ok (update_shard (insert inum (recovered_inode region_id offset seg)) inum indexs)

-- What one record does to the index; a nil shard is an error.
unfoldable pub replay_segment :
    ℕ → ℕ → ℕ → ℕ × Segment → List (Option IndexMap) → Result (List (Option IndexMap))
replay_segment now region_id offset (inum, seg) indexs =
    replay_in (select_shard indexs inum) now region_id offset (inum, seg) indexs

-- The loop over one file: `for offset < uint64(finfo.Size())`, on fuel.
unfoldable pub scan_region :
    Env → ℕ → ℕ → Bytes → ℕ → ℕ → List (Option IndexMap) → Result (List (Option IndexMap))
scan_region env now region_id file zero offset indexs = err stuck
scan_region env now region_id file (suc fuel) offset indexs =
    if leb (length file) offset then ok indexs else do
      found ← read_segment env.hashes env.transformer file offset segment_padding
      indexs' ← replay_segment now region_id offset found indexs
      scan_region env now region_id file fuel ((offset + size found.1) % 2 ^ 64) indexs'

-- A record takes at least one byte, so a round for each byte and one more are enough.
abbrev pub scan_file :
    Env → ℕ → Disk → ℕ → Option File → List (Option IndexMap) → Result (List (Option IndexMap))
scan_file env now d region_id none indexs = err region_not_found
scan_file env now d region_id (some fd) indexs =
    let file = contents fd d in
    scan_region env now region_id file (suc (length file)) (length data_file_metadata) indexs

unfoldable pub scan_regions :
    Env → ℕ → LogStructuredFs → List ℕ → List (Option IndexMap) → Result (List (Option IndexMap))
scan_regions env now s [] indexs = ok indexs
scan_regions env now s (region_id ∷ ids) indexs = do
  indexs' ← scan_file env now s.disk region_id (lookup region_id s.regions) indexs
  scan_regions env now s ids indexs'

-- sort.Slice on the region numbers.
unfoldable pub insert_id : ℕ → List ℕ → List ℕ
insert_id n [] = n ∷ []
insert_id n (k ∷ ks) = let rest = insert_id n ks in if leb n k then n ∷ k ∷ ks else k ∷ rest

unfoldable pub sorted_ids : Map ℕ File → List ℕ
sorted_ids [] = []
sorted_ids ((id, f) ∷ m) = insert_id id (sorted_ids m)

unfoldable pub crash_recovery_all_index :
    Env → ℕ → LogStructuredFs → Result (List (Option IndexMap))
crash_recovery_all_index env now s = scan_regions env now s (sorted_ids s.regions) s.indexs

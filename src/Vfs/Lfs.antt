-- ===== src/Vfs/Lfs.antt =====
-- The operations of LogStructuredFS in vfs/lfs.go on keys: put, delete, fetch and the update
-- under a version, with the creation of regions.
pub mod Index
pub mod Placed
pub mod Stored
pub mod Runs
pub mod WellFormed
pub mod Rotated
pub mod Append
pub mod View
pub mod Put
pub mod Delete
pub mod Cas
pub mod Fresh
pub mod Faults
pub mod Refinement
use Prim.Native.Nat.{◌%◌}
use wiredkv.Prelude.{
  ℕ, ◌+◌, ◌^◌, Bool, not, ◌&&◌, List, [], ◌∷◌, Option, none, some, Result, ok, err, leb, nat_beq,
  length, nat_eq, if◌then◌else◌, io_failed, partial_write, shard_not_found, index_not_found,
  expired, region_not_found, version_conflict, panicked, map_result,
}
use wiredkv.Prelude.Bytes.{Bytes}
use wiredkv.Prelude.Map.{lookup, insert}
use wiredkv.Vfs.Hash.{inode_num}
use wiredkv.Vfs.Segment.{Segment, size, new_tombstone_segment}
use wiredkv.Vfs.Codec.{INode, serialized_segment, read_segment, segment_padding}
use wiredkv.Vfs.FileName.{generate_file_name}
use wiredkv.Vfs.Disk.{File, Disk, write, open_file, contents}
use wiredkv.Vfs.Fs.{
  GcState, Env, LogStructuredFs, IndexMap, Fs, ◌>>=◌, ◌>>◌, lift, modify, gets, on_disk,
  select_shard, find_inode, store_inode, delete_inode, advance,
}

-- The four bytes at the head of each file.
abbrev pub data_file_metadata : Bytes
data_file_metadata = 0xDB ∷ 0x00 ∷ 0x01 ∷ 0x01 ∷ []

abbrev pub index_file_name : File
index_file_name = b'i' ∷ b'n' ∷ b'd' ∷ b'e' ∷ b'x' ∷ b'.' ∷ b'w' ∷ b'd' ∷ b'b' ∷ []

abbrev pub done : Fs (Unit {0})
done = lift (ok tt)

-- A write to a nil file is an error.
abbrev pub write_to : Option File → Bytes → Fs ℕ
write_to none b = lift (err io_failed)
write_to (some f) b = on_disk (write f b)

unfoldable pub append_to_active_region : Option File → Bytes → Fs (Unit {0})
append_to_active_region fd b = do
  n ← write_to fd b
  lift (if nat_beq n (length b) then ok tt else err partial_write)

unfoldable pub create_active_region : Fs (Unit {0})
create_active_region = do
  modify (λ s. record s { region_id = (s.region_id + 1) % 2 ^ 64 })
  region_id ← gets (λ s. s.region_id)
  name ← lift (generate_file_name region_id)
  active ← on_disk (open_file name)
  n ← on_disk (write active data_file_metadata)
  lift (if nat_beq n (length data_file_metadata) then ok tt else err partial_write)
  modify (λ s. record s {
    active = some active;
    offset = length data_file_metadata;
    regions = insert region_id active s.regions;
  })

-- if lfs.offset >= uint64(regionThreshold)
unfoldable pub rotate_if_full : Env → Fs (Unit {0})
rotate_if_full env s = if leb env.region_threshold s.offset then create_active_region s else done s

-- A call of a method on a nil shard panics.
abbrev pub shard_at : Option IndexMap → Result (Unit {0}) → Fs (Unit {0})
shard_at none failure = lift failure
shard_at (some m) failure = done

unfoldable pub inode_at : Env → Segment → LogStructuredFs → INode
inode_at env seg s = record {
  region_id = s.region_id;
  position = s.offset;
  length = size seg;
  expired_at = seg.expired_at;
  created_at = seg.created_at;
  mvcc = 0;
}

unfoldable pub put_segment : Env → Bytes → Segment → Fs (Unit {0})
put_segment env key seg = do
  let inum = inode_num env.hashes key
  active ← gets (λ s. s.active)
  append_to_active_region active (serialized_segment env.hashes seg)
  shard ← gets (λ s. select_shard s.indexs inum)
  shard_at shard (err panicked)
  modify (λ s. store_inode inum (inode_at env seg s) s)
  modify (advance (size seg))
  rotate_if_full env

-- `now` is the reading of the clock for the tombstone.
unfoldable pub delete_segment : Env → ℕ → Bytes → Fs (Unit {0})
delete_segment env now key = do
  let seg = new_tombstone_segment now key
  active ← gets (λ s. s.active)
  append_to_active_region active (serialized_segment env.hashes seg)
  modify (advance (size seg))
  let inum = inode_num env.hashes key
  shard ← gets (λ s. select_shard s.indexs inum)
  shard_at shard (err shard_not_found)
  modify (delete_inode inum)

-- inode.ExpiredAt <= now && inode.ExpiredAt != 0
unfoldable pub is_expired : ℕ → INode → Bool
is_expired now n = leb n.expired_at now && not (nat_beq n.expired_at 0)

abbrev pub or_error {ℓ} : {A : Type ℓ} → Option A → Result A → Result A
or_error none r = r
or_error (some a) r = ok a

abbrev pub fetch_from : Env → INode → Disk → Option File → Result (ℕ × Segment)
fetch_from env n d none = err region_not_found
fetch_from env n d (some fd) =
    map_result (λ found. (n.mvcc, found.1))
      (read_segment env.hashes env.transformer (contents fd d) n.position segment_padding)

-- What is read for an entry that has not expired.
unfoldable pub fetch_inode : Env → INode → LogStructuredFs → Result (ℕ × Segment)
fetch_inode env n s = fetch_from env n s.disk (lookup n.region_id s.regions)

unfoldable pub fetch_segment : Env → ℕ → Bytes → Fs (ℕ × Segment)
fetch_segment env now key = do
  let inum = inode_num env.hashes key
  shard ← gets (λ s. select_shard s.indexs inum)
  shard_at shard (err shard_not_found)
  found ← gets (λ s. find_inode s inum)
  n ← lift (or_error found (err index_not_found))
  if is_expired now n
      then (modify (delete_inode inum) >> lift (err expired))
      else (λ s. (fetch_inode env n s, s))

-- One after the other, up to the first error.
unfoldable pub batch_fetch_segments : Env → ℕ → List Bytes → Fs (List Segment)
batch_fetch_segments env now [] = lift (ok [])
batch_fetch_segments env now (key ∷ keys) = do
  found ← fetch_segment env now key
  segs ← batch_fetch_segments env now keys
  lift (ok (found.1 ∷ segs))

-- A nil shard panics.
unfoldable pub keys_count : List (Option IndexMap) → Result ℕ
keys_count [] = ok 0
keys_count (none ∷ ms) = err panicked
keys_count (some m ∷ ms) = map_result (λ n. length m + n) (keys_count ms)

unfoldable pub gc_state : LogStructuredFs → GcState
gc_state s = s.gcstate

unfoldable pub get_directory : LogStructuredFs → Bytes
get_directory s = s.directory

unfoldable pub moved_inode : Segment → ℕ → LogStructuredFs → INode → INode
moved_inode seg version s n = record {
  region_id = s.region_id;
  position = s.offset;
  length = size seg;
  expired_at = seg.expired_at;
  created_at = seg.created_at;
  mvcc = version;
}

-- The version is raised before the record is written.
unfoldable pub update_segment_with_cas : Env → Bytes → ℕ → Segment → Fs (Unit {0})
update_segment_with_cas env key expected newseg = do
  let inum = inode_num env.hashes key
  let version = (expected + 1) % 2 ^ 64
  shard ← gets (λ s. select_shard s.indexs inum)
  shard_at shard (err shard_not_found)
  found ← gets (λ s. find_inode s inum)
  n ← lift (or_error found (err index_not_found))
  lift (if nat_beq n.mvcc expected then ok tt else err version_conflict)
  modify (store_inode inum (record n { mvcc = version }))
  active ← gets (λ s. s.active)
  append_to_active_region active (serialized_segment env.hashes newseg)
  modify (λ s. store_inode inum (moved_inode newseg version s n) s)
  modify (advance (size newseg))
  rotate_if_full env

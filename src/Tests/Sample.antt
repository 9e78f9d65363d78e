-- ===== src/Tests/Sample.antt =====
-- A concrete store: simple hashes, a new directory, and two records.
use wiredkv.Prelude.{ℕ, ◌%◌, ◌^◌, ◌+◌, ◌<◌, ◌≡◌, refl, arith, [], ◌∷◌, none, some}
use wiredkv.Prelude.Bytes.{Bytes, le_value}
use wiredkv.Vfs.Hash.{inode_num, Hashes, IsHashes}
use wiredkv.Vfs.Transformer.{new_transformer}
use wiredkv.Vfs.Segment.{Segment, text_kind, size, new_tombstone_segment}
use wiredkv.Vfs.Codec.{INode, serialized_segment, header}
use wiredkv.Vfs.Segment.Laws.{new_tombstone_segment-IsSegment}
use wiredkv.Prelude.Map.{lookup, insert}
use wiredkv.Vfs.Codec.SegmentTrip.{IsSegment}
use wiredkv.Vfs.Disk.{Disk, write, append_file}
use wiredkv.Vfs.Fs.{
  Env, LogStructuredFs, find_inode, store_inode, update_shard, advance, select_shard, ◌>>=◌, ◌>>◌,
}
use wiredkv.Vfs.Lfs.{put_segment, append_to_active_region, rotate_if_full, inode_at}
use wiredkv.Vfs.Lfs.Runs.{with_region}
use wiredkv.Vfs.Lfs.WellFormed.{WellFormed}
use wiredkv.Vfs.Lfs.Put.{Fits, put_segment-WellFormed}
use wiredkv.Vfs.Lfs.Refinement.{Represents}
use wiredkv.Vfs.Lfs.Refinement.Sequence.{no_records}
use wiredkv.Vfs.Lfs.Fresh.{nothing_found, with_region-new_fs, new_fs}

abbrev pub sample_hashes : Hashes
sample_hashes = record {
  sum64 = λ b. le_value b % 2 ^ 64;
  checksum_ieee = λ b. le_value b % 2 ^ 32;
}

pub sample_hashes-IsHashes : IsHashes sample_hashes
sample_hashes-IsHashes = record { sum64_fits = λ b. omega arith; checksum_fits = λ b. omega arith }

abbrev pub sample_env : Env
sample_env = record { hashes = sample_hashes; transformer = new_transformer; region_threshold = 64 }

abbrev pub empty_disk : Disk
empty_disk = record { files = []; outcomes = [] }

abbrev pub new_store : LogStructuredFs
new_store = with_region 1 (new_fs [] empty_disk)

pub new_store-WellFormed : WellFormed sample_env new_store
new_store-WellFormed = with_region-new_fs [] empty_disk sample_env refl refl

pub new_store-Represents : Represents sample_env new_store no_records
new_store-Represents = record { each = λ inum. rw (nothing_found [] empty_disk inum) tt }

abbrev pub apple : Bytes
apple = b'a' ∷ []

abbrev pub pear : Bytes
pear = b'p' ∷ []

-- A text that does not expire.
abbrev pub record_of : Bytes → ℕ → Segment
record_of key value = record {
  tombstone = 0;
  kind = text_kind;
  expired_at = 0;
  created_at = 17;
  key_size = 1;
  value_size = 1;
  key = key;
  value = value ∷ [];
}

pub new_store_state :
    (new_store.offset ≡ 4)
    × (new_store.region_id ≡ 1)
    × ((inum : ℕ) → find_inode new_store inum ≡ none)
unfolding new_fs
new_store_state = (refl, refl, nothing_found [] empty_disk)

pub record_of-IsSegment : (key value : ℕ) → IsSegment (record_of (key ∷ []) value)
record_of-IsSegment key value = omega arith

-- Such a record can be put into the new store.
pub record_of-Fits : (key value : ℕ) → Fits new_store (key ∷ []) (record_of (key ∷ []) value)
unfolding size
record_of-Fits key value =
    let (at, region, _) = new_store_state in
    record {
      valid = record_of-IsSegment key value;
      key_is = refl;
      room = omega (arith, at);
      regions_left = omega (arith, region);
    }

abbrev pub stocked : LogStructuredFs
stocked = (put_segment sample_env apple (record_of apple 1) new_store).1

pub stocked-WellFormed : WellFormed sample_env stocked
stocked-WellFormed =
    (put_segment-WellFormed sample_env sample_hashes-IsHashes new_store new_store-WellFormed apple
      (record_of apple 1) (record_of-Fits b'a' 1)).1

abbrev pub apple_entry : INode
apple_entry = record {
  region_id = 1;
  position = 4;
  length = 32;
  expired_at = 0;
  created_at = 17;
  mvcc = 0;
}

pub stocked_state :
    (stocked.offset ≡ 36)
    × (stocked.region_id ≡ 1)
    × (find_inode stocked (inode_num sample_hashes apple) ≡ some apple_entry)
unfolding put_segment append_to_active_region ◌>>=◌ ◌>>◌ new_fs inode_num serialized_segment header
    write select_shard store_inode update_shard insert advance rotate_if_full inode_at size
    find_inode lookup append_file
stocked_state = (refl, refl, refl)

pub stocked-Fits : (key value : ℕ) → Fits stocked (key ∷ []) (record_of (key ∷ []) value)
unfolding size
stocked-Fits key value =
    let (at, region, _) = stocked_state in
    record {
      valid = record_of-IsSegment key value;
      key_is = refl;
      room = omega (arith, at);
      regions_left = omega (arith, region);
    }

pub apple_tombstone : IsSegment (new_tombstone_segment 20 apple)
apple_tombstone = new_tombstone_segment-IsSegment 20 apple (omega arith) (omega arith)

pub apple_tombstone_room : stocked.offset + size (new_tombstone_segment 20 apple) < 2 ^ 64
unfolding size new_tombstone_segment
apple_tombstone_room = omega (arith, stocked_state.0)

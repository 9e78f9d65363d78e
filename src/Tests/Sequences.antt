-- ===== src/Tests/Sequences.antt =====
-- Commands on a new store, one and several.
use wiredkv.Prelude.{◌≡◌, refl, arith, false, List, [], ◌∷◌}
use wiredkv.Prelude.Map.{lookup, insert, delete}
use wiredkv.Vfs.Hash.{inode_num}
use wiredkv.Vfs.Transformer.{new_transformer}
use wiredkv.Vfs.Segment.{size, new_tombstone_segment}
use wiredkv.Vfs.Codec.{serialized_segment, header}
use wiredkv.Vfs.Disk.{write, append_file, contents}
use wiredkv.Vfs.Fs.{
  Env, ◌>>=◌, ◌>>◌, select_shard, update_shard, find_inode, store_inode, delete_inode, advance,
}
use wiredkv.Vfs.Lfs.{
  append_to_active_region, put_segment, update_segment_with_cas, fetch_segment, delete_segment,
  rotate_if_full, inode_at, moved_inode, is_expired, fetch_inode,
}
use wiredkv.Vfs.Lfs.Fresh.{new_fs}
use wiredkv.Vfs.Lfs.Refinement.{Command, put, remove, update, fetch, exec}
use wiredkv.Vfs.Lfs.Refinement.Step.{Refines, exec-Refines}
use wiredkv.Vfs.Lfs.Refinement.Sequence.{AllAllowed, no_records}
use wiredkv.Vfs.Open.Session.{store_after, Lasts, open_fs-Lasts}
use wiredkv.Tests.Sample.{
  sample_hashes, sample_hashes-IsHashes, sample_env, empty_disk, new_store, new_store-WellFormed,
  new_store-Represents, apple, record_of, record_of-Fits, record_of-IsSegment, apple_tombstone,
}

exec-Refines_example : Refines sample_env new_store no_records (put apple (record_of apple 1))
exec-Refines_example =
    exec-Refines sample_env sample_hashes-IsHashes new_store new_store-WellFormed no_records
      new_store-Represents (put apple (record_of apple 1)) (record_of-Fits b'a' 1)

abbrev pub roomy : Env
roomy = record { hashes = sample_hashes; transformer = new_transformer; region_threshold = 1000 }

abbrev pub commands : List Command
commands =
    put apple (record_of apple 1)
    ∷ update apple 0 (record_of apple 2)
    ∷ update apple 0 (record_of apple 3)
    ∷ fetch 50 apple
    ∷ remove 20 apple
    ∷ fetch 50 apple
    ∷ []

pub commands_fit : AllAllowed roomy new_store commands
unfolding exec put_segment update_segment_with_cas fetch_segment delete_segment
    append_to_active_region ◌>>=◌ ◌>>◌ new_fs inode_num serialized_segment header write contents
    select_shard store_inode delete_inode update_shard insert delete advance rotate_if_full inode_at
    moved_inode is_expired fetch_inode size find_inode lookup append_file new_tombstone_segment
commands_fit = (
  record {
    valid = record_of-IsSegment b'a' 1;
    key_is = refl;
    room = omega arith;
    regions_left = omega arith;
  },
  (
    record {
      valid = record_of-IsSegment b'a' 2;
      key_is = refl;
      room = omega arith;
      regions_left = omega arith;
    },
    (
      record {
        valid = record_of-IsSegment b'a' 3;
        key_is = refl;
        room = omega arith;
        regions_left = omega arith;
      },
      (tt, ((apple_tombstone, omega arith), (tt, tt))),
    ),
  ),
)

pub commands_region : (store_after roomy commands new_store).region_id ≡ 1
unfolding store_after exec put_segment update_segment_with_cas fetch_segment delete_segment
    append_to_active_region ◌>>=◌ ◌>>◌ new_fs inode_num serialized_segment header write contents
    select_shard store_inode delete_inode update_shard insert delete advance rotate_if_full inode_at
    moved_inode is_expired fetch_inode size find_inode lookup append_file new_tombstone_segment
commands_region = refl

open_fs-Lasts_example :
    Lasts roomy 40 60 false (record { path = []; threshold = 1 }) empty_disk commands
open_fs-Lasts_example =
    open_fs-Lasts roomy 40 60 false (record { path = []; threshold = 1 }) empty_disk commands refl
      refl sample_hashes-IsHashes commands_fit (omega (arith, commands_region))

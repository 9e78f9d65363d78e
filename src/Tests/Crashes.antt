-- ===== src/Tests/Crashes.antt =====
-- Sessions that end without closing the store.
use wiredkv.Prelude.{ℕ, ◌≡◌, refl, arith, false, true, [], ok, err, eof, io_failed}
use wiredkv.Prelude.Map.{lookup, insert, delete}
use wiredkv.Vfs.Hash.{inode_num}
use wiredkv.Vfs.Transformer.{decode, active_encryptor, active_compressor}
use wiredkv.Vfs.Segment.{size, new_tombstone_segment, is_tombstone}
use wiredkv.Vfs.Codec.{serialized_segment, header}
use wiredkv.Vfs.Disk.{write, append_file, contents}
use wiredkv.Vfs.Fs.{
  ◌>>=◌, ◌>>◌, select_shard, update_shard, find_inode, store_inode, delete_inode, advance,
}
use wiredkv.Vfs.Lfs.{
  append_to_active_region, put_segment, update_segment_with_cas, fetch_segment, delete_segment,
  rotate_if_full, inode_at, moved_inode, is_expired, fetch_inode,
}
use wiredkv.Vfs.Lfs.Fresh.{new_fs}
use wiredkv.Vfs.Lfs.Refinement.{exec}
use wiredkv.Vfs.Lfs.Refinement.Sequence.{no_records}
use wiredkv.Vfs.Recovery.{has_lapsed}
use wiredkv.Vfs.Recovery.Commands.{IsLasting}
use wiredkv.Vfs.Snapshot.Reopened.{reset_records}
use wiredkv.Vfs.Open.{Options, open_fs}
use wiredkv.Vfs.Open.Empty.{first_store}
use wiredkv.Vfs.Open.Reopened.{Opens}
use wiredkv.Vfs.Open.Session.{store_after, records_after}
use wiredkv.Vfs.Open.Crashed.{AllOutlast, open_fs-Survives}
use wiredkv.Vfs.Open.Torn.{used, cut_short, open_fs-put_segment}
use wiredkv.Tests.Sample.{
  sample_hashes-IsHashes, empty_disk, apple, pear, record_of, record_of-IsSegment, new_store,
}
use wiredkv.Tests.Sequences.{roomy, commands, commands_fit, commands_region}

abbrev pub options : Options
options = record { path = []; threshold = 1 }

apple-IsLasting : (value : ℕ) → IsLasting 60 (record_of apple value)
unfolding decode active_encryptor active_compressor is_tombstone has_lapsed
apple-IsLasting value = record { no_tombstone = refl; unexpired = refl }

pub commands_outlast : AllOutlast 60 commands
unfolding decode active_encryptor active_compressor new_tombstone_segment
commands_outlast = (
  apple-IsLasting 1,
  (apple-IsLasting 2, (apple-IsLasting 3, (omega arith, (tt, (omega arith, tt))))),
)

open_fs-Survives_example :
    (open_fs roomy 40 false options empty_disk ≡ (
      ok (first_store roomy 40 options empty_disk refl refl),
      (first_store roomy 40 options empty_disk refl refl).disk,
    ))
    × Opens roomy 60 options
        (store_after roomy commands (first_store roomy 40 options empty_disk refl refl)).disk
        (reset_records (records_after roomy commands no_records))
open_fs-Survives_example =
    open_fs-Survives roomy 40 60 options empty_disk refl refl false commands sample_hashes-IsHashes
      commands_fit commands_outlast (omega (arith, commands_region))

commands_room : (store_after roomy commands new_store).offset ≡ 99
unfolding store_after exec put_segment update_segment_with_cas fetch_segment delete_segment
    append_to_active_region ◌>>=◌ ◌>>◌ new_fs inode_num serialized_segment header write contents
    select_shard store_inode delete_inode update_shard insert delete advance rotate_if_full inode_at
    moved_inode is_expired fetch_inode size find_inode lookup append_file new_tombstone_segment
commands_room = refl

open_fs-put_segment_example :
    ((put_segment roomy pear
        (record_of pear 2)
        (cut_short 10 (used roomy 40 60 options empty_disk refl refl commands))).0
      ≡ err io_failed)
    × ((open_fs roomy 60 true options
          (put_segment roomy pear
            (record_of pear 2)
            (cut_short 10 (used roomy 40 60 options empty_disk refl refl commands))).1.disk).0
        ≡ err eof)
unfolding size
open_fs-put_segment_example =
    open_fs-put_segment roomy 40 60 options empty_disk refl refl commands pear (record_of pear 2) 10
      sample_hashes-IsHashes commands_fit commands_outlast (omega (arith, commands_region))
      (record_of-IsSegment b'p' 2) (omega (arith, commands_room)) (omega arith) (omega arith)

-- ===== src/Tests/Storage.antt =====
-- The storage engine at a concrete store.
use wiredkv.Prelude.{◌≡◌, ◌≢◌, arith, some, ok, err, index_not_found, nat_eq}
use wiredkv.Vfs.Hash.{inode_num}
use wiredkv.Vfs.Transformer.{decode, active_encryptor, active_compressor}
use wiredkv.Vfs.Codec.{INode}
use wiredkv.Vfs.Fs.{find_inode}
use wiredkv.Vfs.Lfs.{put_segment, delete_segment, fetch_segment, update_segment_with_cas}
use wiredkv.Vfs.Lfs.Put.{fetch_segment-put_segment}
use wiredkv.Vfs.Lfs.Delete.{fetch_segment-delete_segment}
use wiredkv.Vfs.Lfs.Cas.{fetch_segment-update_segment_with_cas}
use wiredkv.Tests.Sample.{
  sample_hashes, sample_hashes-IsHashes, sample_env, apple, pear, record_of, stocked,
  stocked-WellFormed, stocked-Fits, stocked_state, apple_entry, apple_tombstone,
  apple_tombstone_room,
}

fetch_segment-put_segment_example :
    (fetch_segment sample_env 50 pear (put_segment sample_env pear (record_of pear 2) stocked).1).0
    ≡ ok (0, record_of pear 2)
unfolding inode_num decode active_encryptor active_compressor
fetch_segment-put_segment_example =
    fetch_segment-put_segment sample_env sample_hashes-IsHashes stocked stocked-WellFormed pear
      (record_of pear 2) (stocked-Fits b'p' 2) 50 pear

fetch_segment-delete_segment_example :
    (fetch_segment sample_env 50 apple (delete_segment sample_env 20 apple stocked).1).0
    ≡ err index_not_found
unfolding inode_num
fetch_segment-delete_segment_example =
    fetch_segment-delete_segment sample_env sample_hashes-IsHashes stocked stocked-WellFormed 20
      apple apple_tombstone apple_tombstone_room 50 apple

fetch_segment-update_segment_with_cas_example :
    (fetch_segment sample_env 50 apple
      (update_segment_with_cas sample_env apple 0 (record_of apple 3) stocked).1).0
    ≡ ok (1, record_of apple 3)
unfolding inode_num decode active_encryptor active_compressor
fetch_segment-update_segment_with_cas_example =
    fetch_segment-update_segment_with_cas sample_env sample_hashes-IsHashes stocked
      stocked-WellFormed apple (record_of apple 3) (stocked-Fits b'a' 3) apple_entry stocked_state.2
      50 apple

stale : (n : INode) → find_inode stocked (inode_num sample_hashes apple) ≡ some n → n.mvcc ≢ 7
stale n p = let q = stocked_state.2 in λ e. ground (arith, p, q, e)

-- ===== src/Tests/Collections.antt =====
-- A store with five regions, the oldest with one record.
use wiredkv.Prelude.{◌≡◌, ◌++◌, refl, arith, false, [], ◌∷◌, some}
use wiredkv.Prelude.Map.{lookup}
use wiredkv.Vfs.Hash.{inode_num}
use wiredkv.Vfs.Transformer.{decode, active_encryptor, active_compressor}
use wiredkv.Vfs.Codec.{serialized_segment, header}
use wiredkv.Vfs.Codec.SegmentTrip.{read_segment-serialized_segment}
use wiredkv.Vfs.Disk.{File, contents}
use wiredkv.Vfs.Fs.{LogStructuredFs}
use wiredkv.Vfs.Lfs.{data_file_metadata}
use wiredkv.Vfs.Lfs.Fresh.{new_fs, empty_shards-HasShards}
use wiredkv.Vfs.Recovery.{sorted_ids, insert_id}
use wiredkv.Vfs.Collector.{Held, cleanup_dirty_region, returns}
use wiredkv.Vfs.Collector.Safety.{SameData, cleanup_dirty_region-SameData}
use wiredkv.Vfs.Collector.Never.{HasOldest, cleanup_dirty_region-returns}
use wiredkv.Tests.Sample.{
  sample_hashes, sample_hashes-IsHashes, sample_env, apple, record_of, record_of-IsSegment,
}

abbrev oldest : File
oldest = b'1' ∷ []

abbrev aged : LogStructuredFs
aged =
    record (new_fs [] (record {
      files =
          (
            oldest,
            data_file_metadata ++ (serialized_segment sample_hashes (record_of apple 1) ++ []),
          )
          ∷ [];
      outcomes = [];
    })) { regions = (1, oldest) ∷ (2, []) ∷ (3, []) ∷ (4, []) ∷ (5, []) ∷ [] }

abbrev idle : Held
idle = record { fs = aged; mu = false }

aged-HasOldest : HasOldest sample_env aged
unfolding new_fs sorted_ids insert_id lookup contents decode active_encryptor active_compressor
    serialized_segment header
aged-HasOldest = record {
  id = 1;
  ids = 2 ∷ 3 ∷ 4 ∷ 5 ∷ [];
  file = oldest;
  inum = inode_num sample_hashes apple;
  seg = record_of apple 1;
  sorted = refl;
  region = refl;
  first =
      read_segment-serialized_segment sample_hashes sample_env.transformer sample_hashes-IsHashes
        (record_of apple 1) (record_of-IsSegment b'a' 1) data_file_metadata [];
  nonempty = omega arith;
}

cleanup_dirty_region-returns_example :
    returns (cleanup_dirty_region sample_env 50 some 100 idle).0 ≡ false
unfolding new_fs
cleanup_dirty_region-returns_example =
    cleanup_dirty_region-returns sample_env 50 some 100 idle refl (omega arith) refl refl
      empty_shards-HasShards aged-HasOldest

cleanup_dirty_region-SameData_example :
    SameData aged (cleanup_dirty_region sample_env 50 some 100 idle).1.fs
cleanup_dirty_region-SameData_example = cleanup_dirty_region-SameData sample_env 50 some 100 idle

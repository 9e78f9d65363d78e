-- ===== src/Tests/Faults.antt =====
-- Writes that fail, at a concrete store.
use wiredkv.Prelude.{
  ℕ, ◌≡◌, arith, [], ◌∷◌, ◌⊎◌, Error, Result, err, version_conflict, io_failed, ◌==◌, if◌then◌else◌,
  nat_eq,
}
use wiredkv.Prelude.Bytes.{Bytes}
use wiredkv.Vfs.Hash.{inode_num}
use wiredkv.Vfs.Segment.{Segment}
use wiredkv.Vfs.Disk.{short, failed}
use wiredkv.Vfs.Fs.{LogStructuredFs}
use wiredkv.Vfs.Lfs.{put_segment, fetch_segment, update_segment_with_cas}
use wiredkv.Vfs.Lfs.View.{view_of}
use wiredkv.Vfs.Lfs.Faults.{faulty}
use wiredkv.Vfs.Lfs.Faults.Put.{fetch_segment-put_segment_faulty}
use wiredkv.Vfs.Lfs.Faults.Cas.{update_segment_with_cas_failed, under}
use wiredkv.Tests.Sample.{
  sample_hashes, sample_hashes-IsHashes, sample_env, apple, pear, record_of, stocked,
  stocked-WellFormed, stocked-Fits, stocked_state, apple_entry,
}

-- A put whose record is cut short after five bytes.
fetch_segment-put_segment_faulty_example :
    (((e : Error) × ((put_segment sample_env pear
            (record_of pear 2)
            (faulty (short 5 ∷ []) stocked)).0
          ≡ err e))
      × ((now : ℕ) (key : Bytes)
          → (fetch_segment sample_env now key
              (put_segment sample_env pear (record_of pear 2) (faulty (short 5 ∷ []) stocked)).1).0
            ≡ (fetch_segment sample_env now key stocked).0))
    ⊎ ((now : ℕ) (key : Bytes)
        → (fetch_segment sample_env now key
            (put_segment sample_env pear (record_of pear 2) (faulty (short 5 ∷ []) stocked)).1).0
          ≡ (if inode_num sample_hashes pear == inode_num sample_hashes key
              then view_of sample_env now 0 (record_of pear 2)
              else (fetch_segment sample_env now key stocked).0))
fetch_segment-put_segment_faulty_example =
    fetch_segment-put_segment_faulty sample_env sample_hashes-IsHashes stocked stocked-WellFormed
      pear (record_of pear 2) (stocked-Fits b'p' 2) (short 5 ∷ [])

abbrev failed_update : Result (Unit {0}) × LogStructuredFs
failed_update =
    update_segment_with_cas sample_env apple 0 (record_of apple 3) (faulty (failed ∷ []) stocked)

update_segment_with_cas_failed_example :
    (failed_update.0 ≡ err io_failed)
    × (failed_update.1.disk.files ≡ stocked.disk.files)
    × ((now : ℕ) (key : Bytes)
        → (fetch_segment sample_env now key failed_update.1).0 ≡ (
            if inode_num sample_hashes apple == inode_num sample_hashes key
            then under 1 (fetch_segment sample_env now key stocked).0
            else (fetch_segment sample_env now key stocked).0))
    × ((again : Segment)
        → update_segment_with_cas sample_env apple 0 again failed_update.1
          ≡ (err version_conflict, failed_update.1))
update_segment_with_cas_failed_example =
    update_segment_with_cas_failed sample_env sample_hashes-IsHashes stocked stocked-WellFormed
      apple (record_of apple 3) (stocked-Fits b'a' 3) apple_entry stocked_state.2 [] (omega arith)

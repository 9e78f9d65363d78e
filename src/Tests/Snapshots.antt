-- ===== src/Tests/Snapshots.antt =====
-- A store with one record, closed and opened again.
use wiredkv.Prelude.{◌≡◌, refl, arith, [], ◌∷◌, some, ok, err, Error, true, inr, list_eq}
use wiredkv.Prelude.Map.{lookup}
use wiredkv.Vfs.Disk.{Disk}
use wiredkv.Vfs.Lfs.{index_file_name}
use wiredkv.Vfs.Open.Refused.{open_fs-Refuses}
use wiredkv.Vfs.Hash.{inode_num}
use wiredkv.Vfs.Lfs.Refinement.{Records, Represents, replace, put, exec, spec}
use wiredkv.Vfs.Lfs.Refinement.Step.{exec-Refines}
use wiredkv.Vfs.Lfs.Refinement.Sequence.{no_records}
use wiredkv.Vfs.Snapshot.Reopened.{reset_records}
use wiredkv.Vfs.Open.{Options, open_fs, close_fs}
use wiredkv.Vfs.Open.Reopened.{Opens, open_fs-close_fs}
use wiredkv.Tests.Sample.{
  sample_hashes, sample_hashes-IsHashes, sample_env, new_store, new_store-WellFormed,
  new_store-Represents, stocked, stocked-WellFormed, stocked_state, apple, record_of,
  record_of-Fits,
}

abbrev stocked_records : Records
stocked_records = replace (inode_num sample_hashes apple) (some (0, record_of apple 1)) no_records

stocked-Represents : Represents sample_env stocked stocked_records
unfolding exec spec
stocked-Represents =
    (exec-Refines sample_env sample_hashes-IsHashes new_store new_store-WellFormed no_records
      new_store-Represents (put apple (record_of apple 1)) (record_of-Fits b'a' 1)).2

abbrev sample_options : Options
sample_options = record { path = []; threshold = 1 }

open_fs-close_fs_example :
    ((close_fs sample_env stocked).0 ≡ ok tt)
    × Opens sample_env 50 sample_options
        (close_fs sample_env stocked).1.disk
        (reset_records stocked_records)
open_fs-close_fs_example =
    open_fs-close_fs sample_env 50 sample_options stocked stocked_records sample_hashes-IsHashes
      stocked-WellFormed stocked-Represents (omega (arith, stocked_state.1))

abbrev foreign : Disk
foreign = record { files = (index_file_name, 1 ∷ 2 ∷ []) ∷ []; outcomes = [] }

open_fs-Refuses_example :
    (e : Error) × (open_fs sample_env 50 true sample_options foreign ≡ (err e, foreign))
unfolding lookup
open_fs-Refuses_example =
    open_fs-Refuses foreign refl index_file_name (1 ∷ 2 ∷ []) refl refl sample_env 50 sample_options
      (inr refl)

-- ===== src/Vfs/Open/Empty.antt =====
-- Opening a directory that is new or empty.
use wiredkv.Prelude.{ℕ, ◌≡◌, refl, arith, [], ok, Bool, true, false, list_eq, nat_eq, ==-self}
use wiredkv.Prelude.Map.{lookup, insert}
use wiredkv.Vfs.FileName.{format_data_file_name}
use wiredkv.Vfs.Disk.{Disk, contents, is_exist, sorted_names, read_dir}
use wiredkv.Vfs.Disk.Laws.{IsHealthy}
use wiredkv.Vfs.Fs.{fresh_env, Env, LogStructuredFs, ◌>>=◌, ◌>>◌}
use wiredkv.Vfs.Lfs.{data_file_metadata, index_file_name}
use wiredkv.Vfs.Lfs.Runs.{with_region}
use wiredkv.Vfs.Lfs.Fresh.{new_fs, first_run, first_region, nothing_found, with_region-new_fs}
use wiredkv.Vfs.Lfs.WellFormed.{WellFormed}
use wiredkv.Vfs.Lfs.Refinement.{Represents}
use wiredkv.Vfs.Lfs.Refinement.Sequence.{no_records}
use wiredkv.Vfs.Recovery.{
  crash_recovery_all_index, scan_regions, scan_region, sorted_ids, insert_id,
}
use wiredkv.Vfs.Snapshot.{recovery_index}
use wiredkv.Vfs.Open.{
  Options, check_file_system, check_files, recover_regions, open_regions, resume_newest, open_fs,
}
use wiredkv.Vfs.Open.Directory.{checked_healthy}
use wiredkv.Vfs.Open.Reopened.{index-other}

module _ (env : Env) (now : ℕ) (opt : Options) (d : Disk) (healthy : IsHealthy d)
    (empty : d.files ≡ []) where
  abbrev pub first_store : LogStructuredFs
  first_store = with_region 1 (new_fs opt.path d)

  no_names : sorted_names d.files ≡ []
  unfolding sorted_names
  no_names = rw empty refl

  check_run : (made : Bool) → check_file_system made d ≡ (ok tt, d)
  unfolding check_file_system check_files read_dir sorted_names
  check_run true = rw (checked_healthy (λ e. sorted_names e.files) d healthy, empty) refl
  check_run false =
      rw (checked_healthy (λ e. tt) d healthy)
        (rw (checked_healthy (λ e. sorted_names e.files) d healthy, empty) refl)

  regions_run : recover_regions env (new_fs opt.path d) ≡ (ok tt, first_store)
  unfolding recover_regions read_dir open_regions resume_newest sorted_ids new_fs ◌>>=◌ ◌>>◌
  regions_run =
      rw (checked_healthy (λ e. sorted_names e.files) d healthy, no_names)
        (first_run opt.path d healthy)

  no_snapshot : is_exist index_file_name first_store.disk ≡ false
  unfolding is_exist
  no_snapshot =
      rw (first_region opt.path d env healthy empty index_file_name, index-other 1 (omega arith))
        refl

  first_text : contents (format_data_file_name 1) first_store.disk ≡ data_file_metadata
  unfolding contents
  first_text =
      rw (first_region opt.path d env healthy empty (format_data_file_name 1))
        (rw (==-self (format_data_file_name 1)) refl)

  crash_run : crash_recovery_all_index (fresh_env env) now first_store ≡ ok first_store.indexs
  unfolding crash_recovery_all_index scan_regions scan_region sorted_ids insert_id insert lookup
      new_fs
  crash_run = rw first_text refl

  -- A directory that is new, or empty, is opened on a disk without planned faults, as a store that
  -- satisfies the invariant and has no records.
  pub open_fs-WellFormed :
      (made : Bool)
      → (open_fs env now made opt d ≡ (ok first_store, first_store.disk))
        × WellFormed env first_store
        × Represents env first_store no_records
  unfolding open_fs recovery_index ◌>>◌
  open_fs-WellFormed made = (
    rw (check_run made, regions_run) (rw (no_snapshot, crash_run) refl),
    with_region-new_fs opt.path d env healthy empty,
    record { each = λ inum. rw (nothing_found opt.path d inum) tt },
  )

-- ===== src/Vfs/Open/Reopened.antt =====
-- Closing a store and opening its directory again.
use mathlib.Core.Path.{subst}
use wiredkv.Prelude.{
  ℕ, ◌+◌, ◌^◌, ◌<◌, ◌≡◌, refl, sym, ap, ◌∙◌, arith, ◌++◌, [], ◌∷◌, some, ok, true, false, ◌==◌,
  list_eq, Bool-cases, inl, inr, nat_eq, leb, ==→≡, list_beq_iff,
}
use wiredkv.Prelude.Map.{Map, lookup}
use wiredkv.Vfs.Hash.{IsHashes}
use wiredkv.Vfs.FileName.{format_data_file_name}
use wiredkv.Vfs.Disk.{File, Disk}
use wiredkv.Vfs.Disk.Laws.{IsHealthy}
use wiredkv.Vfs.Fs.{Env, LogStructuredFs, ◌>>◌}
use wiredkv.Vfs.Lfs.{data_file_metadata, index_file_name}
use wiredkv.Vfs.Lfs.Stored.{Extends, Extends-trans}
use wiredkv.Vfs.Lfs.WellFormed.{WellFormed}
use wiredkv.Vfs.Lfs.Rotated.{rotated, rotated-WellFormed, rotated-Extends, lookup-with_region}
use wiredkv.Vfs.Lfs.Fresh.{new_fs}
use wiredkv.Vfs.Lfs.Refinement.{Records, Represents}
use wiredkv.Vfs.Snapshot.{export_snapshot_index}
use wiredkv.Vfs.Snapshot.Entries.{entries}
use wiredkv.Vfs.Snapshot.Export.{laid_entries, export_snapshot_index-Exports}
use wiredkv.Vfs.Snapshot.Reopened.{reset_records, index_file_name-other, recovery_index-Reopens}
use wiredkv.Vfs.Snapshot.Exported.{exported_fs, exported-WellFormed, exported-Represents}
use wiredkv.Vfs.Open.{Options, flush_regions, flush_to_disk, close_fs, open_fs}
use wiredkv.Vfs.Open.Directory.{checked_healthy, check_file_system_passes}
use wiredkv.Vfs.Open.Trip.{continued, recover_regions_run, continued-WellFormed, continued-Extends}

flush_regions_run : (m : Map ℕ File) (d : Disk) → IsHealthy d → flush_regions m d ≡ (ok tt, d)
unfolding flush_regions flush_to_disk
flush_regions_run [] d h = refl
flush_regions_run ((id, fd) ∷ m) d h =
    rw (checked_healthy (λ d'. tt) d h)
      (rw (checked_healthy (λ d'. tt) d h) (flush_regions_run m d h))

close_fs_run :
    (env : Env) (s : LogStructuredFs)
    → IsHealthy s.disk
    → close_fs env s ≡ export_snapshot_index env s
unfolding close_fs
close_fs_run env s h = rw (flush_regions_run s.regions s.disk h) refl

pub index-other : (id : ℕ) → id < 10 ^ 9 → (format_data_file_name id == index_file_name) ≡ false
index-other id small = elim (Bool-cases (format_data_file_name id == index_file_name)) [
  | inl same ↦
      let e : format_data_file_name id ≡ index_file_name = ==→≡ _ _ same in
      let mirrored : (index_file_name == format_data_file_name id) ≡ true =
        (list_beq_iff index_file_name (format_data_file_name id)).1 (sym e) in
      let no = index_file_name-other id small in cc
  | inr other ↦ other
]

-- A new region is another file than the index snapshot.
pub index-rotated :
    (env : Env) (s : LogStructuredFs)
    → WellFormed env s
    → s.region_id + 1 < 10 ^ 9
    → lookup index_file_name (rotated env s).disk.files ≡ lookup index_file_name s.disk.files
index-rotated env s w small = elim (Bool-cases (leb env.region_threshold s.offset)) [
  | inl full ↦
      let id = s.region_id + 1 in
      let other = index-other id small in
      rw full
        (lookup-with_region s id index_file_name (w.fresh id (omega arith) small) ∙ rw other refl)
  | inr room ↦ rw room refl
]

pub rotated_indexs : (env : Env) (s : LogStructuredFs) → (rotated env s).indexs ≡ s.indexs
rotated_indexs env s = elim (Bool-cases (leb env.region_threshold s.offset)) [
  | inl full ↦ rw full refl
  | inr room ↦ rw room refl
]

-- What an opened store is.
pub record Opens (env : Env) (now : ℕ) (opt : Options) (d : Disk) (m : Records) : Type 0 where
  pub opened : LogStructuredFs
  pub returned : open_fs env now true opt d ≡ (ok opened, opened.disk)
  pub well_formed : WellFormed env opened
  pub represents : Represents env opened m

module _ (env : Env) (hv : IsHashes env.hashes) (now : ℕ) (opt : Options) (s : LogStructuredFs)
    (m : Records) (w : WellFormed env s) (rep : Represents env s m)
    (small : s.region_id + 1 < 10 ^ 9) where
  -- The directory of a well-formed store, with its snapshot in it, is opened.
  open_fs-Opens :
      lookup index_file_name s.disk.files
        ≡ some (data_file_metadata ++ laid_entries env.hashes (entries s.indexs))
      → Opens env now opt s.disk (reset_records m)
  unfolding open_fs ◌>>◌ new_fs
  open_fs-Opens at =
      let t0 = continued env s w opt.path small in
      let w0 = continued-WellFormed env s w opt.path small in
      let t = rotated env t0 in
      let wt : WellFormed env t = rotated-WellFormed env t0 w0 small in
      let e : Extends s t =
        Extends-trans (continued-Extends env s w opt.path small)
          (rotated-Extends env t0 w0 small) in
      let back =
        recovery_index-Reopens env now s t m hv w rep wt e (index-rotated env t0 w0 small ∙ at)
          (rotated_indexs env t0) in
      record {
        opened = record t { indexs = back.indexs };
        returned =
            rw
              (
                check_file_system_passes s.disk w.healthy w.headed,
                recover_regions_run env s w opt.path small,
                back.recovered,
              )
              refl;
        well_formed = back.well_formed;
        represents = back.represents;
      }

-- Let a store satisfy the invariant and stand for a map of records, and let there be room for one
-- more region. Then it is closed without an error; and the directory that it leaves is opened without
-- an error, as a store that satisfies the invariant and stands for the same map with all versions at
-- 0.
pub open_fs-close_fs :
    (env : Env) (now : ℕ) (opt : Options) (s : LogStructuredFs) (m : Records)
    → IsHashes env.hashes
    → WellFormed env s
    → Represents env s m
    → s.region_id + 1 < 10 ^ 9
    → ((close_fs env s).0 ≡ ok tt) × Opens env now opt (close_fs env s).1.disk (reset_records m)
open_fs-close_fs env now opt s m hv w rep small =
    let x = export_snapshot_index-Exports env s w.shards w.healthy in
    let closed = close_fs_run env s w.healthy ∙ x.returned in
    (
      ap (λ r. r.0) closed,
      subst (λ r. Opens env now opt r.1.disk (reset_records m)) (sym closed)
          (open_fs-Opens env hv now opt (exported_fs env s w x) m (exported-WellFormed env s w x)
            (exported-Represents env s w x m rep) small x.text),
    )

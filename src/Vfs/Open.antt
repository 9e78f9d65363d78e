-- ===== src/Vfs/Open.antt =====
-- Opening and closing a store: checkFileSystem, validateFileHeader, recoverRegions, OpenFS and CloseFS
-- of vfs/lfs.go.
pub mod Directory
pub mod Regions
pub mod Newest
pub mod Trip
pub mod Reopened
pub mod Refused
pub mod Empty
pub mod Session
pub mod Crashed
pub mod Broken
pub mod Torn
use wiredkv.Prelude.{
  ℕ, ◌-◌, ◌*◌, Bool, ◌&&◌, List, [], ◌∷◌, Option, none, some, Result, ok, err, eof, bad_header,
  region_not_found, nat_beq, leb, list_beq, length, take, drop, if◌then◌else◌, nat_eq, list_eq,
  ◌==◌,
}
use wiredkv.Prelude.Bytes.{Bytes}
use wiredkv.Prelude.Map.{Map, lookup, insert}
use wiredkv.Vfs.Hash.{Hashes}
use wiredkv.Vfs.Transformer.{Transformer}
use wiredkv.Vfs.FileName.{file_extension, starts_with_zero, parse_data_file_name}
use wiredkv.Vfs.Disk.{File, Disk, contents, checked, file_length, and_then, read_dir, open_existing}
use wiredkv.Vfs.Fs.{Env, LogStructuredFs, fresh_env, Fs, ◌>>=◌, ◌>>◌, lift, gets, modify, on_disk}
use wiredkv.Vfs.Lfs.{index_file_name, create_active_region, data_file_metadata, done}
use wiredkv.Vfs.Lfs.Fresh.{new_fs}
use wiredkv.Vfs.Recovery.{sorted_ids}
use wiredkv.Vfs.Snapshot.{recovery_index, export_snapshot_index}

-- `path` and `threshold`; the permissions are not modelled.
pub record Options : Type 0 where
  pub path : Bytes
  pub threshold : ℕ

abbrev pub gb : ℕ
gb = 1_073_741_824

abbrev pub has_suffix : Bytes → Bytes → Bool
has_suffix s suffix = list_beq (drop (length s - length suffix) s) suffix

-- !file.IsDir() && strings.HasSuffix(...) and strings.HasPrefix(file.Name(), "0")
unfoldable pub is_region_name : File → Bool
is_region_name name = has_suffix name file_extension && starts_with_zero name

-- Read of four bytes: an empty file is at its end.
unfoldable pub validate_file_header : Bytes → Result (Unit {0})
validate_file_header [] = err eof
validate_file_header (b ∷ bs) =
    if nat_beq (length (take 4 (b ∷ bs))) (length data_file_metadata)
    then if list_beq (take 4 (b ∷ bs)) data_file_metadata then ok tt else err bad_header
    else err bad_header

abbrev pub check_file : File → Disk → Result (Unit {0}) × Disk
check_file name d =
    and_then (open_existing name d)
      (λ fd d'. and_then (checked (contents fd) d') (λ text d''. (validate_file_header text, d'')))

abbrev pub check_file_if : Bool → File → Disk → Result (Unit {0}) × Disk
check_file_if wanted name d = if wanted then check_file name d else (ok tt, d)

unfoldable pub check_entry : File → Disk → Result (Unit {0}) × Disk
check_entry name d =
    and_then (check_file_if (is_region_name name) name d)
      (λ u. check_file_if (name == index_file_name) name)

unfoldable pub check_files : List File → Disk → Result (Unit {0}) × Disk
check_files [] d = (ok tt, d)
check_files (name ∷ names) d = and_then (check_entry name d) (λ u. check_files names)

-- `made` says whether the directory is there.
unfoldable pub check_file_system : Bool → Disk → Result (Unit {0}) × Disk
check_file_system made d =
    and_then (if made then (ok tt, d) else checked (λ d. tt) d)
      (λ u d'. and_then (read_dir d') check_files)

abbrev pub recover_region : File → Fs (Unit {0})
recover_region name = do
  fd ← on_disk (open_existing name)
  region_id ← lift (parse_data_file_name name)
  modify (λ s. record s { regions = insert region_id fd s.regions })

-- The loop over the directory.
unfoldable pub open_regions : List File → Fs (Unit {0})
open_regions [] = done
open_regions (name ∷ names) = do
  if is_region_name name then recover_region name else done
  open_regions names

abbrev pub last_id : ℕ → List ℕ → ℕ
last_id n [] = n
last_id n (k ∷ ks) = last_id k ks

-- The newest region goes on unless it is full.
unfoldable pub resume_region : Env → Option File → Fs (Unit {0})
resume_region env none = lift (err region_not_found)
resume_region env (some active) = do
  size ← on_disk (file_length active)
  if leb env.region_threshold size then create_active_region else do
    offset ← on_disk (file_length active)
    modify (λ s. record s { active = some active; offset = offset })

unfoldable pub resume_newest : Env → List ℕ → Fs (Unit {0})
resume_newest env [] = create_active_region
resume_newest env (id ∷ ids) = do
  modify (λ s. record s { region_id = last_id id ids })
  active ← gets (λ s. lookup s.region_id s.regions)
  resume_region env active

unfoldable pub recover_regions : Env → Fs (Unit {0})
recover_regions env = do
  names ← on_disk read_dir
  open_regions names
  ids ← gets (λ s. sorted_ids s.regions)
  resume_newest env ids

-- int64(opt.Threshold) * GB is what the later operations compare with.
abbrev pub env_of : Hashes → Transformer → Options → Env
env_of hashes transformer opt = record {
  hashes = hashes;
  transformer = transformer;
  region_threshold = opt.threshold * gb;
}

abbrev pub opened_or_nil : Result (Unit {0}) × LogStructuredFs → Result LogStructuredFs × Disk
opened_or_nil (ok u, s) = (ok s, s.disk)
opened_or_nil (err e, s) = (err e, s.disk)

unfoldable pub open_fs : Env → ℕ → Bool → Options → Disk → Result LogStructuredFs × Disk
open_fs env now made opt d = and_then (check_file_system made d) (λ u d'.
    opened_or_nil
      ((recover_regions env >> recovery_index (fresh_env env) now) (new_fs opt.path d')))

-- utils.FlushToDisk: Sync, then Close.
unfoldable pub flush_to_disk : File → Disk → Result (Unit {0}) × Disk
flush_to_disk fd d = and_then (checked (λ d. tt) d) (λ u. checked (λ d. tt))

unfoldable pub flush_regions : Map ℕ File → Disk → Result (Unit {0}) × Disk
flush_regions [] d = (ok tt, d)
flush_regions ((id, fd) ∷ m) d = and_then (flush_to_disk fd d) (λ u. flush_regions m)

-- The snapshot is exported whether or not the regions are flushed.
abbrev pub exported_after :
    Env → Result (Unit {0}) × LogStructuredFs → Result (Unit {0}) × LogStructuredFs
exported_after env (ok u, s) = export_snapshot_index env s
exported_after env (err e, s) = (err e, (export_snapshot_index env s).1)

unfoldable pub close_fs : Env → Fs (Unit {0})
close_fs env s = exported_after env (on_disk (flush_regions s.regions) s)

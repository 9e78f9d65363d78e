-- ===== src/Vfs/Open/Trip.antt =====
-- A store that was closed is opened again with the same records.
use mathlib.Core.List.{append-nil}
use wiredkv.Prelude.{
  ℕ, ◌+◌, ◌^◌, ◌<◌, ◌≡◌, refl, sym, ap, ◌∙◌, List, [], ◌∷◌, some, ok, nat_eq, list_eq, All, inl,
  inr,
}
use wiredkv.Prelude.Bytes.{Bytes}
use wiredkv.Prelude.Map.{lookup}
use wiredkv.Vfs.Disk.{File, contents, sorted_names, read_dir}
use wiredkv.Vfs.Fs.{Env, LogStructuredFs, ◌>>=◌, ◌>>◌}
use wiredkv.Vfs.Lfs.Stored.{Extends}
use wiredkv.Vfs.Lfs.WellFormed.{WellFormed}
use wiredkv.Vfs.Lfs.Rotated.{rotated}
use wiredkv.Vfs.Lfs.Fresh.{new_fs, empty_shards-HasShards, empty_shards-IsPlaced, found_in_empty}
use wiredkv.Vfs.Recovery.Order.{IsDistinct}
use wiredkv.Vfs.Open.{recover_regions, open_regions}
use wiredkv.Vfs.Open.Directory.{checked_healthy, IsThere, sorted_names-All, sorted_names-IsListed}
use wiredkv.Vfs.Open.Regions.{IsKnown, Registers, open_regions-Registers}
use wiredkv.Vfs.Open.Newest.{resumed, resume_newest-rotated}

module _ (env : Env) (s : LogStructuredFs) (w : WellFormed env s) (path : Bytes)
    (small : s.region_id + 1 < 10 ^ 9) where
  abbrev pub fresh_fs : LogStructuredFs
  fresh_fs = new_fs path s.disk

  names-IsKnown : (fs : List File) → All (IsThere s.disk.files) fs → All (IsKnown s.regions) fs
  names-IsKnown [] a = tt
  names-IsKnown (f ∷ fs) ((b, p), a) = (w.known f b p, names-IsKnown fs a)

  pub registers :
      Registers s.regions
        (sorted_names s.disk.files)
        fresh_fs
        (open_regions (sorted_names s.disk.files) fresh_fs)
  unfolding new_fs lookup IsDistinct
  registers =
      open_regions-Registers s.regions w.named (sorted_names s.disk.files) fresh_fs w.healthy
        (sorted_names-All s.disk.files)
        (names-IsKnown (sorted_names s.disk.files) (sorted_names-All s.disk.files)) (λ id f p. cc)
        tt

  pub found_region :
      (id : ℕ) (f : File) → lookup id s.regions ≡ some f → lookup id registers.regions ≡ some f
  found_region id f p =
      registers.complete id f p (inl (sorted_names-IsListed f s.disk.files (w.present id f p)))

  -- The store after the newest region was made active.
  abbrev pub continued : LogStructuredFs
  continued =
      resumed w.file (record fresh_fs { regions = registers.regions; region_id = s.region_id })

  pub recover_regions_run : recover_regions env fresh_fs ≡ (ok tt, rotated env continued)
  unfolding recover_regions read_dir ◌>>=◌ ◌>>◌ new_fs
  recover_regions_run =
      rw (checked_healthy (λ d. sorted_names d.files) s.disk w.healthy, registers.returned)
        (resume_newest-rotated env s.region_id w.file
          (record fresh_fs { regions = registers.regions }) w.healthy small
          (found_region s.region_id w.file w.current)
          (λ id g p. w.below id g (registers.sound id g p)))

  pub continued-WellFormed : WellFormed env continued
  unfolding new_fs contents
  continued-WellFormed = record {
    shards = empty_shards-HasShards;
    placed = empty_shards-IsPlaced;
    healthy = w.healthy;
    file = w.file;
    text = w.text;
    active = refl;
    current = found_region s.region_id w.file w.current;
    written = w.written;
    offset_is = rw w.written refl;
    below = λ id f p. w.below id f (registers.sound id f p);
    named = λ id f p. w.named id f (registers.sound id f p);
    fresh = w.fresh;
    headed = w.headed;
    known = λ f b p. elim (w.known f b p) [
      | inl is_index ↦ inl is_index
      | inr (id, q) ↦ inr (id, found_region id f q)
    ];
    present = λ id f p. w.present id f (registers.sound id f p);
    stored = λ inum n p. let q = found_in_empty continued refl inum in cc;
  }

  pub continued-Extends : Extends s continued
  unfolding new_fs
  continued-Extends = record {
    regions = found_region;
    files = λ f c p. ([], p ∙ ap some (sym (append-nil c)));
  }

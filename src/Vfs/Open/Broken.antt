-- ===== src/Vfs/Open/Broken.antt =====
-- Opening a directory where the newest region ends in bytes that vfs/lfs.go cannot read as a record.
use mathlib.Core.Path.{subst}
use wiredkv.Prelude.{
  ℕ, ◌+◌, ◌^◌, ◌<◌, ◌≡◌, ◌⊎◌, refl, sym, ◌∙◌, arith, List, [], true, none, some, err, Error,
  list_eq, nat_eq, ==-self, ==→≡, Bool-cases, inl, inr, leb, ◌==◌, list_beq_iff,
}
use wiredkv.Prelude.Bytes.{Bytes}
use wiredkv.Prelude.Map.{lookup, lookup-insert, lookup-insert_self}
use wiredkv.Vfs.Lfs.Refinement.Switched.{WellFormed-switched, Represents-switched}
use wiredkv.Vfs.Transformer.{new_transformer}
use wiredkv.Vfs.Hash.{IsHashes}
use wiredkv.Vfs.Segment.{Segment}
use wiredkv.Vfs.FileName.{format_data_file_name}
use wiredkv.Vfs.Disk.{File, is_exist, append_file}
use wiredkv.Vfs.Fs.{fresh_env, Env, LogStructuredFs, ◌>>◌}
use wiredkv.Vfs.Lfs.{index_file_name}
use wiredkv.Vfs.Lfs.Runs.{with_region}
use wiredkv.Vfs.Lfs.WellFormed.{WellFormed}
use wiredkv.Vfs.Lfs.Rotated.{rotated, rotated-WellFormed, lookup-with_region}
use wiredkv.Vfs.Lfs.Fresh.{new_fs, found_in_empty}
use wiredkv.Vfs.Lfs.Refinement.{Represents}
use wiredkv.Vfs.Lfs.Refinement.Sequence.{no_records}
use wiredkv.Vfs.Recovery.{sorted_ids, crash_recovery_all_index}
use wiredkv.Vfs.Recovery.Regions.{IsLaidOut}
use wiredkv.Vfs.Recovery.Stops.{Breaks, scan_regions-Breaks}
use wiredkv.Vfs.Recovery.Order.{HasRegion, All-step, sorted_ids-All, sorted_ids-IsOneOf}
use wiredkv.Vfs.Snapshot.{recovery_index}
use wiredkv.Vfs.Open.{Options, open_fs}
use wiredkv.Vfs.Open.Directory.{check_file_system_passes}
use wiredkv.Vfs.Open.Trip.{
  continued, registers, found_region, recover_regions_run, continued-WellFormed,
}
use wiredkv.Vfs.Open.Reopened.{index-rotated, rotated_indexs}

-- The regions of `s` are those of `t`, with the same files, and `t` may have more.
record Keeps (s t : LogStructuredFs) : Type 0 where
  regions : (id : ℕ) (f : File) → lookup id s.regions ≡ some f → lookup id t.regions ≡ some f
  files : (f : File) (c : Bytes) → lookup f s.disk.files ≡ some c → lookup f t.disk.files ≡ some c

IsLaidOut-Keeps :
    (env : Env) (s t : LogStructuredFs) (id : ℕ) (segs : List Segment)
    → Keeps s t
    → IsLaidOut env s id segs
    → IsLaidOut env t id segs
IsLaidOut-Keeps env s t id segs k l = record {
  file = l.file;
  region = k.regions id l.file l.region;
  text = k.files l.file _ l.text;
  small = l.small;
  readable = l.readable;
}

Breaks-Keeps :
    (env : Env) (s t : LogStructuredFs) (id : ℕ) (segs : List Segment) (e : Error)
    → Keeps s t
    → Breaks env s id segs e
    → Breaks env t id segs e
Breaks-Keeps env s t id segs e k b = record {
  file = b.file;
  rest = b.rest;
  region = k.regions id b.file b.region;
  text = k.files b.file _ b.text;
  small = b.small;
  readable = b.readable;
  more = b.more;
  broken = b.broken;
}

module _ (env : Env) (s : LogStructuredFs) (w : WellFormed env s)
    (small : s.region_id + 1 < 10 ^ 9) where
  abbrev next_id : ℕ
  next_id = s.region_id + 1

  absent : lookup (format_data_file_name next_id) s.disk.files ≡ none
  absent = w.fresh next_id (omega arith) small

  with_region-Keeps : Keeps s (with_region next_id s)
  with_region-Keeps = record {
    regions = λ id f p. rw lookup-insert (ground (arith, w.below id f p));
    files = λ f c p.
        lookup-with_region s next_id f absent
        ∙ ground (arith, absent, p, list_beq_iff (format_data_file_name next_id) f);
  }

  rotated-Keeps : Keeps s (rotated env s)
  rotated-Keeps = elim (Bool-cases (leb env.region_threshold s.offset)) [
    | inl full ↦ rw full with_region-Keeps
    | inr room ↦ rw room (record { regions = λ id f p. p; files = λ f c p. p })
  ]

  -- What is found afterwards was there before, or is new and without records.
  with_region-found :
      (id : ℕ) (f : File)
      → lookup id (with_region next_id s).regions ≡ some f
      → (lookup id s.regions ≡ some f)
        ⊎ ((s.region_id < id) × IsLaidOut (fresh_env env) (with_region next_id s) id [])
  unfolding append_file
  with_region-found id f p = elim (Bool-cases (next_id == id)) [
    | inl same ↦
        let name = format_data_file_name next_id in
        let e = ==→≡ next_id id same in
        inr (
          omega (arith, e),
          subst (λ k. IsLaidOut (fresh_env env) (with_region next_id s) k []) e
              (record {
                file = name;
                region = lookup-insert_self next_id name s.regions;
                text = lookup-with_region s next_id name absent ∙ rw (==-self name) refl;
                small = omega arith;
                readable = tt;
              }),
        )
    | inr other ↦
        let q = sym (lookup-insert next_id id (format_data_file_name next_id) s.regions) ∙ p in
        inl (rw other at q)
  ]

  rotated-found :
      (id : ℕ) (f : File)
      → lookup id (rotated env s).regions ≡ some f
      → (lookup id s.regions ≡ some f)
        ⊎ ((s.region_id < id) × IsLaidOut (fresh_env env) (rotated env s) id [])
  rotated-found id f p = elim (Bool-cases (leb env.region_threshold s.offset)) [
    | inl full ↦ rw full (with_region-found id f (rw full at p))
    | inr room ↦ inl (rw room at p)
  ]

module _ (env : Env) (hv : IsHashes env.hashes) (later : ℕ) (opt : Options) (s : LogStructuredFs)
    (w : WellFormed env s) (small : s.region_id + 1 < 10 ^ 9) (segs_of : ℕ → List Segment)
    (unborn : (id : ℕ) → s.region_id < id → segs_of id ≡ [])
    (laid : (id : ℕ) (f : File)
      → lookup id s.regions ≡ some f
      → (id ≡ s.region_id) ⊎ IsLaidOut (fresh_env env) s id (segs_of id))
    (no_index : lookup index_file_name s.disk.files ≡ none) (e : Error)
    (broken : Breaks (fresh_env env) s s.region_id (segs_of s.region_id) e) where
  abbrev t0 : LogStructuredFs
  t0 = continued env s w opt.path small

  abbrev t : LogStructuredFs
  t = rotated env t0

  w0 : WellFormed env t0
  w0 = continued-WellFormed env s w opt.path small

  continued-Keeps : Keeps s t0
  unfolding new_fs
  continued-Keeps = record { regions = found_region env s w opt.path small; files = λ f c p. p }

  t-Keeps : Keeps t0 t
  t-Keeps = rotated-Keeps env t0 w0 small

  t-Breaks : Breaks (fresh_env env) t s.region_id (segs_of s.region_id) e
  t-Breaks =
      Breaks-Keeps (fresh_env env) t0 t s.region_id (segs_of s.region_id) e t-Keeps (
        Breaks-Keeps (fresh_env env) s t0 s.region_id (segs_of s.region_id) e continued-Keeps
          broken)

  t-laid :
      (id : ℕ)
      → HasRegion t.regions id
      → (id ≡ s.region_id) ⊎ IsLaidOut (fresh_env env) t id (segs_of id)
  t-laid id (f, p) = elim (rotated-found env t0 w0 small id f p) [
    | inl before ↦ elim (laid id f ((registers env s w opt.path small).sound id f before)) [
      | inl newest ↦ inl newest
      | inr out ↦ inr (
          IsLaidOut-Keeps (fresh_env env) t0 t id (segs_of id) t-Keeps
            (IsLaidOut-Keeps (fresh_env env) s t0 id (segs_of id) continued-Keeps out))
    ]
    | inr (above, out) ↦ inr (subst (IsLaidOut (fresh_env env) t id) (sym (unborn id above)) out)
  ]

  t-Represents : Represents env t no_records
  unfolding new_fs
  t-Represents = record { each = λ inum. rw (found_in_empty t (rotated_indexs env t0) inum) tt }

  recovery_breaks : crash_recovery_all_index (fresh_env env) later t ≡ err e
  unfolding crash_recovery_all_index
  recovery_breaks =
      scan_regions-Breaks (fresh_env env) hv later t segs_of s.region_id e t-Breaks
        (sorted_ids t.regions) no_records t.indexs
        (sorted_ids-IsOneOf s.region_id t-Breaks.file t.regions t-Breaks.region)
        (All-step (HasRegion t.regions)
          (λ id. (id ≡ s.region_id) ⊎ IsLaidOut (fresh_env env) t id (segs_of id))
          (sorted_ids t.regions) t-laid (sorted_ids-All t.regions))
        (WellFormed-switched new_transformer (rotated-WellFormed env t0 w0 small))
        (Represents-switched new_transformer t-Represents)

  -- The error that the broken record gives is that of the opening.
  pub open_fs-Breaks : (open_fs env later true opt s.disk).0 ≡ err e
  unfolding open_fs recovery_index is_exist ◌>>◌ new_fs
  open_fs-Breaks =
      rw
        (
          check_file_system_passes s.disk w.healthy w.headed,
          recover_regions_run env s w opt.path small,
          index-rotated env t0 w0 small ∙ no_index,
          recovery_breaks,
        )
        refl

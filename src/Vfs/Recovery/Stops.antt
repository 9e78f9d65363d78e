-- ===== src/Vfs/Recovery/Stops.antt =====
-- The recovery of vfs/lfs.go gives up at the first record that it cannot read.
use mathlib.Core.List.{append-nil, append_assoc}
use wiredkv.Prelude.{
  ℕ, zero, suc, ◌<◌, ◌^◌, ◌≡◌, ◌⊎◌, refl, arith, ◌++◌, List, [], ◌∷◌, Option, some, err, Error,
  false, length, length-append, All, leb, inl, inr, nat_eq, list_eq,
}
use wiredkv.Prelude.Bytes.{Bytes}
use wiredkv.Prelude.Map.{lookup}
use wiredkv.Vfs.Hash.{IsHashes, inode_num}
use wiredkv.Vfs.Segment.{Segment}
use wiredkv.Vfs.Codec.{serialized_segment, read_segment, segment_padding}
use wiredkv.Vfs.Disk.{File, contents}
use wiredkv.Vfs.Fs.{Env, LogStructuredFs, IndexMap}
use wiredkv.Vfs.Lfs.{data_file_metadata}
use wiredkv.Vfs.Lfs.WellFormed.{WellFormed}
use wiredkv.Vfs.Lfs.Refinement.{Records, Represents}
use wiredkv.Vfs.Recovery.{scan_region, scan_file, scan_regions}
use wiredkv.Vfs.Recovery.Log.{laid_out, IsReadable, logged, all_logged}
use wiredkv.Vfs.Recovery.Scan.{
  Holds, at_record, next-Holds, read_here, more_to_read, replay-Restores, size_value,
}
use wiredkv.Vfs.Recovery.Regions.{IsLaidOut, scan_file-Restores, length-laid_out}
use wiredkv.Vfs.Recovery.Order.{IsOneOf}

-- The metadata, readable records, and then bytes that are no record.
pub record Breaks (env : Env) (s : LogStructuredFs) (id : ℕ) (segs : List Segment) (e : Error)
    : Type 0 where
  pub file : File
  pub rest : Bytes
  pub region : lookup id s.regions ≡ some file
  pub text :
      lookup file s.disk.files ≡ some (data_file_metadata ++ (laid_out env.hashes segs ++ rest))
  pub small : length (data_file_metadata ++ (laid_out env.hashes segs ++ rest)) < 2 ^ 64
  pub readable : All (IsReadable env.transformer) segs
  pub more : 0 < length rest
  pub broken :
      read_segment env.hashes env.transformer
        (data_file_metadata ++ (laid_out env.hashes segs ++ rest))
        (length (data_file_metadata ++ laid_out env.hashes segs))
        segment_padding
      ≡ err e

module _ (env : Env) (hv : IsHashes env.hashes) (now region_id : ℕ) (f : File) where
  scan_region-Breaks :
      (segs : List Segment) (s : LogStructuredFs) (m : Records) (pre rest file : Bytes) (fuel : ℕ)
      (e : Error)
      → Holds env hv now region_id f s pre segs rest file
      → length segs < fuel
      → WellFormed env s
      → Represents env s m
      → 0 < length rest
      → read_segment env.hashes env.transformer file
          (length (pre ++ laid_out env.hashes segs))
          segment_padding
        ≡ err e
      → scan_region env now region_id file fuel (length pre) s.indexs ≡ err e
  unfolding scan_region
  scan_region-Breaks segs s m pre rest file zero e holds enough w rep more broken =
      absurd (omega arith)
  scan_region-Breaks [] s m pre rest file (suc fuel) e holds enough w rep more broken =
      let go : leb (length file) (length pre) ≡ false =
        rw holds.shape (ground (arith, length-append pre rest, more)) in
      let here : read_segment env.hashes env.transformer file (length pre) segment_padding ≡ err e =
        rw append-nil at broken in
      rw (go, here) refl
  scan_region-Breaks (seg ∷ segs) s m pre rest file (suc fuel) e holds enough w rep more broken =
      let (go, next) = more_to_read env hv now region_id f s pre seg segs rest file holds in
      let inum = inode_num env.hashes seg.key in
      let step =
        replay-Restores env now region_id s m (length pre) inum seg holds.readable.0.value w rep
          (at_record env hv now region_id f s pre seg segs rest file w holds) in
      let later : read_segment env.hashes env.transformer file
            (length ((pre ++ serialized_segment env.hashes seg) ++ laid_out env.hashes segs))
            segment_padding
          ≡ err e =
        rw append_assoc broken in
      let stop =
        scan_region-Breaks segs (record s { indexs = step.indexs }) (logged now inum seg m)
          (pre ++ serialized_segment env.hashes seg) rest file fuel e
          (next-Holds env hv now region_id f s pre seg segs rest file step.indexs holds)
          (omega arith) step.well_formed step.represents more later in
      rw
        (
          go,
          read_here env hv now region_id f s pre seg segs rest file holds,
          step.returned,
          size_value seg holds.readable.0.value,
          next,
        )
        stop

module _ (env : Env) (hv : IsHashes env.hashes) (now : ℕ) (s : LogStructuredFs)
    (segs_of : ℕ → List Segment) (n : ℕ) (e : Error) (b : Breaks env s n (segs_of n) e) where
  scan_file-Breaks :
      (m : Records) (indexs : List (Option IndexMap))
      → WellFormed env (record s { indexs = indexs })
      → Represents env (record s { indexs = indexs }) m
      → scan_file env now s.disk n (lookup n s.regions) indexs ≡ err e
  unfolding contents
  scan_file-Breaks m indexs w rep =
      let file = data_file_metadata ++ (laid_out env.hashes (segs_of n) ++ b.rest) in
      let enough : length (segs_of n) < suc (length file) = omega (
        arith,
        length-laid_out env (segs_of n) b.readable,
        length-append data_file_metadata (laid_out env.hashes (segs_of n) ++ b.rest),
        length-append (laid_out env.hashes (segs_of n)) b.rest,
      ) in
      rw (b.region, b.text)
        (scan_region-Breaks env hv now n b.file (segs_of n) (record s { indexs = indexs }) m
          data_file_metadata b.rest file (suc (length file)) e
          (record {
            region = b.region;
            text = b.text;
            shape = refl;
            small = b.small;
            readable = b.readable;
          })
          enough w rep b.more b.broken)

  -- Where the other regions are readable, the error of the broken one is that of the recovery.
  pub scan_regions-Breaks :
      (ids : List ℕ) (m : Records) (indexs : List (Option IndexMap))
      → IsOneOf n ids
      → All (λ id. (id ≡ n) ⊎ IsLaidOut env s id (segs_of id)) ids
      → WellFormed env (record s { indexs = indexs })
      → Represents env (record s { indexs = indexs }) m
      → scan_regions env now s ids indexs ≡ err e
  unfolding scan_regions
  scan_regions-Breaks [] m indexs one all w rep = absurd one
  scan_regions-Breaks (id ∷ ids) m indexs one (inl same, all) w rep =
      rw (same, scan_file-Breaks m indexs w rep) refl
  scan_regions-Breaks (id ∷ ids) m indexs (inl same) (inr out, all) w rep =
      rw (← same, scan_file-Breaks m indexs w rep) refl
  scan_regions-Breaks (id ∷ ids) m indexs (inr one) (inr out, all) w rep =
      let first = scan_file-Restores env hv now s segs_of id m indexs out w rep in
      rw first.returned (
        scan_regions-Breaks ids (all_logged env.hashes now (segs_of id) m) first.indexs one all
          first.well_formed first.represents)

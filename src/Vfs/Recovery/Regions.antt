-- ===== src/Vfs/Recovery/Regions.antt =====
-- The recovery over all regions, in ascending order of their numbers.
use mathlib.Core.List.{append-nil}
use wiredkv.Prelude.{
  ℕ, suc, ◌^◌, ◌<◌, ◌≤◌, ◌≡◌, refl, sym, ap, arith, ◌++◌, List, [], ◌∷◌, Option, some, leb, nat_eq,
  list_eq, length, length-append, All, Bool-cases, inl, inr, leb→le,
}
use wiredkv.Prelude.Map.{Map, lookup}
use wiredkv.Vfs.Hash.{Hashes, IsHashes}
use wiredkv.Vfs.Segment.{Segment, size}
use wiredkv.Vfs.Codec.{serialized_segment}
use wiredkv.Vfs.Codec.SegmentTrip.{length-serialized_segment}
use wiredkv.Vfs.Disk.{File, contents}
use wiredkv.Vfs.Fs.{Env, LogStructuredFs, IndexMap}
use wiredkv.Vfs.Lfs.{data_file_metadata}
use wiredkv.Vfs.Lfs.WellFormed.{WellFormed}
use wiredkv.Vfs.Lfs.Refinement.{Records, Represents}
use wiredkv.Vfs.Recovery.{insert_id, sorted_ids, scan_file, scan_regions, crash_recovery_all_index}
use wiredkv.Vfs.Recovery.Log.{laid_out, IsReadable, all_logged}
use wiredkv.Vfs.Recovery.Scan.{Restores, scan_region-Restores}

abbrev pub IsAscending : List ℕ → Type 0
IsAscending [] = Unit {0}
IsAscending (n ∷ ns) = All (λ k. n ≤ k) ns × IsAscending ns

pub All-insert_id : (P : ℕ → Type 0) (n : ℕ) (ks : List ℕ) → P n → All P ks → All P (insert_id n ks)
unfolding insert_id
All-insert_id P n [] p ps = (p, tt)
All-insert_id P n (k ∷ ks) p (q, qs) =
    let rest = All-insert_id P n ks p qs in
    elim (Bool-cases (leb n k)) [
      | inl before ↦ rw before (p, (q, qs))
      | inr after ↦ rw after (q, rest)
    ]

at_least_trans : (n k : ℕ) (ks : List ℕ) → n ≤ k → All (λ j. k ≤ j) ks → All (λ j. n ≤ j) ks
at_least_trans n k [] h all = tt
at_least_trans n k (j ∷ ks) h (first, all) = (omega arith, at_least_trans n k ks h all)

insert_id-IsAscending : (n : ℕ) (ks : List ℕ) → IsAscending ks → IsAscending (insert_id n ks)
unfolding insert_id
insert_id-IsAscending n [] h = (tt, tt)
insert_id-IsAscending n (k ∷ ks) (low, h) =
    let rest = insert_id-IsAscending n ks h in
    elim (Bool-cases (leb n k)) [
      | inl before ↦
          let le = leb→le n k before in rw before ((le, at_least_trans n k ks le low), (low, h))
      | inr after ↦ rw after (All-insert_id (λ j. k ≤ j) n ks (ground arith) low, rest)
    ]

-- The regions are replayed from the lowest number to the highest.
pub sorted_ids-IsAscending : (m : Map ℕ File) → IsAscending (sorted_ids m)
unfolding sorted_ids
sorted_ids-IsAscending [] = tt
sorted_ids-IsAscending ((id, f) ∷ m) =
    insert_id-IsAscending id (sorted_ids m) (sorted_ids-IsAscending m)

-- The file of a region is the metadata and these records.
pub record IsLaidOut (env : Env) (s : LogStructuredFs) (id : ℕ) (segs : List Segment) : Type 0 where
  pub file : File
  pub region : lookup id s.regions ≡ some file
  pub text : lookup file s.disk.files ≡ some (data_file_metadata ++ laid_out env.hashes segs)
  pub small : length (data_file_metadata ++ laid_out env.hashes segs) < 2 ^ 64
  pub readable : All (IsReadable env.transformer) segs

abbrev pub regions_logged : Hashes → ℕ → (ℕ → List Segment) → List ℕ → Records → Records
regions_logged h now segs_of [] m = m
regions_logged h now segs_of (id ∷ ids) m =
    regions_logged h now segs_of ids (all_logged h now (segs_of id) m)

-- One round for each byte is enough.
pub length-laid_out :
    (env : Env) (segs : List Segment)
    → All (IsReadable env.transformer) segs
    → length segs ≤ length (laid_out env.hashes segs)
unfolding size
length-laid_out env [] all = omega arith
length-laid_out env (seg ∷ segs) (r, all) = omega (
  arith,
  length-append (serialized_segment env.hashes seg) (laid_out env.hashes segs),
  positive,
  length-laid_out env segs all,
)
  where
    positive : 30 ≤ length (serialized_segment env.hashes seg)
    positive = omega (arith, length-serialized_segment env.hashes seg r.valid, r.valid.size_fits)

module _ (env : Env) (hv : IsHashes env.hashes) (now : ℕ) (s : LogStructuredFs)
    (segs_of : ℕ → List Segment) where
  pub scan_file-Restores :
      (id : ℕ) (m : Records) (indexs : List (Option IndexMap))
      → IsLaidOut env s id (segs_of id)
      → WellFormed env (record s { indexs = indexs })
      → Represents env (record s { indexs = indexs }) m
      → Restores env s
          (all_logged env.hashes now (segs_of id) m)
          (scan_file env now s.disk id (lookup id s.regions) indexs)
  unfolding contents
  scan_file-Restores id m indexs out w rep =
      let file = data_file_metadata ++ laid_out env.hashes (segs_of id) in
      let enough : length (segs_of id) < suc (length file) = omega (
        arith,
        length-laid_out env (segs_of id) out.readable,
        length-append data_file_metadata (laid_out env.hashes (segs_of id)),
      ) in
      let done =
        scan_region-Restores env hv now id out.file (segs_of id) (record s { indexs = indexs }) m
          data_file_metadata file (suc (length file))
          (record {
            region = out.region;
            text = out.text;
            shape =
                ap (λ b. data_file_metadata ++ b)
                  (sym (append-nil (laid_out env.hashes (segs_of id))));
            small = out.small;
            readable = out.readable;
          })
          enough w rep in
      rw (out.region, out.text)
        (record {
          indexs = done.indexs;
          returned = done.returned;
          well_formed = done.well_formed;
          represents = done.represents;
        })

  scan_regions-Restores :
      (ids : List ℕ) (m : Records) (indexs : List (Option IndexMap))
      → All (λ id. IsLaidOut env s id (segs_of id)) ids
      → WellFormed env (record s { indexs = indexs })
      → Represents env (record s { indexs = indexs }) m
      → Restores env s
          (regions_logged env.hashes now segs_of ids m)
          (scan_regions env now s ids indexs)
  unfolding scan_regions
  scan_regions-Restores [] m indexs all w rep = record {
    indexs = indexs;
    returned = refl;
    well_formed = w;
    represents = rep;
  }
  scan_regions-Restores (id ∷ ids) m indexs (out, all) w rep =
      let first = scan_file-Restores id m indexs out w rep in
      let rest =
        scan_regions-Restores ids (all_logged env.hashes now (segs_of id) m) first.indexs all
          first.well_formed first.represents in
      rw first.returned (record {
        indexs = rest.indexs;
        returned = rest.returned;
        well_formed = rest.well_formed;
        represents = rest.represents;
      })

  -- From a store that satisfies the invariant and represents a map, where each region's file is the
  -- metadata and readable records, the recovery after a crash ends without an error, with an index
  -- under which the store satisfies the invariant and represents what the records make of that map
  -- when they are replayed in ascending order of the regions: a tombstone removes its key, a record that has expired at the
  -- time of the recovery changes nothing, and any other is its key's under version 0.
  pub crash_recovery_all_index-Restores :
      (m : Records)
      → All (λ id. IsLaidOut env s id (segs_of id)) (sorted_ids s.regions)
      → WellFormed env s
      → Represents env s m
      → Restores env s
          (regions_logged env.hashes now segs_of (sorted_ids s.regions) m)
          (crash_recovery_all_index env now s)
  unfolding crash_recovery_all_index
  crash_recovery_all_index-Restores m all w rep =
      scan_regions-Restores (sorted_ids s.regions) m s.indexs all w rep

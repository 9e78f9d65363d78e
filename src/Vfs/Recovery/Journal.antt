-- ===== src/Vfs/Recovery/Journal.antt =====
-- What the region files say while a store is in use: replayed after a crash of vfs/lfs.go at the time
-- `later`, their records give the map that the store stands for.
pub mod Added
pub mod Opened
use mathlib.Core.List.{append-nil, append_assoc}
use mathlib.Core.Path.{fun_ext, subst}
use wiredkv.Prelude.{
  ℕ, ◌+◌, ◌^◌, ◌<◌, ◌≤◌, ◌≡◌, ◌≢◌, refl, sym, ap, ◌∙◌, arith, ◌++◌, List, [], ◌∷◌, Option, none,
  some, ok, true, false, list_eq, nat_eq, ◌==◌, if◌then◌else◌, Bool-cases, inl, inr, length,
  length-append, list_beq_iff, nat_beq_iff, ==-self, ==→≡, All, leb,
}
use wiredkv.Prelude.Bytes.{Bytes}
use wiredkv.Prelude.Map.{lookup, insert, lookup-insert, lookup-insert_self}
use wiredkv.Vfs.Hash.{Hashes, inode_num}
use wiredkv.Vfs.Segment.{Segment, size}
use wiredkv.Vfs.Codec.{serialized_segment}
use wiredkv.Vfs.Codec.SegmentTrip.{IsSegment, length-serialized_segment}
use wiredkv.Vfs.FileName.{format_data_file_name}
use wiredkv.Vfs.FileName.RoundTrip.{format_data_file_name-injective}
use wiredkv.Vfs.Disk.{File, append_file}
use wiredkv.Vfs.Fs.{fresh_env, Env, LogStructuredFs, IndexMap, advance}
use wiredkv.Vfs.Lfs.{data_file_metadata, index_file_name}
use wiredkv.Vfs.Lfs.Runs.{with_region}
use wiredkv.Vfs.Lfs.WellFormed.{WellFormed}
use wiredkv.Vfs.Lfs.Rotated.{rotated, lookup-with_region}
use wiredkv.Vfs.Lfs.Append.{grown, lookup-grown}
use wiredkv.Vfs.Lfs.Refinement.{Records}
use wiredkv.Vfs.Lfs.Refinement.Sequence.{no_records}
use wiredkv.Vfs.Recovery.{has_lapsed, sorted_ids}
use wiredkv.Vfs.Recovery.Log.{laid_out, IsReadable, logged, all_logged}
use wiredkv.Vfs.Recovery.Regions.{IsLaidOut, regions_logged}
use wiredkv.Vfs.Recovery.Order.{
  IsOneOf, HasRegion, All-step, IsDistinct, insert-IsDistinct, IsStrict, sorted_ids-IsStrict,
  sorted_ids-IsOneOf, sorted_ids-All, sorted_ids-insert, entries-All,
}
use wiredkv.Vfs.Snapshot.Reopened.{reset_records}
use wiredkv.Vfs.Open.Reopened.{index-other}

-- The record has not expired at that time.
abbrev pub IsLive : ℕ → Option (ℕ × Segment) → Type 0
IsLive later none = Unit {0}
IsLive later (some (version, seg)) = has_lapsed later seg ≡ false

pub record Journal (env : Env) (later : ℕ) (s : LogStructuredFs) (m : Records) : Type 0 where
  pub segs_of : ℕ → List Segment
  pub distinct : IsDistinct s.regions
  pub no_index : lookup index_file_name s.disk.files ≡ none
  pub laid :
      (id : ℕ) (f : File)
      → lookup id s.regions ≡ some f
      → IsLaidOut (fresh_env env) s id (segs_of id)
  pub unborn : (id : ℕ) → s.region_id < id → segs_of id ≡ []
  pub live : (inum : ℕ) → IsLive later (m inum)
  pub replays :
      regions_logged env.hashes later segs_of (sorted_ids s.regions) no_records ≡ reset_records m

pub laid_out-append :
    (h : Hashes) (xs : List Segment) (seg : Segment)
    → laid_out h (xs ++ seg ∷ []) ≡ laid_out h xs ++ serialized_segment h seg
laid_out-append h [] seg = append-nil (serialized_segment h seg)
laid_out-append h (x ∷ xs) seg =
    ap (λ r. serialized_segment h x ++ r) (laid_out-append h xs seg)
    ∙ sym (append_assoc (serialized_segment h x) (laid_out h xs) (serialized_segment h seg))

pub All-append_one :
    {A : Type 0} (P : A → Type 0) (xs : List A) (x : A) → All P xs → P x → All P (xs ++ x ∷ [])
All-append_one P [] x a p = (p, tt)
All-append_one P (y ∷ xs) x (q, a) p = (q, All-append_one P xs x a p)

module _ (h : Hashes) (later : ℕ) where
  pub all_logged-append :
      (xs : List Segment) (seg : Segment) (m : Records)
      → all_logged h later (xs ++ seg ∷ []) m
        ≡ logged later (inode_num h seg.key) seg (all_logged h later xs m)
  all_logged-append [] seg m = refl
  all_logged-append (x ∷ xs) seg m = all_logged-append xs seg (logged later (inode_num h x.key) x m)

  pub regions_logged-append :
      (segs_of : ℕ → List Segment) (ids : List ℕ) (id : ℕ) (m : Records)
      → regions_logged h later segs_of (ids ++ id ∷ []) m
        ≡ all_logged h later (segs_of id) (regions_logged h later segs_of ids m)
  regions_logged-append segs_of [] id m = refl
  regions_logged-append segs_of (k ∷ ids) id m =
      regions_logged-append segs_of ids id (all_logged h later (segs_of k) m)

  -- A record more in the newest region is replayed last.
  abbrev pub with_record : ℕ → Segment → (ℕ → List Segment) → ℕ → List Segment
  with_record n seg segs_of id = if id == n then segs_of id ++ seg ∷ [] else segs_of id

  pub regions_logged-with_record :
      (n : ℕ) (seg : Segment) (segs_of : ℕ → List Segment) (ids : List ℕ) (m : Records)
      → IsStrict ids
      → IsOneOf n ids
      → All (λ k. k ≤ n) ids
      → regions_logged h later (with_record n seg segs_of) ids m
        ≡ logged later (inode_num h seg.key) seg (regions_logged h later segs_of ids m)
  regions_logged-with_record n seg segs_of [] m strict one low = absurd one
  regions_logged-with_record n seg segs_of (k ∷ []) m strict (inr one) low = absurd one
  regions_logged-with_record n seg segs_of (k ∷ []) m strict (inl e) low =
      let same : (k == n) ≡ true = ground (arith, nat_beq_iff k n) in
      rw same (all_logged-append (segs_of k) seg m)
  regions_logged-with_record n seg segs_of (k ∷ j ∷ ids) m (lt, strict) one (_, low) =
      let before : k < n = omega (arith, lt.0, low.0) in
      let other : (k == n) ≡ false = ground (arith, nat_beq_iff k n, before) in
      let rest : IsOneOf n (j ∷ ids) = elim one [ inl e ↦ absurd (omega arith) | inr p ↦ p ] in
      rw other (
        regions_logged-with_record n seg segs_of (j ∷ ids) (all_logged h later (segs_of k) m) strict
          rest low)

module _ (env : Env) (later : ℕ) (s : LogStructuredFs) (w : WellFormed env s) (m : Records)
    (j : Journal env later s m) where
  -- A change of the index alone.
  pub changed_index-Journal :
      (indexs : List (Option IndexMap)) → Journal env later (record s { indexs = indexs }) m
  changed_index-Journal indexs = record {
    segs_of = j.segs_of;
    distinct = j.distinct;
    no_index = j.no_index;
    laid = λ id f p.
        let l = j.laid id f p in
        record {
          file = l.file;
          region = l.region;
          text = l.text;
          small = l.small;
          readable = l.readable;
        };
    unborn = j.unborn;
    live = j.live;
    replays = j.replays;
  }

  pub newest : IsOneOf s.region_id (sorted_ids s.regions)
  newest = sorted_ids-IsOneOf s.region_id w.file s.regions w.current

  pub none_above : All (λ k. k ≤ s.region_id) (sorted_ids s.regions)
  none_above =
      All-step (HasRegion s.regions) (λ k. k ≤ s.region_id) (sorted_ids s.regions)
        (λ id (f, p). w.below id f p) (sorted_ids-All s.regions)

  -- What the active file was.
  pub active_text : w.text ≡ data_file_metadata ++ laid_out env.hashes (j.segs_of s.region_id)
  active_text =
      let l = j.laid s.region_id w.file w.current in
      let e : some l.file ≡ some w.file = sym l.region ∙ w.current in
      let f : l.file ≡ w.file = cc in
      let q : some w.text
          ≡ some (data_file_metadata ++ laid_out env.hashes (j.segs_of s.region_id)) =
        sym w.written ∙ ap (λ g. lookup g s.disk.files) (sym f) ∙ l.text in
      cc

  pub other_file :
      (id : ℕ) (f : File)
      → lookup id s.regions ≡ some f
      → (id == s.region_id) ≡ false
      → (w.file == f) ≡ false
  other_file id f p other = elim (Bool-cases (w.file == f)) [
    | inl same ↦
        let (small, name) = w.named id f p in
        let (small', name') = w.named s.region_id w.file w.current in
        let e : id ≡ s.region_id =
          format_data_file_name-injective id s.region_id (omega (arith, small))
            (omega (arith, small')) (sym name ∙ sym (==→≡ w.file f same) ∙ name') in
        absurd (ground (arith, nat_beq_iff id s.region_id, e, other))
    | inr differs ↦ differs
  ]

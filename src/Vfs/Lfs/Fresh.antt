-- ===== src/Vfs/Lfs/Fresh.antt =====
-- The state that OpenFS of vfs/lfs.go makes for a new directory, and that it satisfies the
-- invariant once its first region is open.
use wiredkv.Prelude.{
  ℕ, zero, suc, ◌%◌, ◌<◌, ◌≡◌, ◌∙◌, refl, sym, ap, arith, List, [], Option, none, some, ok, length,
  list_eq, nat_eq, ◌≢◌, replicate, get_elem?, ◌==◌, if◌then◌else◌, list_beq_iff, length-replicate,
  ==-self, ==→≡, Bool-cases, inl, inr,
}
use wiredkv.Prelude.Bytes.{Bytes}
use wiredkv.Prelude.Map.{lookup, insert, lookup-insert, lookup-insert_self}
use wiredkv.Vfs.FileName.{format_data_file_name}
use wiredkv.Vfs.FileName.RoundTrip.{format_data_file_name-injective}
use wiredkv.Vfs.Disk.{Disk, append_file, contents}
use wiredkv.Vfs.Disk.Laws.{IsHealthy}
use wiredkv.Vfs.Fs.{Env, LogStructuredFs, IndexMap, gc_init, index_shard, select_shard, find_inode}
use wiredkv.Vfs.Lfs.{create_active_region, data_file_metadata}
use wiredkv.Vfs.Lfs.Index.{HasShards}
use wiredkv.Vfs.Lfs.Placed.{IsPlaced}
use wiredkv.Vfs.Lfs.Runs.{create_run, with_region}
use wiredkv.Vfs.Lfs.WellFormed.{WellFormed}
use wiredkv.Vfs.Lfs.Rotated.{lookup-with_region}

abbrev no_entries : Option IndexMap
no_entries = some []

-- Before the recovery of regions and index.
unfoldable pub new_fs : Bytes → Disk → LogStructuredFs
new_fs directory disk = record {
  offset = length data_file_metadata;
  region_id = 0;
  directory = directory;
  indexs = replicate index_shard no_entries;
  active = none;
  regions = [];
  gcstate = gc_init;
  dirty_region = [];
  disk = disk;
}

get_elem?-replicate : {A : Type 0} (n i : ℕ) (a : A) → i < n → get_elem? (replicate n a) i ≡ some a
get_elem?-replicate zero i a h = absurd (omega arith)
get_elem?-replicate (suc n) zero a h = refl
get_elem?-replicate (suc n) (suc i) a h = get_elem?-replicate n i a (omega arith)

abbrev pub empty_shards : List (Option IndexMap)
empty_shards = replicate index_shard no_entries

pub empty_shards-HasShards : HasShards empty_shards
empty_shards-HasShards = record {
  count = length-replicate index_shard no_entries;
  each = λ i h. ([], get_elem?-replicate index_shard i no_entries h);
}

only_region :
    (id : ℕ) (f name : Bytes) → lookup id (insert 1 name []) ≡ some f → (id ≡ 1) × (f ≡ name)
only_region id f name p = elim (Bool-cases (1 == id)) [
  | inl same ↦
      let q : some name ≡ some f = rw same at (sym (lookup-insert 1 id name []) ∙ p) in
      (sym (==→≡ 1 id same), cc)
  | inr other ↦
      let q : lookup id (insert 1 name []) ≡ none =
        lookup-insert 1 id name [] ∙ rw other (unfold lookup in refl) in
      cc
]

pub empty_shards-IsPlaced : IsPlaced empty_shards
empty_shards-IsPlaced = search

pub found_in_empty :
    (s : LogStructuredFs) → s.indexs ≡ empty_shards → (inum : ℕ) → find_inode s inum ≡ none
unfolding find_inode select_shard lookup
found_in_empty s e inum =
    rw (e, get_elem?-replicate index_shard (inum % index_shard) no_entries (omega arith)) refl

module _ (directory : Bytes) (d : Disk) where
  pub nothing_found : (inum : ℕ) → find_inode (with_region 1 (new_fs directory d)) inum ≡ none
  unfolding new_fs
  nothing_found inum = found_in_empty (with_region 1 (new_fs directory d)) refl inum

  pub first_run :
      IsHealthy d
      → create_active_region (new_fs directory d) ≡ (ok tt, with_region 1 (new_fs directory d))
  unfolding new_fs
  first_run healthy = create_run (new_fs directory d) healthy (omega arith)

  module _ (env : Env) (healthy : IsHealthy d) (empty : d.files ≡ []) where
    unknown : (name : Bytes) → lookup name d.files ≡ none
    unfolding lookup
    unknown name = rw empty

    pub first_region :
        (g : Bytes)
        → lookup g (with_region 1 (new_fs directory d)).disk.files
          ≡ (if format_data_file_name 1 == g then some data_file_metadata else none)
    unfolding new_fs
    first_region g =
        lookup-with_region (new_fs directory d) 1 g (unknown (format_data_file_name 1))
        ∙ rw (unknown g)

    pub with_region-new_fs : WellFormed env (with_region 1 (new_fs directory d))
    unfolding append_file contents new_fs
    with_region-new_fs =
        let name = format_data_file_name 1 in
        record {
          shards = empty_shards-HasShards;
          placed = empty_shards-IsPlaced;
          healthy = rw (unknown name) healthy;
          file = name;
          text = data_file_metadata;
          active = refl;
          current = lookup-insert_self 1 name [];
          written = first_region name ∙ rw (==-self name);
          offset_is = refl;
          below = λ id f p. omega (arith, (only_region id f name p).0);
          named = λ id f p.
              let (e, q) = only_region id f name p in
              (omega (arith, e), q ∙ ap format_data_file_name (sym e));
          headed = λ f b p.
              let q = sym (first_region f) ∙ p in
              elim (Bool-cases (name == f)) [
                | inl same ↦
                    let r : some data_file_metadata ≡ some b = rw same at q in
                    let e : b ≡ data_file_metadata = cc in ([], e)
                | inr other ↦ let r : none ≡ some b = rw other at q in cc
              ];
          known = λ f b p.
              let q = sym (first_region f) ∙ p in
              elim (Bool-cases (name == f)) [
                | inl same ↦
                    let e : name ≡ f = ==→≡ name f same in
                    inr (1, lookup-insert_self 1 name [] ∙ ap some e)
                | inr other ↦ let r : none ≡ some b = rw other at q in cc
              ];
          present = λ id f p.
              let (_, e) = only_region id f name p in
              (
                data_file_metadata,
                ap (λ g. lookup g (with_region 1 (new_fs directory d)).disk.files) e
                    ∙ first_region name
                    ∙ rw (==-self name) refl,
              );
          fresh = λ id above fits.
              let ne : name ≢ format_data_file_name id = λ e. absurd (
                omega
                  (arith, format_data_file_name-injective 1 id (omega arith) (omega arith) e)) in
              first_region (format_data_file_name id)
              ∙ ground (arith, list_beq_iff name (format_data_file_name id));
          stored = λ inum n p. let q = nothing_found inum in cc;
        }

    -- In an empty directory on a disk without faults the first region is created, and the store
    -- then satisfies the invariant.
    pub create_active_region-WellFormed :
        ((create_active_region (new_fs directory d)).0 ≡ ok tt)
        × WellFormed env (create_active_region (new_fs directory d)).1
    create_active_region-WellFormed = rw (first_run healthy) (refl, with_region-new_fs)

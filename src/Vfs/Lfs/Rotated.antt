-- ===== src/Vfs/Lfs/Rotated.antt =====
-- Opening the next region, and that it keeps the invariant and the data of a store.
use mathlib.Core.List.{append-nil}
use wiredkv.Prelude.{
  list_beq_iff, ℕ, ◌⊎◌, ◌++◌, ◌+◌, ◌^◌, ◌<◌, ◌≡◌, ◌≢◌, refl, sym, ap, ◌∙◌, ==→≡, arith, [], none,
  some, ok, list_eq, nat_eq, leb, ◌==◌, if◌then◌else◌, ==-self, Bool-cases, inl, inr,
}
use wiredkv.Prelude.Bytes.{Bytes}
use wiredkv.Prelude.Map.{lookup, lookup-insert, lookup-insert_self}
use wiredkv.Vfs.FileName.{format_data_file_name}
use wiredkv.Vfs.FileName.RoundTrip.{format_data_file_name-injective}
use wiredkv.Vfs.Disk.{File, append_file, contents}
use wiredkv.Vfs.Fs.{Env, LogStructuredFs, find_inode}
use wiredkv.Vfs.Lfs.{rotate_if_full, data_file_metadata, index_file_name}
use wiredkv.Vfs.Lfs.Stored.{Extends, Extends-refl, Stored-Extends}
use wiredkv.Vfs.Lfs.Runs.{with_region, create_run}
use wiredkv.Vfs.Lfs.WellFormed.{WellFormed}

module _ (s : LogStructuredFs) (id : ℕ) where
  -- The files after the next region, which had none, is opened.
  pub lookup-with_region :
      (g : File)
      → lookup (format_data_file_name id) s.disk.files ≡ none
      → lookup g (with_region id s).disk.files
        ≡ (if format_data_file_name id == g then some data_file_metadata else lookup g s.disk.files)
  unfolding append_file contents
  lookup-with_region g absent =
      let name = format_data_file_name id in
      rw (absent, lookup-insert, lookup-insert_self) (rw lookup-insert (ground arith))

module _ (env : Env) (s : LogStructuredFs) (w : WellFormed env s)
    (small : s.region_id + 1 < 10 ^ 9) where
  abbrev opened : LogStructuredFs
  opened = with_region (s.region_id + 1) s

  absent : lookup (format_data_file_name (s.region_id + 1)) s.disk.files ≡ none
  absent = w.fresh (s.region_id + 1) (omega arith) small

  pub Extends-with_region : Extends s opened
  Extends-with_region = record {
    regions = λ id f p. rw lookup-insert (ground (arith, w.below id f p));
    files = λ f c p. (
      [],
      rw (lookup-with_region s (s.region_id + 1) f absent) (
          ground (
            arith,
            append-nil c,
            list_beq_iff (format_data_file_name (s.region_id + 1)) f,
            absent,
          )),
    );
  }

  with_region-shut :
      (id : ℕ)
      → s.region_id + 1 < id
      → id < 10 ^ 9
      → lookup (format_data_file_name id) opened.disk.files ≡ none
  with_region-shut id above fits =
      let name = format_data_file_name (s.region_id + 1) in
      let ne : name ≢ format_data_file_name id = λ e. absurd (
        omega (
          arith,
          format_data_file_name-injective (s.region_id + 1) id (omega arith) (omega arith) e,
        )) in
      rw (lookup-with_region s (s.region_id + 1) (format_data_file_name id) absent) (
        ground (arith, list_beq_iff name (format_data_file_name id), w.fresh id (omega arith) fits))

  with_region-named :
      (id : ℕ) (f : File)
      → lookup id opened.regions ≡ some f
      → (id < 10 ^ 9) × (f ≡ format_data_file_name id)
  with_region-named id f p = elim (Bool-cases (s.region_id + 1 == id)) [
    | inl same ↦
        let e : s.region_id + 1 ≡ id = ==→≡ (s.region_id + 1) id same in
        let name = format_data_file_name (s.region_id + 1) in
        let q : some name ≡ some f =
          rw same at (sym (lookup-insert (s.region_id + 1) id name s.regions) ∙ p) in
        let own : f ≡ name = cc in (omega (arith, e, small), own ∙ ap format_data_file_name e)
    | inr other ↦
        let name = format_data_file_name (s.region_id + 1) in
        let q : lookup id s.regions ≡ some f =
          rw other at (sym (lookup-insert (s.region_id + 1) id name s.regions) ∙ p) in
        w.named id f q
  ]

  with_region-headed :
      (f : File) (b : Bytes)
      → lookup f opened.disk.files ≡ some b
      → (rest : Bytes) × (b ≡ data_file_metadata ++ rest)
  with_region-headed f b p =
      let name = format_data_file_name (s.region_id + 1) in
      let q = sym (lookup-with_region s (s.region_id + 1) f absent) ∙ p in
      elim (Bool-cases (name == f)) [
        | inl same ↦
            let r : some data_file_metadata ≡ some b = rw same at q in
            let e : b ≡ data_file_metadata = cc in ([], e)
        | inr other ↦ w.headed f b (rw other at q)
      ]

  with_region-known :
      (f : File) (b : Bytes)
      → lookup f opened.disk.files ≡ some b
      → (f ≡ index_file_name) ⊎ ((id : ℕ) × (lookup id opened.regions ≡ some f))
  with_region-known f b p =
      let name = format_data_file_name (s.region_id + 1) in
      let q = sym (lookup-with_region s (s.region_id + 1) f absent) ∙ p in
      elim (Bool-cases (name == f)) [
        | inl same ↦
            let e : name ≡ f = ==→≡ name f same in
            inr (s.region_id + 1, lookup-insert_self (s.region_id + 1) name s.regions ∙ ap some e)
        | inr other ↦ elim (w.known f b (rw other at q)) [
          | inl is_index ↦ inl is_index
          | inr (id, r) ↦ inr (id, Extends-with_region.regions id f r)
        ]
      ]

  with_region-present :
      (id : ℕ) (f : File)
      → lookup id opened.regions ≡ some f
      → (b : Bytes) × (lookup f opened.disk.files ≡ some b)
  with_region-present id f p =
      let name = format_data_file_name (s.region_id + 1) in
      let q = sym (lookup-insert (s.region_id + 1) id name s.regions) ∙ p in
      elim (Bool-cases (s.region_id + 1 == id)) [
        | inl same ↦
            let r : some name ≡ some f = rw same at q in
            let e : f ≡ name = cc in
            (
              data_file_metadata,
              ap (λ g. lookup g opened.disk.files) e
                  ∙ lookup-with_region s (s.region_id + 1) name absent
                  ∙ rw (==-self name) refl,
            )
        | inr other ↦
            let (b, r) = w.present id f (rw other at q) in
            let (more, x) = Extends-with_region.files f b r in (b ++ more, x)
      ]

  with_region-WellFormed : WellFormed env opened
  unfolding append_file find_inode
  with_region-WellFormed =
      let name = format_data_file_name (s.region_id + 1) in
      record {
        shards = w.shards;
        placed = w.placed;
        healthy = rw absent w.healthy;
        file = name;
        text = data_file_metadata;
        active = refl;
        current = lookup-insert_self (s.region_id + 1) name s.regions;
        written = rw (lookup-with_region s (s.region_id + 1) name absent, ==-self name);
        offset_is = refl;
        below = λ id f p.
            ground (arith, lookup-insert (s.region_id + 1) id name s.regions, w.below id f);
        named = with_region-named;
        headed = with_region-headed;
        known = with_region-known;
        present = with_region-present;
        fresh = with_region-shut;
        stored = λ inum n p. Stored-Extends (w.stored inum n p) Extends-with_region;
      }

-- A new region is opened when the current one is full.
abbrev pub rotated : Env → LogStructuredFs → LogStructuredFs
rotated env s = if leb env.region_threshold s.offset then with_region (s.region_id + 1) s else s

module _ (env : Env) (s : LogStructuredFs) (w : WellFormed env s)
    (small : s.region_id + 1 < 10 ^ 9) where
  pub rotate_run : rotate_if_full env s ≡ (ok tt, rotated env s)
  unfolding rotate_if_full
  rotate_run = elim (Bool-cases (leb env.region_threshold s.offset)) [
    | inl full ↦ rw full (create_run s w.healthy small)
    | inr room ↦ rw room
  ]

  pub rotated-WellFormed : WellFormed env (rotated env s)
  rotated-WellFormed = elim (Bool-cases (leb env.region_threshold s.offset)) [
    | inl full ↦ rw full (with_region-WellFormed env s w small)
    | inr room ↦ rw room w
  ]

  pub rotated-Extends : Extends s (rotated env s)
  rotated-Extends = elim (Bool-cases (leb env.region_threshold s.offset)) [
    | inl full ↦ rw full (Extends-with_region env s w small)
    | inr room ↦ rw room (Extends-refl s)
  ]

  pub find_inode-rotated : (j : ℕ) → find_inode (rotated env s) j ≡ find_inode s j
  unfolding find_inode
  find_inode-rotated j = ground arith

-- ===== src/Vfs/Open/Regions.antt =====
-- The regions that are found in a directory are those that its files were written for.
use wiredkv.Prelude.{
  ℕ, ◌-◌, ◌^◌, ◌<◌, ◌≡◌, ◌⊎◌, refl, sym, ap, ◌∙◌, arith, ◌++◌, List, [], ◌∷◌, some, Result, ok,
  true, false, ◌==◌, nat_eq, list_eq, All, Bool-cases, inl, inr, ==→≡, ==-self, list_beq_iff,
  length, length-append, drop-append, lt→ltb,
}
use wiredkv.Prelude.Bytes.{Bytes}
use wiredkv.Prelude.Map.{Map, lookup, insert, lookup-insert}
use wiredkv.Vfs.FileName.{
  format_data_file_name, parse_data_file_name, file_extension, decimal, zero_padded,
  starts_with_zero,
}
use wiredkv.Vfs.FileName.RoundTrip.{
  parse_data_file_name-format_data_file_name, format_data_file_name-injective,
}
use wiredkv.Vfs.FileName.Limit.{starts_with_zero-format}
use wiredkv.Vfs.Disk.{File}
use wiredkv.Vfs.Disk.Laws.{IsHealthy, open_existing_healthy}
use wiredkv.Vfs.Fs.{LogStructuredFs, ◌>>=◌, ◌>>◌}
use wiredkv.Vfs.Lfs.{index_file_name}
use wiredkv.Vfs.Recovery.Order.{IsDistinct, insert-IsDistinct}
use wiredkv.Vfs.Snapshot.Reopened.{index_file_name-other}
use wiredkv.Vfs.Open.{is_region_name, has_suffix, open_regions, recover_region}
use wiredkv.Vfs.Open.Directory.{IsListed, IsThere}

index_is_no_region : is_region_name index_file_name ≡ false
unfolding is_region_name starts_with_zero
index_is_no_region = refl

suffix_of_append : (p e : Bytes) → has_suffix (p ++ e) e ≡ true
suffix_of_append p e =
    let size : length (p ++ e) - length e ≡ length p = omega (arith, length-append p e) in
    rw (size, drop-append p e) ((list_beq_iff e e).1 refl)

format-is_region_name : (id : ℕ) → id < 10 ^ 9 → is_region_name (format_data_file_name id) ≡ true
unfolding is_region_name
format-is_region_name id small =
    let suffix : has_suffix (format_data_file_name id) file_extension ≡ true =
      unfold format_data_file_name in
      suffix_of_append (zero_padded 10 (decimal 20 id [])) file_extension in
    let zero_first : starts_with_zero (format_data_file_name id) ≡ true =
      starts_with_zero-format id (omega (arith, small)) ∙ lt→ltb id (10 ^ 9) small in
    rw (suffix, zero_first)

-- A file that is the index snapshot or that of a region of `m`.
abbrev pub IsKnown : Map ℕ File → File → Type 0
IsKnown m f = (f ≡ index_file_name) ⊎ ((id : ℕ) × (lookup id m ≡ some f))

-- The regions are registered under their numbers.
pub record Registers (m : Map ℕ File) (names : List File) (t : LogStructuredFs)
    (result : Result (Unit {0}) × LogStructuredFs) : Type 0 where
  pub regions : Map ℕ File
  pub returned : result ≡ (ok tt, record t { regions = regions })
  pub sound : (id : ℕ) (f : File) → lookup id regions ≡ some f → lookup id m ≡ some f
  pub complete :
      (id : ℕ) (f : File)
      → lookup id m ≡ some f
      → IsListed f names ⊎ (lookup id t.regions ≡ some f)
      → lookup id regions ≡ some f
  pub distinct : IsDistinct regions

module _ (m : Map ℕ File)
    (named : (id : ℕ) (f : File)
      → lookup id m ≡ some f
      → (id < 10 ^ 9) × (f ≡ format_data_file_name id)) where
  index_is_not : (id : ℕ) (f : File) → lookup id m ≡ some f → f ≡ index_file_name → ⊥
  index_is_not id f p e =
      let (small, name) = named id f p in
      let other = index_file_name-other id small in
      let same : (index_file_name == format_data_file_name id) ≡ true =
        (list_beq_iff index_file_name (format_data_file_name id)).1 (sym e ∙ name) in
      cc

  recover_region_run :
      (t : LogStructuredFs) (id : ℕ) (f : File)
      → IsHealthy t.disk
      → IsThere t.disk.files f
      → lookup id m ≡ some f
      → recover_region f t ≡ (ok tt, record t { regions = insert id f t.regions })
  unfolding ◌>>=◌ ◌>>◌
  recover_region_run t id f healthy (b, there) p =
      let (small, name) = named id f p in
      let parsed : parse_data_file_name f ≡ ok id =
        ap parse_data_file_name name
        ∙ parse_data_file_name-format_data_file_name id (omega (arith, small)) in
      rw (open_existing_healthy f b t.disk healthy there) (rw parsed refl)

  same_region : (id id' : ℕ) (f : File) → lookup id m ≡ some f → lookup id' m ≡ some f → id ≡ id'
  same_region id id' f p q =
      let (small, name) = named id f p in
      let (small', name') = named id' f q in
      format_data_file_name-injective id id' (omega (arith, small)) (omega (arith, small'))
        (sym name ∙ name')

  -- After a region of `m` was registered.
  module _ (t : LogStructuredFs) (id0 id : ℕ) (n f : File) (at : lookup id0 m ≡ some n) where
    sound_after :
        ((i : ℕ) (g : File) → lookup i t.regions ≡ some g → lookup i m ≡ some g)
        → lookup id (insert id0 n t.regions) ≡ some f
        → lookup id m ≡ some f
    sound_after sound p =
        let q = sym (lookup-insert id0 id n t.regions) ∙ p in
        elim (Bool-cases (id0 == id)) [
          | inl same ↦
              let r : some n ≡ some f = rw same at q in
              ap (λ i. lookup i m) (sym (==→≡ id0 id same)) ∙ at ∙ r
          | inr other ↦ sound id f (rw other at q)
        ]

    registered : lookup id m ≡ some f → f ≡ n → lookup id (insert id0 n t.regions) ≡ some f
    registered p same =
        let e : id0 ≡ id = same_region id0 id n at (p ∙ ap some same) in
        lookup-insert id0 id n t.regions ∙ rw (← e, ==-self id0) (ap some (sym same))

    kept_after :
        lookup id m ≡ some f
        → lookup id t.regions ≡ some f
        → lookup id (insert id0 n t.regions) ≡ some f
    kept_after p old = lookup-insert id0 id n t.regions ∙ elim (Bool-cases (id0 == id)) [
      | inl same ↦ rw same (sym at ∙ ap (λ i. lookup i m) (==→≡ id0 id same) ∙ p)
      | inr other ↦ rw other old
    ]

  pub open_regions-Registers :
      (names : List File) (t : LogStructuredFs)
      → IsHealthy t.disk
      → All (IsThere t.disk.files) names
      → All (IsKnown m) names
      → ((id : ℕ) (f : File) → lookup id t.regions ≡ some f → lookup id m ≡ some f)
      → IsDistinct t.regions
      → Registers m names t (open_regions names t)
  unfolding open_regions ◌>>=◌ ◌>>◌
  open_regions-Registers [] t healthy there known sound alone = record {
    regions = t.regions;
    returned = refl;
    sound = sound;
    complete = λ id f p h. elim h [ inl listed ↦ elim listed [ ] | inr old ↦ old ];
    distinct = alone;
  }
  open_regions-Registers (n ∷ names) t healthy (here, there) (inl is_index, known) sound alone =
      let none_opened : is_region_name n ≡ false =
        ap is_region_name is_index ∙ index_is_no_region in
      let rest = open_regions-Registers names t healthy there known sound alone in
      rw none_opened (record {
        regions = rest.regions;
        returned = rest.returned;
        sound = rest.sound;
        complete = λ id f p h. rest.complete id f p (elim h [
          | inl listed ↦ elim listed [
            | inl same ↦ absurd (index_is_not id f p (same ∙ is_index))
            | inr later ↦ inl later
          ]
          | inr old ↦ inr old
        ]);
        distinct = rest.distinct;
      })
  open_regions-Registers (n ∷ names) t healthy (here, there) (inr (id0, at), known) sound alone =
      let (small, name) = named id0 n at in
      let opened : is_region_name n ≡ true =
        ap is_region_name name ∙ format-is_region_name id0 small in
      let t' : LogStructuredFs = record t { regions = insert id0 n t.regions } in
      let rest =
        open_regions-Registers names t' healthy there known
          (λ id f. sound_after t id0 id n f at sound) (insert-IsDistinct id0 n t.regions alone) in
      rw (opened, recover_region_run t id0 n healthy here at)
        (record {
          regions = rest.regions;
          returned = rest.returned;
          sound = rest.sound;
          complete = λ id f p h. rest.complete id f p (elim h [
            | inl listed ↦ elim listed [
              | inl same ↦ inr (registered t id0 id n f at p same)
              | inr later ↦ inl later
            ]
            | inr old ↦ inr (kept_after t id0 id n f at p old)
          ]);
          distinct = rest.distinct;
        })

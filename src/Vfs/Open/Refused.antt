-- ===== src/Vfs/Open/Refused.antt =====
-- A directory with a file of another format is not opened.
use wiredkv.Prelude.{
  ℕ, ◌≡◌, ◌⊎◌, refl, sym, ap, ◌∙◌, List, [], ◌∷◌, Result, ok, err, Error, eof, bad_header, Bool,
  true, false, ◌==◌, list_eq, All, Bool-cases, inl, inr, ==-self, length, take, list_beq, nat_beq,
  some,
}
use wiredkv.Prelude.Bytes.{Bytes}
use wiredkv.Prelude.Map.{lookup}
use wiredkv.Vfs.Disk.{File, Disk, contents, and_then, sorted_names, read_dir}
use wiredkv.Vfs.Disk.Laws.{IsHealthy, open_existing_healthy}
use wiredkv.Vfs.Fs.{Env}
use wiredkv.Vfs.Lfs.{data_file_metadata, index_file_name}
use wiredkv.Vfs.Open.{
  Options, validate_file_header, check_file, check_file_if, check_entry, check_files,
  check_file_system, is_region_name, open_fs,
}
use wiredkv.Vfs.Open.Directory.{
  checked_healthy, IsListed, IsThere, sorted_names-All, sorted_names-IsListed,
}

-- An action that changes no file; what it answers.
abbrev Answers : Disk → Result (Unit {0}) × Disk → Type 0
Answers d r = (r ≡ (ok tt, d)) ⊎ ((e : Error) × (r ≡ (err e, d)))

abbrev Refuses : Disk → Result (Unit {0}) × Disk → Type 0
Refuses d r = (e : Error) × (r ≡ (err e, d))

another_header :
    (b : Bytes)
    → list_beq (take 4 b) data_file_metadata ≡ false
    → (e : Error) × (validate_file_header b ≡ err e)
unfolding validate_file_header
another_header [] h = (eof, refl)
another_header (c ∷ b) h =
    elim (Bool-cases (nat_beq (length (take 4 (c ∷ b))) (length data_file_metadata))) [
      | inl whole ↦ (bad_header, rw (whole, h) refl)
      | inr part ↦ (bad_header, rw part refl)
    ]

module _ (d : Disk) (healthy : IsHealthy d) where
  check_file_run :
      (f : File) (b : Bytes)
      → lookup f d.files ≡ some b
      → check_file f d ≡ (validate_file_header b, d)
  unfolding contents
  check_file_run f b p =
      rw (open_existing_healthy f b d healthy p, checked_healthy (contents f) d healthy) (rw p refl)

  answered : (r : Result (Unit {0})) → Answers d (r, d)
  answered (ok u) = inl refl
  answered (err e) = inr (e, refl)

  check_file_if-Answers :
      (wanted : Bool) (f : File) → IsThere d.files f → Answers d (check_file_if wanted f d)
  check_file_if-Answers true f (b, p) =
      rw (check_file_run f b p) (answered (validate_file_header b))
  check_file_if-Answers false f there = inl refl

  and_then-Answers :
      (r : Result (Unit {0}) × Disk) (next : Disk → Result (Unit {0}) × Disk)
      → Answers d r
      → Answers d (next d)
      → Answers d (and_then r (λ u. next))
  and_then-Answers r next (inl p) q = rw p q
  and_then-Answers r next (inr (e, p)) q = inr (e, rw p refl)

  and_then-Refuses :
      (r : Result (Unit {0}) × Disk) (next : Disk → Result (Unit {0}) × Disk)
      → Answers d r
      → Refuses d (next d)
      → Refuses d (and_then r (λ u. next))
  and_then-Refuses r next (inl p) q = rw p q
  and_then-Refuses r next (inr (e, p)) q = (e, rw p refl)

  check_entry-Answers : (f : File) → IsThere d.files f → Answers d (check_entry f d)
  unfolding check_entry
  check_entry-Answers f there =
      and_then-Answers (check_file_if (is_region_name f) f d)
        (check_file_if (f == index_file_name) f) (check_file_if-Answers (is_region_name f) f there)
        (check_file_if-Answers (f == index_file_name) f there)

  module _ (f : File) (b : Bytes) (there : lookup f d.files ≡ some b)
      (other : list_beq (take 4 b) data_file_metadata ≡ false) where
    check_file-Refuses : Refuses d (check_file f d)
    check_file-Refuses =
        let (e, p) = another_header b other in (e, check_file_run f b there ∙ rw p refl)

    check_entry-Refuses :
        (is_region_name f ≡ true) ⊎ (f ≡ index_file_name) → Refuses d (check_entry f d)
    unfolding check_entry
    check_entry-Refuses (inl region) = let (e, p) = check_file-Refuses in (e, rw (region, p) refl)
    check_entry-Refuses (inr is_index) =
        let itself : (f == index_file_name) ≡ true =
          ap (λ g. g == index_file_name) is_index ∙ ==-self index_file_name in
        and_then-Refuses (check_file_if (is_region_name f) f d)
          (check_file_if (f == index_file_name) f)
          (check_file_if-Answers (is_region_name f) f (b, there)) (rw itself check_file-Refuses)

    check_files-Refuses :
        (names : List File)
        → All (IsThere d.files) names
        → IsListed f names
        → (is_region_name f ≡ true) ⊎ (f ≡ index_file_name)
        → Refuses d (check_files names d)
    unfolding check_files
    check_files-Refuses [] a listed kind = elim listed [ ]
    check_files-Refuses (n ∷ names) (p, a) (inl here) kind =
        let (e, q) = check_entry-Refuses kind in (e, rw (sym here, q) refl)
    check_files-Refuses (n ∷ names) (p, a) (inr later) kind =
        and_then-Refuses (check_entry n d) (check_files names) (check_entry-Answers n p)
          (check_files-Refuses names a later kind)

    -- On a disk without planned faults, a directory that has a region file, or the file of the index
    -- snapshot, that does not begin with the four bytes of the format is not opened, and no file is
    -- changed.
    pub open_fs-Refuses :
        (env : Env) (now : ℕ) (opt : Options)
        → (is_region_name f ≡ true) ⊎ (f ≡ index_file_name)
        → (e : Error) × (open_fs env now true opt d ≡ (err e, d))
    unfolding open_fs check_file_system read_dir
    open_fs-Refuses env now opt kind =
        let (e, p) =
          check_files-Refuses (sorted_names d.files) (sorted_names-All d.files)
            (sorted_names-IsListed f d.files (b, there)) kind in
        (e, rw (checked_healthy (λ g. sorted_names g.files) d healthy, p) refl)

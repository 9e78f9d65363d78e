-- ===== src/Vfs/Open/Directory.antt =====
-- What is read of a directory in which every file begins with the metadata.
use wiredkv.Prelude.{
  ◌≡◌, ◌⊎◌, refl, arith, ◌++◌, List, [], ◌∷◌, some, ok, Bool, true, false, ◌==◌, list_eq, All,
  Bool-cases, inl, inr, ==→≡, ==-self,
}
use wiredkv.Prelude.Bytes.{Bytes}
use wiredkv.Prelude.Map.{Map, lookup}
use wiredkv.Vfs.Disk.{File, Disk, contents, checked, read_dir, sorted_names, insert_name, name_leb}
use wiredkv.Vfs.Disk.Laws.{IsHealthy, open_existing_healthy}
use wiredkv.Vfs.Lfs.{data_file_metadata, index_file_name}
use wiredkv.Vfs.Open.{
  validate_file_header, check_file, check_file_if, check_entry, check_files, check_file_system,
  is_region_name,
}

pub checked_healthy :
    {A : Type 0} (f : Disk → A) (d : Disk) → IsHealthy d → checked f d ≡ (ok (f d), d)
unfolding checked
checked_healthy f d h = ground arith

abbrev pub IsListed : File → List File → Type 0
IsListed f [] = ⊥
IsListed f (g ∷ fs) = (f ≡ g) ⊎ IsListed f fs

module _ (P : File → Type 0) where
  insert_name-All : (f : File) (fs : List File) → P f → All P fs → All P (insert_name f fs)
  unfolding insert_name
  insert_name-All f [] p a = (p, tt)
  insert_name-All f (g ∷ fs) p (q, a) =
      let rest = insert_name-All f fs p a in
      elim (Bool-cases (name_leb f g)) [
        | inl before ↦ rw before (p, (q, a))
        | inr after ↦ rw after (q, rest)
      ]

insert_name-IsListed : (f : File) (fs : List File) → IsListed f (insert_name f fs)
unfolding insert_name
insert_name-IsListed f [] = inl refl
insert_name-IsListed f (g ∷ fs) =
    let rest = insert_name-IsListed f fs in
    elim (Bool-cases (name_leb f g)) [
      | inl before ↦ rw before (inl refl)
      | inr after ↦ rw after (inr rest)
    ]

IsListed-insert_name : (e f : File) (fs : List File) → IsListed e fs → IsListed e (insert_name f fs)
unfolding insert_name
IsListed-insert_name e f [] h = elim h [ ]
IsListed-insert_name e f (g ∷ fs) h =
    let rest = IsListed-insert_name e f fs in
    elim (Bool-cases (name_leb f g)) [
      | inl before ↦ rw before (inr h)
      | inr after ↦ rw after (elim h [ inl here ↦ inl here | inr later ↦ inr (rest later) ])
    ]

abbrev pub IsThere : Map File Bytes → File → Type 0
IsThere m f = (b : Bytes) × (lookup f m ≡ some b)

IsThere-cons : (f g : File) (b : Bytes) (m : Map File Bytes) → IsThere m g → IsThere ((f, b) ∷ m) g
unfolding lookup
IsThere-cons f g b m (c, p) = elim (Bool-cases (f == g)) [
  | inl same ↦ (b, rw same refl)
  | inr other ↦ (c, rw other p)
]

All-map : (P Q : File → Type 0) (fs : List File) → ((f : File) → P f → Q f) → All P fs → All Q fs
All-map P Q [] step a = tt
All-map P Q (f ∷ fs) step (p, a) = (step f p, All-map P Q fs step a)

-- Every name in the directory has its file.
pub sorted_names-All : (m : Map File Bytes) → All (IsThere m) (sorted_names m)
unfolding sorted_names lookup
sorted_names-All [] = tt
sorted_names-All ((f, b) ∷ m) =
    insert_name-All (IsThere ((f, b) ∷ m)) f (sorted_names m) (b, rw (==-self f) refl)
      (All-map (IsThere m) (IsThere ((f, b) ∷ m)) (sorted_names m) (λ g. IsThere-cons f g b m)
        (sorted_names-All m))

-- Every file has its name in the directory.
pub sorted_names-IsListed :
    (f : File) (m : Map File Bytes) → IsThere m f → IsListed f (sorted_names m)
unfolding sorted_names lookup
sorted_names-IsListed f [] (b, p) = cc
sorted_names-IsListed f ((g, c) ∷ m) (b, p) =
    let rest = sorted_names-IsListed f m in
    elim (Bool-cases (g == f)) [
      | inl same ↦
          let e : g ≡ f = ==→≡ g f same in rw (← e) (insert_name-IsListed g (sorted_names m))
      | inr other ↦ IsListed-insert_name f g (sorted_names m) (rest (b, rw other at p))
    ]

module _ (d : Disk) (healthy : IsHealthy d)
    (headed : (f : File) (b : Bytes)
      → lookup f d.files ≡ some b
      → (rest : Bytes) × (b ≡ data_file_metadata ++ rest)) where
  check_file_passes : (f : File) → IsThere d.files f → check_file f d ≡ (ok tt, d)
  unfolding contents validate_file_header
  check_file_passes f (b, p) =
      let (rest, e) = headed f b p in
      rw (open_existing_healthy f b d healthy p, checked_healthy (contents f) d healthy)
        (rw (p, e) refl)

  check_file_if_passes :
      (wanted : Bool) (f : File) → IsThere d.files f → check_file_if wanted f d ≡ (ok tt, d)
  check_file_if_passes true f there = check_file_passes f there
  check_file_if_passes false f there = refl

  check_entry_passes : (f : File) → IsThere d.files f → check_entry f d ≡ (ok tt, d)
  unfolding check_entry
  check_entry_passes f there =
      rw (check_file_if_passes (is_region_name f) f there)
        (check_file_if_passes (f == index_file_name) f there)

  check_files_pass : (fs : List File) → All (IsThere d.files) fs → check_files fs d ≡ (ok tt, d)
  unfolding check_files
  check_files_pass [] a = refl
  check_files_pass (f ∷ fs) (p, a) = rw (check_entry_passes f p) (check_files_pass fs a)

  -- Such a directory passes the check.
  pub check_file_system_passes : check_file_system true d ≡ (ok tt, d)
  unfolding check_file_system read_dir
  check_file_system_passes =
      rw (checked_healthy (λ e. sorted_names e.files) d healthy)
        (check_files_pass (sorted_names d.files) (sorted_names-All d.files))

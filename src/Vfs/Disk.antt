-- ===== src/Vfs/Disk.antt =====
-- The files of the data directory as vfs/lfs.go sees them through package os, with faults: each
-- call that can fail takes the next of the disk's planned outcomes, and succeeds when none is left.
pub mod Laws
pub mod Faults
use wiredkv.Prelude.{
  Bool, true, false, ℕ, ◌++◌, List, [], ◌∷◌, Option, none, some, Result, ok, err, io_failed, length,
  take, list_eq, nat_beq, leb, if◌then◌else◌,
}
use wiredkv.Prelude.Bytes.{Bytes}
use wiredkv.Prelude.Map.{Map, lookup, insert}

-- A short write puts that many bytes into the file and reports an error, as os.File.Write does.
pub data Outcome : Type 0 where
  done failed : Outcome
  short : ℕ → Outcome

-- An open file is its name. Region files are written at their end only: they are opened with
-- O_APPEND or positioned at the end.
abbrev pub File : Type 0
File = Bytes

pub record Disk : Type 0 where
  pub files : Map File Bytes
  pub outcomes : List Outcome

abbrev pub or_empty : Option Bytes → Bytes
or_empty none = []
or_empty (some b) = b

unfoldable pub contents : File → Disk → Bytes
contents f d = or_empty (lookup f d.files)

abbrev pub head_outcome : List Outcome → Outcome
head_outcome [] = done
head_outcome (o ∷ os) = o

abbrev pub tail_outcomes : List Outcome → List Outcome
tail_outcomes [] = []
tail_outcomes (o ∷ os) = os

unfoldable pub append_file : File → Bytes → Disk → Disk
append_file f b d = record d { files = insert f (contents f d ++ b) d.files }

abbrev pub write_outcome : Outcome → File → Bytes → Disk → Result ℕ × Disk
write_outcome done f b d = (ok (length b), append_file f b d)
write_outcome failed f b d = (err io_failed, d)
write_outcome (short n) f b d = (err io_failed, append_file f (take n b) d)

-- fd.Write(bytes)
unfoldable pub write : File → Bytes → Disk → Result ℕ × Disk
write f b d =
    write_outcome (head_outcome d.outcomes) f b (record d { outcomes = tail_outcomes d.outcomes })

-- O_CREATE makes an empty file where there is none.
abbrev pub create_file : Option Bytes → File → Disk → Disk
create_file none f d = record d { files = insert f [] d.files }
create_file (some b) f d = d

abbrev pub open_outcome : Outcome → File → Disk → Result File × Disk
open_outcome done f d = (ok f, create_file (lookup f d.files) f d)
open_outcome failed f d = (err io_failed, d)
open_outcome (short n) f d = (err io_failed, d)

-- os.OpenFile(name, RWCA, fsPerm)
unfoldable pub open_file : File → Disk → Result File × Disk
open_file f d =
    open_outcome (head_outcome d.outcomes) f (record d { outcomes = tail_outcomes d.outcomes })

abbrev pub truncate_outcome : Outcome → File → Disk → Result File × Disk
truncate_outcome done f d = (ok f, record d { files = insert f [] d.files })
truncate_outcome failed f d = (err io_failed, d)
truncate_outcome (short n) f d = (err io_failed, d)

-- os.OpenFile(name, os.O_CREATE|os.O_RDWR|os.O_TRUNC, fsPerm)
unfoldable pub truncate_file : File → Disk → Result File × Disk
truncate_file f d =
    truncate_outcome (head_outcome d.outcomes) f (record d { outcomes = tail_outcomes d.outcomes })

abbrev pub existing_file : Option Bytes → File → Result File
existing_file none f = err io_failed
existing_file (some b) f = ok f

abbrev pub read_outcome : Outcome → File → Disk → Result File × Disk
read_outcome done f d = (existing_file (lookup f d.files) f, d)
read_outcome failed f d = (err io_failed, d)
read_outcome (short n) f d = (err io_failed, d)

-- os.Open(name), and os.OpenFile(name, os.O_RDWR, fsPerm): the file must exist.
unfoldable pub open_existing : File → Disk → Result File × Disk
open_existing f d =
    read_outcome (head_outcome d.outcomes) f (record d { outcomes = tail_outcomes d.outcomes })

abbrev pub is_there : Option Bytes → Bool
is_there none = false
is_there (some b) = true

-- utils.IsExist
unfoldable pub is_exist : File → Disk → Bool
is_exist f d = is_there (lookup f d.files)

abbrev pub checked_outcome : {A : Type 0} → Outcome → A → Disk → Result A × Disk
checked_outcome done a d = (ok a, d)
checked_outcome failed a d = (err io_failed, d)
checked_outcome (short n) a d = (err io_failed, d)

-- A call that changes no file and answers `f`, or fails.
unfoldable pub checked : {A : Type 0} → (Disk → A) → Disk → Result A × Disk
checked f d =
    checked_outcome (head_outcome d.outcomes) (f d)
      (record d { outcomes = tail_outcomes d.outcomes })

-- The length of an open file, which Stat and a Seek to the end give.
abbrev pub file_length : File → Disk → Result ℕ × Disk
file_length fd = checked (λ d. length (contents fd d))

abbrev pub and_then :
    {A B : Type 0} → Result A × Disk → (A → Disk → Result B × Disk) → Result B × Disk
and_then (ok a, d) next = next a d
and_then (err e, d) next = (err e, d)

-- The byte order of strings.
unfoldable pub name_leb : File → File → Bool
name_leb [] f = true
name_leb (a ∷ e) [] = false
name_leb (a ∷ e) (b ∷ f) = let rest = name_leb e f in if nat_beq a b then rest else leb a b

unfoldable pub insert_name : File → List File → List File
insert_name f [] = f ∷ []
insert_name f (g ∷ fs) =
    let rest = insert_name f fs in if name_leb f g then f ∷ g ∷ fs else g ∷ rest

unfoldable pub sorted_names : Map File Bytes → List File
sorted_names [] = []
sorted_names ((f, b) ∷ m) = insert_name f (sorted_names m)

-- os.ReadDir gives the names in ascending order. Directories in it, which the code skips, are left
-- out.
unfoldable pub read_dir : Disk → Result (List File) × Disk
read_dir = checked (λ d. sorted_names d.files)

-- ===== src/Vfs/Disk/Laws.antt =====
-- Reading the disk after a write or an open on a disk without planned faults.
use wiredkv.Prelude.{◌++◌, ◌≡◌, arith, [], some, ok, length, list_eq, ◌==◌, if◌then◌else◌}
use wiredkv.Prelude.Bytes.{Bytes}
use wiredkv.Prelude.Map.{lookup, lookup-insert}
use wiredkv.Vfs.Disk.{
  File, Disk, contents, append_file, write, open_file, open_existing, create_file, or_empty,
}

-- No fault is planned.
abbrev pub IsHealthy : Disk → Type 0
IsHealthy d = d.outcomes ≡ []

pub write_healthy :
    (f : File) (b : Bytes) (d : Disk)
    → IsHealthy d
    → write f b d ≡ (ok (length b), append_file f b d)
unfolding write append_file contents
write_healthy f b d h = ground arith

pub open_file_healthy :
    (f : File) (d : Disk) → IsHealthy d → open_file f d ≡ (ok f, create_file (lookup f d.files) f d)
unfolding open_file
open_file_healthy f d h = ground arith

pub open_existing_healthy :
    (f : File) (b : Bytes) (d : Disk)
    → IsHealthy d
    → lookup f d.files ≡ some b
    → open_existing f d ≡ (ok f, d)
unfolding open_existing
open_existing_healthy f b d h at = ground (arith, at)

pub contents-append_file :
    (f g : File) (b : Bytes) (d : Disk)
    → contents g (append_file f b d) ≡ (if f == g then contents f d ++ b else contents g d)
unfolding contents append_file
contents-append_file f g b d =
    rw (lookup-insert f g (or_empty (lookup f d.files) ++ b) d.files) (ground arith)

pub lookup-append_file :
    (f g : File) (b : Bytes) (d : Disk)
    → lookup g (append_file f b d).files
      ≡ (if f == g then some (contents f d ++ b) else lookup g d.files)
unfolding append_file
lookup-append_file f g b d = lookup-insert f g (contents f d ++ b) d.files

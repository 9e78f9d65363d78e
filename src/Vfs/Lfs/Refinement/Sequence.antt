-- ===== src/Vfs/Lfs/Refinement/Sequence.antt =====
-- Sequences of commands: the storage engine replies as the map does, from a new directory on.
use wiredkv.Prelude.{◌≡◌, refl, List, [], ◌∷◌, none}
use wiredkv.Prelude.Bytes.{Bytes}
use wiredkv.Vfs.Hash.{IsHashes}
use wiredkv.Vfs.Disk.{Disk}
use wiredkv.Vfs.Disk.Laws.{IsHealthy}
use wiredkv.Vfs.Fs.{Env, LogStructuredFs}
use wiredkv.Vfs.Lfs.{create_active_region}
use wiredkv.Vfs.Lfs.WellFormed.{WellFormed}
use wiredkv.Vfs.Lfs.Fresh.{new_fs, first_run, nothing_found, create_active_region-WellFormed}
use wiredkv.Vfs.Lfs.Refinement.{Records, Command, Reply, exec, spec, Represents, Allowed}
use wiredkv.Vfs.Lfs.Refinement.Step.{exec-Refines}

-- The replies to a sequence.
unfoldable pub run_commands : Env → List Command → LogStructuredFs → List Reply
run_commands env [] s = []
run_commands env (c ∷ cs) s = let (r, t) = exec env c s in r ∷ run_commands env cs t

unfoldable pub run_spec : Env → List Command → Records → List Reply
run_spec env [] m = []
run_spec env (c ∷ cs) m = let (r, m') = spec env c m in r ∷ run_spec env cs m'

-- There is room at each step.
abbrev pub AllAllowed : Env → LogStructuredFs → List Command → Type 0
AllAllowed env s [] = Unit {0}
AllAllowed env s (c ∷ cs) = Allowed env s c × AllAllowed env (exec env c s).1 cs

pub run_commands-eq-run_spec :
    (env : Env) (s : LogStructuredFs) (m : Records) (cs : List Command)
    → IsHashes env.hashes
    → WellFormed env s
    → Represents env s m
    → AllAllowed env s cs
    → run_commands env cs s ≡ run_spec env cs m
unfolding run_commands run_spec
run_commands-eq-run_spec env s m [] hv w rep all = refl
run_commands-eq-run_spec env s m (c ∷ cs) hv w rep (allowed, all) =
    let (reply, after, rep') = exec-Refines env hv s w m rep c allowed in
    let rest =
      run_commands-eq-run_spec env (exec env c s).1 (spec env c m).1 cs hv after rep' all in
    λ i. reply i ∷ rest i

abbrev pub no_records : Records
no_records inum = none

-- In an empty directory on a disk without faults, after the first region is created, every sequence
-- of puts, deletes, updates and fetches for which there is room at each step gets the replies that
-- a map from inode numbers to versioned records gives, which is empty at first.
pub run_commands-new_fs :
    (env : Env) (directory : Bytes) (d : Disk) (cs : List Command)
    → IsHashes env.hashes
    → IsHealthy d
    → d.files ≡ []
    → AllAllowed env (create_active_region (new_fs directory d)).1 cs
    → run_commands env cs (create_active_region (new_fs directory d)).1 ≡ run_spec env cs no_records
run_commands-new_fs env directory d cs hv healthy empty all =
    run_commands-eq-run_spec env _ no_records cs hv
      (create_active_region-WellFormed directory d env healthy empty).1
      (rw (first_run directory d healthy)
        (record { each = λ inum. rw (nothing_found directory d inum) tt }))
      all

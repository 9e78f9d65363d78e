-- ===== src/Vfs/Open/Session.antt =====
-- A session on a new directory, from its opening to the opening after it.
use wiredkv.Prelude.{ℕ, ◌+◌, ◌^◌, ◌<◌, ◌≡◌, List, [], ◌∷◌, Bool, ok}
use wiredkv.Vfs.Hash.{IsHashes}
use wiredkv.Vfs.Disk.{Disk}
use wiredkv.Vfs.Disk.Laws.{IsHealthy}
use wiredkv.Vfs.Fs.{Env, LogStructuredFs}
use wiredkv.Vfs.Lfs.WellFormed.{WellFormed}
use wiredkv.Vfs.Lfs.Refinement.{Records, Command, exec, spec, Represents}
use wiredkv.Vfs.Lfs.Refinement.Step.{exec-Refines}
use wiredkv.Vfs.Lfs.Refinement.Sequence.{
  run_commands, run_spec, AllAllowed, no_records, run_commands-eq-run_spec,
}
use wiredkv.Vfs.Snapshot.Reopened.{reset_records}
use wiredkv.Vfs.Open.{Options, open_fs, close_fs}
use wiredkv.Vfs.Open.Empty.{first_store, open_fs-WellFormed}
use wiredkv.Vfs.Open.Reopened.{Opens, open_fs-close_fs}

-- The store after a sequence of commands, and the records after it.
unfoldable pub store_after : Env → List Command → LogStructuredFs → LogStructuredFs
store_after env [] s = s
store_after env (c ∷ cs) s = store_after env cs (exec env c s).1

unfoldable pub records_after : Env → List Command → Records → Records
records_after env [] m = m
records_after env (c ∷ cs) m = records_after env cs (spec env c m).1

store_after-Represents :
    (env : Env) (cs : List Command) (s : LogStructuredFs) (m : Records)
    → IsHashes env.hashes
    → WellFormed env s
    → Represents env s m
    → AllAllowed env s cs
    → WellFormed env (store_after env cs s)
      × Represents env (store_after env cs s) (records_after env cs m)
unfolding store_after records_after
store_after-Represents env [] s m hv w rep all = (w, rep)
store_after-Represents env (c ∷ cs) s m hv w rep (allowed, all) =
    let (_, w', rep') = exec-Refines env hv s w m rep c allowed in
    store_after-Represents env cs (exec env c s).1 (spec env c m).1 hv w' rep' all

-- A session: the first opening, the replies, the closing, and the opening after it.
pub record Lasts (env : Env) (now later : ℕ) (made : Bool) (opt : Options) (d : Disk)
    (cs : List Command) : Type 0 where
  pub opened : LogStructuredFs
  pub opening : open_fs env now made opt d ≡ (ok opened, opened.disk)
  pub replies : run_commands env cs opened ≡ run_spec env cs no_records
  pub closing : (close_fs env (store_after env cs opened)).0 ≡ ok tt
  pub reopening :
      Opens env later opt
        (close_fs env (store_after env cs opened)).1.disk
        (reset_records (records_after env cs no_records))

-- On a disk without planned faults, let a new or empty directory be opened, and commands be given for
-- which there is room at each step, which leave room for one more region. Then the opening succeeds;
-- the replies are those of a map from inode numbers to versioned records, empty at first; the store is
-- closed without an error; and the directory is opened again, as a store that satisfies the invariant
-- and stands for the map that the commands made, with all versions at 0.
pub open_fs-Lasts :
    (env : Env) (now later : ℕ) (made : Bool) (opt : Options) (d : Disk) (cs : List Command)
    (healthy : IsHealthy d) (empty : d.files ≡ [])
    → IsHashes env.hashes
    → AllAllowed env (first_store env now opt d healthy empty) cs
    → (store_after env cs (first_store env now opt d healthy empty)).region_id + 1 < 10 ^ 9
    → Lasts env now later made opt d cs
open_fs-Lasts env now later made opt d cs healthy empty hv all small =
    let s = first_store env now opt d healthy empty in
    let (opening, w, rep) = open_fs-WellFormed env now opt d healthy empty made in
    let (w', rep') = store_after-Represents env cs s no_records hv w rep all in
    let (closing, reopening) =
      open_fs-close_fs env later opt (store_after env cs s) (records_after env cs no_records) hv w'
        rep' small in
    record {
      opened = s;
      opening = opening;
      replies = run_commands-eq-run_spec env s no_records cs hv w rep all;
      closing = closing;
      reopening = reopening;
    }

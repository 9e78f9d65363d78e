-- ===== src/Vfs/Open/Crashed.antt =====
-- Opening a directory that vfs/lfs.go left without closing it: no snapshot, only the region files.
use mathlib.Core.Path.{subst}
use wiredkv.Prelude.{
  ℕ, ◌+◌, ◌^◌, ◌<◌, ◌≡◌, refl, ap, ◌∙◌, arith, List, [], ◌∷◌, Bool, some, ok, list_eq, nat_eq,
  ==-self,
}
use wiredkv.Prelude.Map.{lookup, insert}
use wiredkv.Vfs.Lfs.Refinement.Switched.{WellFormed-switched, Represents-switched}
use wiredkv.Vfs.Transformer.{new_transformer}
use wiredkv.Vfs.Hash.{IsHashes}
use wiredkv.Vfs.FileName.{format_data_file_name}
use wiredkv.Vfs.Disk.{File, Disk, is_exist}
use wiredkv.Vfs.Disk.Laws.{IsHealthy}
use wiredkv.Vfs.Fs.{fresh_env, Env, LogStructuredFs, ◌>>◌}
use wiredkv.Vfs.Lfs.{index_file_name}
use wiredkv.Vfs.Lfs.WellFormed.{WellFormed}
use wiredkv.Vfs.Lfs.Rotated.{rotated, rotated-WellFormed}
use wiredkv.Vfs.Lfs.Fresh.{new_fs, first_region, found_in_empty}
use wiredkv.Vfs.Lfs.Refinement.{Records, Command, exec, spec, Represents}
use wiredkv.Vfs.Lfs.Refinement.Step.{exec-Refines}
use wiredkv.Vfs.Lfs.Refinement.Sequence.{AllAllowed, no_records}
use wiredkv.Vfs.Recovery.{sorted_ids, insert_id}
use wiredkv.Vfs.Recovery.Regions.{IsLaidOut, crash_recovery_all_index-Restores}
use wiredkv.Vfs.Recovery.Order.{HasRegion, All-step, IsDistinct, sorted_ids-All, sorted_ids_same}
use wiredkv.Vfs.Recovery.Journal.{Journal}
use wiredkv.Vfs.Recovery.Journal.Opened.{rotated-Journal}
use wiredkv.Vfs.Recovery.Commands.{Outlasts, exec-Journal}
use wiredkv.Vfs.Snapshot.{recovery_index}
use wiredkv.Vfs.Snapshot.Reopened.{reset_records}
use wiredkv.Vfs.Open.{Options, open_fs}
use wiredkv.Vfs.Open.Directory.{check_file_system_passes}
use wiredkv.Vfs.Open.Trip.{
  continued, registers, found_region, recover_regions_run, continued-WellFormed,
}
use wiredkv.Vfs.Open.Reopened.{Opens, index-other, rotated_indexs}
use wiredkv.Vfs.Open.Empty.{first_store, open_fs-WellFormed}
use wiredkv.Vfs.Open.Session.{store_after, records_after}

module _ (env : Env) (hv : IsHashes env.hashes) (later : ℕ) (opt : Options) (s : LogStructuredFs)
    (m : Records) (w : WellFormed env s) (j : Journal env later s m)
    (small : s.region_id + 1 < 10 ^ 9) where
  abbrev t0 : LogStructuredFs
  t0 = continued env s w opt.path small

  abbrev t : LogStructuredFs
  t = rotated env t0

  t-WellFormed : WellFormed env t
  t-WellFormed = rotated-WellFormed env t0 (continued-WellFormed env s w opt.path small) small

  -- The regions are found as they were written.
  continued-Journal : Journal env later t0 m
  unfolding new_fs
  continued-Journal =
      let reg = registers env s w opt.path small in
      record {
        segs_of = j.segs_of;
        distinct = reg.distinct;
        no_index = j.no_index;
        laid = λ id f p.
            let l = j.laid id f (reg.sound id f p) in
            record {
              file = l.file;
              region = found_region env s w opt.path small id l.file l.region;
              text = l.text;
              small = l.small;
              readable = l.readable;
            };
        unborn = j.unborn;
        live = j.live;
        replays =
            rw
              (sorted_ids_same reg.regions s.regions reg.distinct j.distinct reg.sound
                (found_region env s w opt.path small))
              j.replays;
      }

  t-Journal : Journal env later t m
  t-Journal =
      rotated-Journal env later t0 (continued-WellFormed env s w opt.path small) m continued-Journal
        small

  t-Represents : Represents env t no_records
  unfolding new_fs
  t-Represents = record { each = λ inum. rw (found_in_empty t (rotated_indexs env t0) inum) tt }

  -- Let a store satisfy the invariant, its region files be in step with the map that it stands for,
  -- and let there be room for one more region. Then its directory, as it is on the disk, is opened
  -- without an error, as a store that stands for the same map with all versions at 0.
  pub open_fs-Journal : Opens env later opt s.disk (reset_records m)
  unfolding open_fs recovery_index is_exist ◌>>◌ new_fs
  open_fs-Journal =
      let jt = t-Journal in
      let back =
        crash_recovery_all_index-Restores (fresh_env env) hv later t jt.segs_of no_records
          (All-step (HasRegion t.regions) (λ id. IsLaidOut (fresh_env env) t id (jt.segs_of id))
            (sorted_ids t.regions) (λ id (f, p). jt.laid id f p) (sorted_ids-All t.regions))
          (WellFormed-switched new_transformer t-WellFormed)
          (Represents-switched new_transformer t-Represents) in
      record {
        opened = record t { indexs = back.indexs };
        returned =
            rw
              (
                check_file_system_passes s.disk w.healthy w.headed,
                recover_regions_run env s w opt.path small,
                jt.no_index,
                back.returned,
              )
              refl;
        well_formed = WellFormed-switched env.transformer back.well_formed;
        represents =
            subst (Represents env (record t { indexs = back.indexs })) jt.replays
              (Represents-switched env.transformer back.represents);
      }

abbrev pub AllOutlast : ℕ → List Command → Type 0
AllOutlast later [] = Unit {0}
AllOutlast later (c ∷ cs) = Outlasts later c × AllOutlast later cs

pub store_after-Journal :
    (env : Env) (later : ℕ) (cs : List Command) (s : LogStructuredFs) (m : Records)
    → IsHashes env.hashes
    → WellFormed env s
    → Represents env s m
    → Journal env later s m
    → AllAllowed env s cs
    → AllOutlast later cs
    → WellFormed env (store_after env cs s)
      × Journal env later (store_after env cs s) (records_after env cs m)
unfolding store_after records_after
store_after-Journal env later [] s m hv w rep j all lasting = (w, j)
store_after-Journal env later (c ∷ cs) s m hv w rep j (allowed, all) (lasts, lasting) =
    let (_, w', rep') = exec-Refines env hv s w m rep c allowed in
    store_after-Journal env later cs (exec env c s).1 (spec env c m).1 hv w' rep'
      (exec-Journal env hv later s w m rep j c allowed lasts) all lasting

module _ (env : Env) (now later : ℕ) (opt : Options) (d : Disk) (healthy : IsHealthy d)
    (empty : d.files ≡ []) where
  abbrev first : LogStructuredFs
  first = first_store env now opt d healthy empty

  first-IsLaidOut :
      (id : ℕ) (f : File) → lookup id first.regions ≡ some f → IsLaidOut (fresh_env env) first id []
  unfolding new_fs insert lookup
  first-IsLaidOut id f p =
      let name = format_data_file_name 1 in
      let e : f ≡ name = ground (arith, p) in
      record {
        file = f;
        region = p;
        text =
            ap (λ g. lookup g first.disk.files) e
            ∙ first_region opt.path d env healthy empty name
            ∙ rw (==-self name) refl;
        small = omega arith;
        readable = tt;
      }

  pub first-Journal : Journal env later first no_records
  unfolding new_fs insert lookup IsDistinct sorted_ids insert_id
  first-Journal = record {
    segs_of = λ id. [];
    distinct = (refl, tt);
    no_index =
        first_region opt.path d env healthy empty index_file_name
        ∙ rw (index-other 1 (omega arith)) refl;
    laid = first-IsLaidOut;
    unborn = λ id above. refl;
    live = λ inum. tt;
    replays = refl;
  }

  -- On a disk without planned faults, let a new or empty directory be opened, and commands be given for
  -- which there is room at each step, which leave room for one more region. Let their effect outlast
  -- the time `later`: no record that they write has expired by then or is a tombstone, and no fetch is
  -- after it. Then the opening succeeds; and whenever the process ends
  -- after these commands, without closing the store, the directory that is left is opened at `later` by
  -- a new process,
  -- as a store that satisfies the invariant and stands for the map that the commands made, with all
  -- versions at 0.
  pub open_fs-Survives :
      (made : Bool) (cs : List Command)
      → IsHashes env.hashes
      → AllAllowed env first cs
      → AllOutlast later cs
      → (store_after env cs first).region_id + 1 < 10 ^ 9
      → (open_fs env now made opt d ≡ (ok first, first.disk))
        × Opens env later opt
            (store_after env cs first).disk
            (reset_records (records_after env cs no_records))
  open_fs-Survives made cs hv all lasting small =
      let (opening, w, rep) = open_fs-WellFormed env now opt d healthy empty made in
      let (w', j') =
        store_after-Journal env later cs first no_records hv w rep first-Journal all lasting in
      (
        opening,
        open_fs-Journal env hv later opt (store_after env cs first)
            (records_after env cs no_records) w' j' small,
      )

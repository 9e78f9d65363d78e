-- ===== src/Vfs/Recovery/Journal/Opened.antt =====
-- A new region of vfs/lfs.go, which has no records yet.
use mathlib.Core.Path.{subst}
use wiredkv.Prelude.{
  ℕ, ◌+◌, ◌^◌, ◌<◌, ◌≡◌, refl, sym, ap, ◌∙◌, arith, none, some, list_eq, nat_eq, ◌==◌, Bool-cases,
  inl, inr, list_beq_iff, ==-self, ==→≡, leb,
}
use wiredkv.Prelude.Map.{lookup, lookup-insert, lookup-insert_self}
use wiredkv.Vfs.FileName.{format_data_file_name}
use wiredkv.Vfs.Disk.{File, append_file}
use wiredkv.Vfs.Fs.{fresh_env, Env, LogStructuredFs}
use wiredkv.Vfs.Lfs.{index_file_name}
use wiredkv.Vfs.Lfs.Runs.{with_region}
use wiredkv.Vfs.Lfs.WellFormed.{WellFormed}
use wiredkv.Vfs.Lfs.Rotated.{rotated, lookup-with_region}
use wiredkv.Vfs.Lfs.Refinement.{Records}
use wiredkv.Vfs.Lfs.Refinement.Sequence.{no_records}
use wiredkv.Vfs.Recovery.{sorted_ids}
use wiredkv.Vfs.Recovery.Regions.{IsLaidOut, regions_logged}
use wiredkv.Vfs.Recovery.Order.{insert-IsDistinct, sorted_ids-insert, entries-All}
use wiredkv.Vfs.Open.Reopened.{index-other}
use wiredkv.Vfs.Recovery.Journal.{Journal, regions_logged-append}

module _ (env : Env) (later : ℕ) (s : LogStructuredFs) (w : WellFormed env s) (m : Records)
    (j : Journal env later s m) where
  module _ (small : s.region_id + 1 < 10 ^ 9) where
    abbrev next_id : ℕ
    next_id = s.region_id + 1

    abbrev u : LogStructuredFs
    u = with_region next_id s

    absent : lookup (format_data_file_name next_id) s.disk.files ≡ none
    absent = w.fresh next_id (omega arith) small

    opened-IsLaidOut :
        (id : ℕ) (f : File)
        → lookup id u.regions ≡ some f
        → IsLaidOut (fresh_env env) u id (j.segs_of id)
    unfolding append_file
    opened-IsLaidOut id f p = elim (Bool-cases (next_id == id)) [
      | inl same ↦
          subst (λ k. IsLaidOut (fresh_env env) u k (j.segs_of k)) (==→≡ next_id id same)
            (rw (j.unborn next_id (omega arith)) (record {
              file = format_data_file_name next_id;
              region = lookup-insert_self next_id (format_data_file_name next_id) s.regions;
              text =
                  lookup-with_region s next_id (format_data_file_name next_id) absent
                  ∙ rw (==-self (format_data_file_name next_id)) refl;
              small = omega arith;
              readable = tt;
            }))
      | inr other ↦
          let q = sym (lookup-insert next_id id (format_data_file_name next_id) s.regions) ∙ p in
          let l = j.laid id f (rw other at q) in
          record {
            file = l.file;
            region =
                lookup-insert next_id id (format_data_file_name next_id) s.regions
                ∙ rw other l.region;
            text =
                lookup-with_region s next_id l.file absent
                ∙ ground
                    (arith, absent, l.text, list_beq_iff (format_data_file_name next_id) l.file);
            small = l.small;
            readable = l.readable;
          }
    ]

    with_region-Journal : Journal env later u m
    unfolding append_file
    with_region-Journal = record {
      segs_of = j.segs_of;
      distinct = insert-IsDistinct next_id (format_data_file_name next_id) s.regions j.distinct;
      no_index =
          lookup-with_region s next_id index_file_name absent
          ∙ rw (index-other next_id small) j.no_index;
      laid = opened-IsLaidOut;
      unborn = λ id above. j.unborn id (omega arith);
      live = j.live;
      replays =
          ap (λ ids. regions_logged env.hashes later j.segs_of ids no_records)
            (sorted_ids-insert next_id (format_data_file_name next_id) s.regions (
              entries-All (λ id. id < next_id) s.regions
                (λ id (f, p). omega (arith, w.below id f p))))
          ∙ regions_logged-append env.hashes later j.segs_of (sorted_ids s.regions) next_id
              no_records
          ∙ rw (j.unborn next_id (omega arith)) j.replays;
    }

    -- A new region has no records.
    pub rotated-Journal : Journal env later (rotated env s) m
    rotated-Journal = elim (Bool-cases (leb env.region_threshold s.offset)) [
      | inl full ↦ rw full with_region-Journal
      | inr room ↦ rw room j
    ]

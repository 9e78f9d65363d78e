-- ===== src/Vfs/Lfs/Faults.antt =====
-- The operations of vfs/lfs.go on keys when writes and opens may fail: what a client sees afterwards.
pub mod Put
pub mod Cas
use mathlib.Core.Path.{subst}
use wiredkv.Prelude.{
  ℕ, ◌+◌, ◌%◌, ◌^◌, ◌<◌, ◌≡◌, ◌≢◌, refl, sym, ap, ◌∙◌, arith, ◌⊎◌, List, Option, none, some, Result,
  ok, err, Error, io_failed, nat_eq, nat_beq, length, leb, list_eq, ◌==◌, if◌then◌else◌, Bool-cases,
  inl, inr, Bool, true, false,
}
use wiredkv.Prelude.Bytes.{Bytes}
use wiredkv.Prelude.Map.{lookup, insert, lookup-insert}
use wiredkv.Vfs.FileName.{generate_file_name}
use wiredkv.Vfs.Disk.{File, Disk, Outcome, open_file, write}
use wiredkv.Vfs.Disk.Faults.{Grows, Grows-trans, write-Grows, open_file-Grows, write-cases}
use wiredkv.Vfs.Hash.{IsHashes, inode_num}
use wiredkv.Vfs.Fs.{Env, LogStructuredFs, IndexMap, ◌>>=◌, ◌>>◌, find_inode, entry_of, select_shard}
use wiredkv.Vfs.Lfs.{create_active_region, rotate_if_full, data_file_metadata, fetch_segment}
use wiredkv.Vfs.Lfs.Index.{HasShards}
use wiredkv.Vfs.Lfs.WellFormed.{WellFormed}
use wiredkv.Vfs.Lfs.View.{view-Extends, fetch_run, fetch-eq-view}
use wiredkv.Vfs.Lfs.Stored.{Extends, Extends-refl, Extends-trans}

pub Result-cases :
    {A : Type 0} (r : Result A) → ((a : A) × (r ≡ ok a)) ⊎ ((e : Error) × (r ≡ err e))
Result-cases (ok a) = inl (a, refl)
Result-cases (err e) = inr (e, refl)

-- The index is the same, and regions and files have more at most.
pub record Leaves (s t : LogStructuredFs) : Type 0 where
  pub extends : Extends s t
  pub indexs : t.indexs ≡ s.indexs

pub Leaves-refl : (s : LogStructuredFs) → Leaves s s
Leaves-refl s = record { extends = Extends-refl s; indexs = refl }

pub Leaves-trans : {s t u : LogStructuredFs} → Leaves s t → Leaves t u → Leaves s u
Leaves-trans l k = record {
  extends = Extends-trans l.extends k.extends;
  indexs = k.indexs ∙ l.indexs;
}

-- The disk has other outcomes ahead.
abbrev pub faulty : List Outcome → LogStructuredFs → LogStructuredFs
faulty os s = record s { disk = record s.disk { outcomes = os } }

pub Leaves-faulty : (os : List Outcome) (s : LogStructuredFs) → Leaves s (faulty os s)
Leaves-faulty os s = record {
  extends = record { regions = λ id f p. p; files = (Extends-refl s).files };
  indexs = refl;
}

-- A client sees the same.
pub fetch_segment-Leaves :
    (env : Env) (s t : LogStructuredFs) (now : ℕ) (key : Bytes)
    → IsHashes env.hashes
    → WellFormed env s
    → Leaves s t
    → (fetch_segment env now key t).0 ≡ (fetch_segment env now key s).0
unfolding find_inode
fetch_segment-Leaves env s t now key hv w l =
    let inum = inode_num env.hashes key in
    let same : find_inode t inum ≡ find_inode s inum =
      ap (λ ms. entry_of (select_shard ms inum) inum) l.indexs in
    let shards : HasShards t.indexs = subst HasShards (sym l.indexs) w.shards in
    ap (λ r. r.0) (fetch_run env now key t shards)
    ∙ view-Extends env hv now s t inum w l.extends same
    ∙ sym (fetch-eq-view env now key s w)

module _ (s : LogStructuredFs) (fresh : lookup ((s.region_id + 1) % 2 ^ 64) s.regions ≡ none) where
  abbrev id : ℕ
  id = (s.region_id + 1) % 2 ^ 64

  abbrev opened : File → LogStructuredFs
  opened name = record s { region_id = id; disk = (open_file name s.disk).1 }

  abbrev written : File → File → LogStructuredFs
  written name active = record s {
    region_id = id;
    disk = (write active data_file_metadata (open_file name s.disk).1).1;
  }

  written-Grows : (name active : File) → Grows s.disk (written name active).disk
  written-Grows name active =
      Grows-trans (open_file-Grows name s.disk)
        (write-Grows active data_file_metadata (open_file name s.disk).1)

  written-Leaves : (name active : File) → Leaves s (written name active)
  written-Leaves name active = record {
    extends = record { regions = λ i f p. p; files = (written-Grows name active).files };
    indexs = refl;
  }

  create_active_region-Leaves : Leaves s (create_active_region s).1
  unfolding create_active_region ◌>>=◌ ◌>>◌
  create_active_region-Leaves = elim (Result-cases (generate_file_name id)) [
    | inr (e, no_name) ↦ rw no_name (record {
      extends = record { regions = λ i f p. p; files = (Extends-refl s).files };
      indexs = refl;
    })
    | inl (name, named) ↦ elim (Result-cases (open_file name s.disk).0) [
      | inr (e, closed) ↦
          rw (named, closed)
            (record {
              extends = record {
                regions = λ i f p. p;
                files = (open_file-Grows name s.disk).files;
              };
              indexs = refl;
            })
      | inl (active, open_now) ↦
          elim (Result-cases (write active data_file_metadata (open_file name s.disk).1).0) [
            | inr (e, unwritten) ↦ rw (named, open_now, unwritten) (written-Leaves name active)
            | inl (n, count) ↦ elim (Bool-cases (nat_beq n (length data_file_metadata))) [
              | inr fewer ↦ rw (named, open_now, count, fewer) (written-Leaves name active)
              | inl whole ↦
                  rw (named, open_now, count, whole)
                    (record {
                      extends = record {
                        regions = λ i f p. rw lookup-insert (ground (arith, p, fresh));
                        files = (written-Grows name active).files;
                      };
                      indexs = refl;
                    })
            ]
          ]
    ]
  ]

  pub rotate_if_full-Leaves : (env : Env) → Leaves s (rotate_if_full env s).1
  unfolding rotate_if_full
  rotate_if_full-Leaves env = elim (Bool-cases (leb env.region_threshold s.offset)) [
    | inl full ↦ rw full create_active_region-Leaves
    | inr room ↦ rw room (Leaves-refl s)
  ]

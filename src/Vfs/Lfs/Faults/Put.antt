-- ===== src/Vfs/Lfs/Faults/Put.antt =====
-- A put that may fail takes effect as a whole or not at all, for whoever reads.
use wiredkv.Prelude.{
  ℕ, ◌+◌, ◌%◌, ◌^◌, ◌≡◌, refl, ap, ◌∙◌, arith, ◌⊎◌, List, none, some, Result, ok, err, Error,
  io_failed, nat_eq, ◌==◌, if◌then◌else◌, Bool-cases, Option-cases, inl, inr, length, nat_beq,
  nat_beq_iff, true,
}
use wiredkv.Prelude.Bytes.{Bytes}
use wiredkv.Prelude.Map.{lookup}
use wiredkv.Vfs.Hash.{IsHashes, inode_num}
use wiredkv.Vfs.Segment.{Segment}
use wiredkv.Vfs.Codec.{INode, serialized_segment}
use wiredkv.Vfs.Disk.{Outcome, write, append_file, contents, tail_outcomes}
use wiredkv.Vfs.Disk.Faults.{write-Grows, write-cases}
use wiredkv.Vfs.Fs.{Env, LogStructuredFs, ◌>>=◌, ◌>>◌, find_inode, store_inode, advance}
use wiredkv.Vfs.Lfs.{put_segment, fetch_segment, append_to_active_region, rotate_if_full, inode_at}
use wiredkv.Vfs.Lfs.Index.{shard_present, find_inode-store_inode}
use wiredkv.Vfs.Lfs.Stored.{StoredAs, StoredAs-Extends, Extends, Extends-trans}
use wiredkv.Vfs.Lfs.WellFormed.{WellFormed}
use wiredkv.Vfs.Lfs.Append.{grown, grown-Extends, store_inode-Extends}
use wiredkv.Vfs.Lfs.View.{view, view_of, view-StoredAs, view-Extends, fetch-eq-view}
use wiredkv.Vfs.Lfs.Put.{Fits, put_points, indexed, indexed-WellFormed, added-StoredAs}
use wiredkv.Vfs.Lfs.Faults.{
  Leaves, Leaves-trans, Leaves-faulty, faulty, fetch_segment-Leaves, rotate_if_full-Leaves,
}

module _ (env : Env) (hv : IsHashes env.hashes) (s : LogStructuredFs) (w : WellFormed env s)
    (key : Bytes) (seg : Segment) (fits : Fits s key seg) where
  abbrev n : INode
  n = inode_at env seg s

  abbrev inum : ℕ
  inum = inode_num env.hashes key

  abbrev ser : Bytes
  ser = serialized_segment env.hashes seg

  -- The store with the record in its file and its index.
  abbrev stored : LogStructuredFs
  stored = indexed env hv s w key seg fits n (put_points env hv s w key seg fits)

  stored-WellFormed : WellFormed env stored
  stored-WellFormed =
      indexed-WellFormed env hv s w key seg fits n (put_points env hv s w key seg fits)

  abbrev grown_store : LogStructuredFs
  grown_store = grown env s w seg fits.valid fits.room

  find_stored : (j : ℕ) → find_inode stored j ≡ (if inum == j then some n else find_inode s j)
  unfolding find_inode advance
  find_stored j = find_inode-store_inode grown_store w.shards inum j n

  view-stored :
      (now j : ℕ)
      → view env now stored j ≡ (if inum == j then view_of env now 0 seg else view env now s j)
  unfolding inode_at
  view-stored now j = elim (Bool-cases (inum == j)) [
    | inl same ↦
        let found : find_inode stored j ≡ some n = find_stored j ∙ rw same in
        let st : StoredAs env stored n seg =
          StoredAs-Extends
            (added-StoredAs env hv s w key seg fits n (put_points env hv s w key seg fits))
            (store_inode-Extends inum n grown_store) in
        rw same (view-StoredAs env hv now stored j n seg found st refl)
    | inr other ↦
        let kept : find_inode stored j ≡ find_inode s j = find_stored j ∙ rw other in
        let e : Extends s stored =
          Extends-trans (grown-Extends env s w seg fits.valid fits.room)
            (store_inode-Extends inum n grown_store) in
        rw other (view-Extends env hv now s stored j w e kept)
  ]

  fetch_stored :
      (now : ℕ) (key' : Bytes)
      → (fetch_segment env now key' stored).0 ≡ (
          if inode_num env.hashes key == inode_num env.hashes key'
          then view_of env now 0 seg
          else (fetch_segment env now key' s).0)
  fetch_stored now key' =
      rw (fetch-eq-view env now key' stored stored-WellFormed, fetch-eq-view env now key' s w)
        (view-stored now (inode_num env.hashes key'))

  no_next : lookup ((stored.region_id + 1) % 2 ^ 64) stored.regions ≡ none
  unfolding store_inode advance
  no_next = elim (Option-cases (lookup ((s.region_id + 1) % 2 ^ 64) s.regions)) [
    | inl none_yet ↦ none_yet
    | inr (f, found) ↦
        absurd (omega (arith, w.below ((s.region_id + 1) % 2 ^ 64) f found, fits.regions_left))
  ]

  module _ (os : List Outcome) where
    abbrev after : Result (Unit {0}) × LogStructuredFs
    after = put_segment env key seg (faulty os s)

    put_unwritten :
        (write w.file ser (faulty os s).disk).0 ≡ err io_failed
        → after ≡ (err io_failed, record s { disk = (write w.file ser (faulty os s).disk).1 })
    unfolding put_segment append_to_active_region ◌>>=◌ ◌>>◌
    put_unwritten failed = rw (w.active, failed) refl

    put_written :
        write w.file ser (faulty os s).disk ≡ (
          ok (length ser),
          append_file w.file ser (record s.disk { outcomes = tail_outcomes os }),
        )
        → after ≡ rotate_if_full env (faulty (tail_outcomes os) stored)
    unfolding put_segment append_to_active_region ◌>>=◌ ◌>>◌ store_inode advance inode_at
        append_file contents
    put_written done =
        let (m, shard) = shard_present s.indexs inum w.shards in
        let whole : nat_beq (length ser) (length ser) ≡ true = (nat_beq_iff _ _).1 refl in
        rw (w.active, done, whole, shard) refl

    unwritten-Leaves : Leaves s (record s { disk = (write w.file ser (faulty os s).disk).1 })
    unwritten-Leaves = record {
      extends = record {
        regions = λ id f p. p;
        files = λ f c p. (write-Grows w.file ser (faulty os s).disk).files f c p;
      };
      indexs = refl;
    }

    stored-Leaves : Leaves stored (rotate_if_full env (faulty (tail_outcomes os) stored)).1
    stored-Leaves =
        Leaves-trans (Leaves-faulty (tail_outcomes os) stored)
          (rotate_if_full-Leaves (faulty (tail_outcomes os) stored) no_next env)

    -- From a state that satisfies the invariant, whatever outcomes the disk has for the writes and
    -- opens of a put of a record that fits: either the put reports an error, and each fetch answers
    -- what it answered before; or a fetch of a key with the same inode number answers for the new
    -- record, and a fetch of any other key answers what it answered before.
    pub fetch_segment-put_segment_faulty :
        (((e : Error) × (after.0 ≡ err e))
          × ((now : ℕ) (key' : Bytes)
              → (fetch_segment env now key' after.1).0 ≡ (fetch_segment env now key' s).0))
        ⊎ ((now : ℕ) (key' : Bytes)
            → (fetch_segment env now key' after.1).0 ≡ (
                if inode_num env.hashes key == inode_num env.hashes key'
                then view_of env now 0 seg
                else (fetch_segment env now key' s).0))
    fetch_segment-put_segment_faulty = elim (write-cases w.file ser (faulty os s).disk) [
      | inr failed ↦
          let run = put_unwritten failed in
          inl (
            (io_failed, ap (λ r. r.0) run),
            λ now key'.
                ap (λ r. (fetch_segment env now key' r.1).0) run
                ∙ fetch_segment-Leaves env s _ now key' hv w unwritten-Leaves,
          )
      | inl done ↦
          let run = put_written done in
          inr (λ now key'.
            ap (λ r. (fetch_segment env now key' r.1).0) run
            ∙ fetch_segment-Leaves env stored _ now key' hv stored-WellFormed stored-Leaves
            ∙ fetch_stored now key')
    ]

-- ===== src/Vfs/Lfs/Delete.antt =====
-- A delete makes its key unknown, and keeps the invariant and all other answers; so does a fetch
-- that drops an expired entry.
use wiredkv.Prelude.{
  ℕ, ◌+◌, ◌^◌, ◌<◌, ◌≡◌, refl, ◌∙◌, none, ok, err, ◌==◌, nat_eq, if◌then◌else◌, Bool-cases,
  Option-cases, inl, inr, index_not_found,
}
use wiredkv.Prelude.Bytes.{Bytes}
use wiredkv.Vfs.Hash.{IsHashes, inode_num}
use wiredkv.Vfs.Segment.{size, new_tombstone_segment}
use wiredkv.Vfs.Codec.SegmentTrip.{IsSegment}
use wiredkv.Vfs.Fs.{Env, LogStructuredFs, find_inode, delete_inode, advance}
use wiredkv.Vfs.Lfs.{delete_segment, fetch_segment, is_expired}
use wiredkv.Vfs.Lfs.Index.{shard_present, find_inode-delete_inode}
use wiredkv.Vfs.Lfs.Stored.{Extends, Extends-trans}
use wiredkv.Vfs.Lfs.Runs.{delete_run}
use wiredkv.Vfs.Lfs.WellFormed.{WellFormed}
use wiredkv.Vfs.Lfs.Append.{
  grown, grown-Extends, grown-WellFormed, delete_inode-WellFormed, delete_inode-Extends,
}
use wiredkv.Vfs.Lfs.View.{view, view-Extends, fetch-eq-view, fetch_run}

module _ (env : Env) (hv : IsHashes env.hashes) (s : LogStructuredFs) (w : WellFormed env s)
    (t0 : ℕ) (key : Bytes) (v : IsSegment (new_tombstone_segment t0 key))
    (room : s.offset + size (new_tombstone_segment t0 key) < 2 ^ 64) where
  abbrev pub inum : ℕ
  inum = inode_num env.hashes key

  abbrev pub added : LogStructuredFs
  added = grown env s w (new_tombstone_segment t0 key) v room

  added-WellFormed : WellFormed env added
  added-WellFormed = grown-WellFormed env s w (new_tombstone_segment t0 key) v room

  pub deleted_run : delete_segment env t0 key s ≡ (ok tt, delete_inode inum added)
  deleted_run =
      let (m, shard) = shard_present s.indexs inum w.shards in
      delete_run env s w.healthy w.file m key w.active shard t0

  pub find_deleted :
      (j : ℕ)
      → find_inode (delete_inode inum added) j ≡ (if inum == j then none else find_inode s j)
  find_deleted j =
      find_inode-delete_inode added added-WellFormed.shards inum j
      ∙ (unfold find_inode advance in refl)

  pub deleted-Extends : Extends s (delete_inode inum added)
  deleted-Extends =
      Extends-trans (grown-Extends env s w (new_tombstone_segment t0 key) v room)
        (delete_inode-Extends inum added)

  view-deleted :
      (now j : ℕ)
      → view env now (delete_inode inum added) j
        ≡ (if inum == j then err index_not_found else view env now s j)
  unfolding view advance
  view-deleted now j = elim (Bool-cases (inum == j)) [
    | inl same ↦ rw (find_deleted j, same)
    | inr other ↦ rw other (
        view-Extends env hv now s (delete_inode inum added) j w deleted-Extends
          (find_deleted j ∙ rw other))
  ]

  -- From a state that satisfies the invariant, a delete for whose tombstone there is room succeeds
  -- and keeps the invariant.
  pub delete_segment-WellFormed :
      ((delete_segment env t0 key s).0 ≡ ok tt) × WellFormed env (delete_segment env t0 key s).1
  delete_segment-WellFormed =
      rw deleted_run (refl, delete_inode-WellFormed env added added-WellFormed inum)

  -- From a state that satisfies the invariant, after a delete for whose tombstone there is room, a
  -- fetch at any time of a key with the same inode number finds no entry, and a fetch of any other
  -- key answers what it answered before.
  pub fetch_segment-delete_segment :
      (now : ℕ) (key' : Bytes)
      → (fetch_segment env now key' (delete_segment env t0 key s).1).0 ≡ (
          if inode_num env.hashes key == inode_num env.hashes key'
          then err index_not_found
          else (fetch_segment env now key' s).0)
  fetch_segment-delete_segment now key' =
      rw
        (
          deleted_run,
          fetch-eq-view env now key' (delete_inode inum added)
              (delete_inode-WellFormed env added added-WellFormed inum),
          fetch-eq-view env now key' s w,
        )
        (view-deleted now (inode_num env.hashes key'))

-- A fetch at any time keeps the invariant, also when it drops an expired entry.
pub fetch_segment-WellFormed :
    (env : Env) (now : ℕ) (key : Bytes) (s : LogStructuredFs)
    → WellFormed env s
    → WellFormed env (fetch_segment env now key s).1
fetch_segment-WellFormed env now key s w =
    let inum = inode_num env.hashes key in
    elim (Option-cases (find_inode s inum)) [
      | inl missing ↦ rw (fetch_run env now key s w.shards, missing) w
      | inr (n, found) ↦ elim (Bool-cases (is_expired now n)) [
        | inl old ↦
            rw (fetch_run env now key s w.shards, found, old) (delete_inode-WellFormed env s w inum)
        | inr live ↦ rw (fetch_run env now key s w.shards, found, live) w
      ]
    ]

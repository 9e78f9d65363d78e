-- ===== src/Vfs/Lfs/Put.antt =====
-- A put answers for its key from then on, and keeps the invariant and all other answers.
use wiredkv.Prelude.{
  ℕ, ◌+◌, ◌^◌, ◌<◌, ◌≡◌, refl, ap, ◌∙◌, arith, some, ok, ◌==◌, nat_eq, if◌then◌else◌, Bool-cases,
  inl, inr,
}
use wiredkv.Prelude.Bytes.{Bytes}
use wiredkv.Vfs.Hash.{IsHashes, inode_num}
use wiredkv.Vfs.Segment.{Segment, size}
use wiredkv.Vfs.Codec.{INode}
use wiredkv.Vfs.Codec.SegmentTrip.{IsSegment}
use wiredkv.Vfs.Fs.{Env, LogStructuredFs, find_inode, store_inode, advance}
use wiredkv.Vfs.Lfs.{put_segment, rotate_if_full, inode_at, fetch_segment}
use wiredkv.Vfs.Lfs.Index.{shard_present, find_inode-store_inode}
use wiredkv.Vfs.Lfs.Stored.{StoredAs, Extends, StoredAs-Extends, Extends-trans}
use wiredkv.Vfs.Lfs.Runs.{put_run}
use wiredkv.Vfs.Lfs.WellFormed.{WellFormed}
use wiredkv.Vfs.Lfs.Rotated.{
  rotated, rotate_run, rotated-WellFormed, rotated-Extends, find_inode-rotated,
}
use wiredkv.Vfs.Lfs.Append.{
  grown, grown-Extends, grown-WellFormed, grown-StoredAs, store_inode-WellFormed,
  store_inode-Extends,
}
use wiredkv.Vfs.Lfs.View.{view, view_of, view-StoredAs, view-Extends, fetch-eq-view}

-- A record may be put into the store: it is well formed, of that key, and there is room for it in
-- 64 bits and for one more region below 10 ^ 9.
pub record Fits (s : LogStructuredFs) (key : Bytes) (seg : Segment) : Type 0 where
  pub valid : IsSegment seg
  pub key_is : seg.key ≡ key
  pub room : s.offset + size seg < 2 ^ 64
  pub regions_left : s.region_id + 1 < 10 ^ 9

-- The entry `n` notes what is true of the record, at the end of the active region.
pub record Points (s : LogStructuredFs) (n : INode) (seg : Segment) : Type 0 where
  pub region_is : n.region_id ≡ s.region_id
  pub position_is : n.position ≡ s.offset
  pub length_is : n.length ≡ size seg
  pub expired_is : n.expired_at ≡ seg.expired_at
  pub created_is : n.created_at ≡ seg.created_at

module _ (env : Env) (hv : IsHashes env.hashes) (s : LogStructuredFs) (w : WellFormed env s)
    (key : Bytes) (seg : Segment) (fits : Fits s key seg) (n : INode)
    (points : Points s n seg) where
  abbrev pub inum : ℕ
  inum = inode_num env.hashes key

  abbrev pub added : LogStructuredFs
  added = grown env s w seg fits.valid fits.room

  -- The record is added and the entry stored, before a new region is opened.
  abbrev pub indexed : LogStructuredFs
  indexed = store_inode inum n added

  abbrev pub final : LogStructuredFs
  final = rotated env indexed

  pub added-StoredAs : StoredAs env added n seg
  added-StoredAs =
      grown-StoredAs env s w seg fits.valid fits.room n points.region_is points.position_is

  pub indexed-WellFormed : WellFormed env indexed
  indexed-WellFormed =
      store_inode-WellFormed env added (grown-WellFormed env s w seg fits.valid fits.room) inum n
        (record {
          seg = seg;
          stored = added-StoredAs;
          region_fits = omega (arith, points.region_is, fits.regions_left);
          position_fits = omega (arith, points.position_is, fits.room);
          owner = ap (inode_num env.hashes) fits.key_is;
          length_is = points.length_is;
          expired_is = points.expired_is;
          created_is = points.created_is;
        })

  indexed_small : indexed.region_id + 1 < 10 ^ 9
  unfolding store_inode advance
  indexed_small = fits.regions_left

  pub final_run : rotate_if_full env indexed ≡ (ok tt, final)
  final_run = rotate_run env indexed indexed-WellFormed indexed_small

  pub final-WellFormed : WellFormed env final
  final-WellFormed = rotated-WellFormed env indexed indexed-WellFormed indexed_small

  added→final : Extends added final
  added→final =
      Extends-trans (store_inode-Extends inum n added)
        (rotated-Extends env indexed indexed-WellFormed indexed_small)

  pub final-StoredAs : StoredAs env final n seg
  final-StoredAs = StoredAs-Extends added-StoredAs added→final

  pub final-Extends : Extends s final
  final-Extends = Extends-trans (grown-Extends env s w seg fits.valid fits.room) added→final

  pub find_final : (j : ℕ) → find_inode final j ≡ (if inum == j then some n else find_inode s j)
  unfolding find_inode advance
  find_final j =
      find_inode-rotated env indexed indexed-WellFormed indexed_small j
      ∙ find_inode-store_inode added w.shards inum j n

  -- The views afterwards: the record for its own number, and what it was for any other.
  pub view-final :
      (now j : ℕ)
      → view env now final j ≡ (if inum == j then view_of env now n.mvcc seg else view env now s j)
  view-final now j = elim (Bool-cases (inum == j)) [
    | inl same ↦
        let found : find_inode final j ≡ some n = find_final j ∙ rw same in
        rw same (
          view-StoredAs env hv now final j n seg found (StoredAs-Extends added-StoredAs added→final)
            points.expired_is)
    | inr other ↦
        let kept : find_inode final j ≡ find_inode s j = find_final j ∙ rw other in
        rw other (view-Extends env hv now s final j w final-Extends kept)
  ]

module _ (env : Env) (hv : IsHashes env.hashes) (s : LogStructuredFs) (w : WellFormed env s)
    (key : Bytes) (seg : Segment) (fits : Fits s key seg) where
  pub put_points : Points s (inode_at env seg s) seg
  unfolding inode_at
  put_points = record {
    region_is = refl;
    position_is = refl;
    length_is = refl;
    expired_is = refl;
    created_is = refl;
  }

  pub put_final :
      put_segment env key seg s
      ≡ (ok tt, final env hv s w key seg fits (inode_at env seg s) put_points)
  unfolding store_inode advance
  put_final =
      let (m, shard) = shard_present s.indexs (inode_num env.hashes key) w.shards in
      put_run env s w.healthy w.file m key w.active shard seg
      ∙ final_run env hv s w key seg fits (inode_at env seg s) put_points

  -- From a state that satisfies the invariant, a put of a record that fits succeeds and keeps the
  -- invariant.
  pub put_segment-WellFormed :
      ((put_segment env key seg s).0 ≡ ok tt) × WellFormed env (put_segment env key seg s).1
  put_segment-WellFormed =
      rw put_final (refl, final-WellFormed env hv s w key seg fits (inode_at env seg s) put_points)

  -- From a state that satisfies the invariant, after a put of a record that fits, a fetch at any
  -- time of a key with the same inode number answers for the new record, at version 0: that it has
  -- expired, or its value decoded. A fetch of any other key answers what it answered before.
  pub fetch_segment-put_segment :
      (now : ℕ) (key' : Bytes)
      → (fetch_segment env now key' (put_segment env key seg s).1).0 ≡ (
          if inode_num env.hashes key == inode_num env.hashes key'
          then view_of env now 0 seg
          else (fetch_segment env now key' s).0)
  unfolding inode_at
  fetch_segment-put_segment now key' =
      let n = inode_at env seg s in
      let t = final env hv s w key seg fits n put_points in
      rw
        (
          put_final,
          fetch-eq-view env now key' t (final-WellFormed env hv s w key seg fits n put_points),
          fetch-eq-view env now key' s w,
        )
        (view-final env hv s w key seg fits n put_points now (inode_num env.hashes key'))

-- ===== src/Vfs/Lfs/Faults/Cas.antt =====
-- An update that fails to write has raised the version of its entry.
use wiredkv.Prelude.{
  ℕ, ◌^◌, ◌<◌, ◌≡◌, ◌≢◌, refl, sym, ap, ◌∙◌, arith, List, ◌∷◌, Option, none, some, Result, ok, err,
  io_failed, version_conflict, nat_eq, ◌==◌, ==-self, if◌then◌else◌, Bool-cases, inl, inr, true,
  map_result, nat_beq, nat_beq_iff, ==→≡, leb, not, ◌&&◌,
}
use wiredkv.Prelude.Bytes.{Bytes}
use wiredkv.Prelude.Map.{lookup}
use wiredkv.Vfs.Hash.{IsHashes, inode_num}
use wiredkv.Vfs.Segment.{Segment}
use wiredkv.Vfs.Codec.{INode, read_segment, segment_padding}
use wiredkv.Vfs.Disk.{File, Disk, Outcome, failed, write, contents}
use wiredkv.Vfs.Fs.{
  Env, LogStructuredFs, IndexMap, ◌>>=◌, ◌>>◌, find_inode, store_inode, select_shard,
}
use wiredkv.Vfs.Lfs.{
  update_segment_with_cas, fetch_segment, append_to_active_region, fetch_from, fetch_inode,
  is_expired,
}
use wiredkv.Vfs.Lfs.Index.{shard_present}
use wiredkv.Vfs.Lfs.WellFormed.{WellFormed}
use wiredkv.Vfs.Lfs.View.{view, fetch-eq-view}
use wiredkv.Vfs.Lfs.Put.{Fits}
use wiredkv.Vfs.Lfs.Cas.{next_version, raised, raised-WellFormed, find_raised, view-raised}
use wiredkv.Vfs.Lfs.Faults.{Leaves-faulty, faulty, fetch_segment-Leaves}

-- An answer under another version.
abbrev pub under : ℕ → Result (ℕ × Segment) → Result (ℕ × Segment)
under version r = map_result (λ (found : ℕ × Segment). (version, found.1)) r

fetch_from-under :
    (env : Env) (n : INode) (version : ℕ) (d : Disk) (o : Option File)
    → fetch_from env (record n { mvcc = version }) d o ≡ under version (fetch_from env n d o)
fetch_from-under env n version d none = refl
fetch_from-under env n version d (some fd) =
    read_cases (read_segment env.hashes env.transformer (contents fd d) n.position segment_padding)
  where
    read_cases :
        (r : Result (ℕ × Segment))
        → map_result (λ (found : ℕ × Segment). (version, found.1)) r
          ≡ under version (map_result (λ (found : ℕ × Segment). (n.mvcc, found.1)) r)
    read_cases (ok x) = refl
    read_cases (err e) = refl

-- Any other version is refused, whatever the disk does.
update_refused :
    (env : Env) (key : Bytes) (expected : ℕ) (again : Segment) (s : LogStructuredFs) (m : IndexMap)
    (n : INode)
    → select_shard s.indexs (inode_num env.hashes key) ≡ some m
    → find_inode s (inode_num env.hashes key) ≡ some n
    → n.mvcc ≢ expected
    → update_segment_with_cas env key expected again s ≡ (err version_conflict, s)
unfolding update_segment_with_cas ◌>>=◌ ◌>>◌
update_refused env key expected again s m n shard found other = rw (shard, found) (ground arith)

next_version-differs : (v : ℕ) → v < 2 ^ 64 → next_version v ≢ v
next_version-differs v bound same = omega (arith, bound, same)

module _ (env : Env) (hv : IsHashes env.hashes) (s : LogStructuredFs) (w : WellFormed env s)
    (key : Bytes) (seg : Segment) (fits : Fits s key seg) (n : INode)
    (found : find_inode s (inode_num env.hashes key) ≡ some n) (os : List Outcome) where
  abbrev inum : ℕ
  inum = inode_num env.hashes key

  abbrev with_version : LogStructuredFs
  with_version = raised env hv s w key seg fits n found

  abbrev after : Result (Unit {0}) × LogStructuredFs
  after = update_segment_with_cas env key n.mvcc seg (faulty (failed ∷ os) s)

  update_unwritten : after ≡ (err io_failed, faulty os with_version)
  unfolding update_segment_with_cas append_to_active_region write ◌>>=◌ ◌>>◌ store_inode find_inode
  update_unwritten =
      let (m, shard) = shard_present s.indexs inum w.shards in
      let test : nat_beq n.mvcc n.mvcc ≡ true = (nat_beq_iff n.mvcc n.mvcc).1 refl in
      rw (shard, found, test, w.active) refl

  view-with_version :
      (now j : ℕ)
      → view env now with_version j
        ≡ (if inum == j then under (next_version n.mvcc) (view env now s j) else view env now s j)
  unfolding view fetch_inode is_expired store_inode
  view-with_version now j = elim (Bool-cases (inum == j)) [
    | inl same ↦
        let at_j : find_inode s j ≡ some n = ap (find_inode s) (sym (==→≡ inum j same)) ∙ found in
        let n' : INode = record n { mvcc = next_version n.mvcc } in
        let raised_j : find_inode with_version j ≡ some n' =
          find_raised env hv s w key seg fits n found j ∙ rw same in
        rw same (elim (Bool-cases (leb n.expired_at now && not (nat_beq n.expired_at 0))) [
          | inl old ↦ rw (raised_j, at_j, old) refl
          | inr live ↦
              rw (raised_j, at_j, live)
                (fetch_from-under env n (next_version n.mvcc) s.disk (lookup n.region_id s.regions))
        ])
    | inr other ↦ rw other (view-raised env hv s w key seg fits n found now j other)
  ]

  -- From a state that satisfies the invariant, let the write of an update at the version of the key's
  -- entry, which is a uint64, to a record that fits, fail. Then the update reports the error, and
  -- writes nothing; but a fetch of a key with the same inode number answers for the old record under
  -- the next version, and a second update that expects the old version is refused. A fetch of any
  -- other key answers what it answered before.
  pub update_segment_with_cas_failed :
      n.mvcc < 2 ^ 64
      → (after.0 ≡ err io_failed)
        × (after.1.disk.files ≡ s.disk.files)
        × ((now : ℕ) (key' : Bytes)
            → (fetch_segment env now key' after.1).0 ≡ (
                if inode_num env.hashes key == inode_num env.hashes key'
                then under (next_version n.mvcc) (fetch_segment env now key' s).0
                else (fetch_segment env now key' s).0))
        × ((again : Segment)
            → update_segment_with_cas env key n.mvcc again after.1
              ≡ (err version_conflict, after.1))
  unfolding store_inode find_inode
  update_segment_with_cas_failed bound =
      let wr = raised-WellFormed env hv s w key seg fits n found in
      let n' : INode = record n { mvcc = next_version n.mvcc } in
      let (m, shard) = shard_present with_version.indexs inum wr.shards in
      let raised_here : find_inode with_version inum ≡ some n' =
        find_raised env hv s w key seg fits n found inum ∙ rw (==-self inum) in
      (
        ap (λ r. r.0) update_unwritten,
        ap (λ r. r.1.disk.files) update_unwritten,
        λ now key'.
            ap (λ r. (fetch_segment env now key' r.1).0) update_unwritten
            ∙ fetch_segment-Leaves env with_version (faulty os with_version) now key' hv wr
                (Leaves-faulty os with_version)
            ∙ rw (fetch-eq-view env now key' with_version wr, fetch-eq-view env now key' s w)
                (view-with_version now (inode_num env.hashes key')),
        λ again. rw update_unwritten (
            update_refused env key n.mvcc again (faulty os with_version) m n' shard raised_here
              (next_version-differs n.mvcc bound)),
      )

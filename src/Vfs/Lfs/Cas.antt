-- ===== src/Vfs/Lfs/Cas.antt =====
-- The update under an expected version: it is made exactly at that version, once, and keeps the
-- invariant and all other answers.
use wiredkv.Prelude.{
  ℕ, ◌+◌, ◌%◌, ◌^◌, ◌<◌, ◌≡◌, ◌≢◌, refl, ◌∙◌, arith, Option, none, some, ok, err, false, ◌==◌,
  nat_eq, if◌then◌else◌, Bool-cases, Option-cases, inl, inr, index_not_found, version_conflict,
  Error, ==-self,
}
use wiredkv.Prelude.Bytes.{Bytes}
use wiredkv.Vfs.Hash.{IsHashes, inode_num}
use wiredkv.Vfs.Segment.{Segment}
use wiredkv.Vfs.Codec.{INode}
use wiredkv.Vfs.Fs.{Env, LogStructuredFs, find_inode, store_inode, advance}
use wiredkv.Vfs.Lfs.{update_segment_with_cas, moved_inode, fetch_segment}
use wiredkv.Vfs.Lfs.Index.{shard_present, find_inode-store_inode}
use wiredkv.Vfs.Lfs.Stored.{StoredAs, Extends, Extends-trans}
use wiredkv.Vfs.Lfs.Runs.{cas_run, cas_conflict, cas_missing}
use wiredkv.Vfs.Lfs.WellFormed.{WellFormed}
use wiredkv.Vfs.Lfs.Append.{store_inode-WellFormed, store_inode-Extends}
use wiredkv.Vfs.Lfs.View.{view, view_of, view-Extends, fetch-eq-view}
use wiredkv.Vfs.Lfs.Put.{
  Fits, Points, final, final_run, final-WellFormed, view-final, find_final, final-StoredAs,
  final-Extends,
}

-- The next version.
abbrev pub next_version : ℕ → ℕ
next_version version = (version + 1) % 2 ^ 64

module _ (env : Env) (hv : IsHashes env.hashes) (s : LogStructuredFs) (w : WellFormed env s)
    (key : Bytes) (seg : Segment) (fits : Fits s key seg) (n : INode)
    (found : find_inode s (inode_num env.hashes key) ≡ some n) where
  abbrev pub inum : ℕ
  inum = inode_num env.hashes key

  -- The version is raised first.
  abbrev pub raised : LogStructuredFs
  raised = store_inode inum (record n { mvcc = next_version n.mvcc }) s

  pub raised-WellFormed : WellFormed env raised
  raised-WellFormed =
      let st = w.stored inum n found in
      store_inode-WellFormed env s w inum (record n { mvcc = next_version n.mvcc })
        (record {
          seg = st.seg;
          stored = record {
            file = st.stored.file;
            pre = st.stored.pre;
            post = st.stored.post;
            region = st.stored.region;
            bytes = st.stored.bytes;
            position = st.stored.position;
            valid = st.stored.valid;
          };
          region_fits = st.region_fits;
          position_fits = st.position_fits;
          owner = st.owner;
          length_is = st.length_is;
          expired_is = st.expired_is;
          created_is = st.created_is;
        })

  pub raised-Fits : Fits raised key seg
  unfolding store_inode
  raised-Fits = record {
    valid = fits.valid;
    key_is = fits.key_is;
    room = fits.room;
    regions_left = fits.regions_left;
  }

  pub moved_points : Points raised (moved_inode seg (next_version n.mvcc) s n) seg
  unfolding store_inode moved_inode
  moved_points = record {
    region_is = refl;
    position_is = refl;
    length_is = refl;
    expired_is = refl;
    created_is = refl;
  }

  abbrev pub updated : LogStructuredFs
  updated =
      final env hv raised raised-WellFormed key seg raised-Fits
        (moved_inode seg (next_version n.mvcc) s n) moved_points

  pub updated_run : update_segment_with_cas env key n.mvcc seg s ≡ (ok tt, updated)
  unfolding store_inode advance moved_inode
  updated_run =
      let (m, shard) = shard_present s.indexs inum w.shards in
      cas_run env s w.healthy raised-WellFormed.file m key raised-WellFormed.active shard n n.mvcc
        seg found refl
      ∙ final_run env hv raised raised-WellFormed key seg raised-Fits
          (moved_inode seg (next_version n.mvcc) s n) moved_points

  updated-WellFormed : WellFormed env updated
  updated-WellFormed =
      final-WellFormed env hv raised raised-WellFormed key seg raised-Fits
        (moved_inode seg (next_version n.mvcc) s n) moved_points

  pub find_raised :
      (j : ℕ)
      → find_inode raised j
        ≡ (if inum == j then some (record n { mvcc = next_version n.mvcc }) else find_inode s j)
  find_raised j = find_inode-store_inode s w.shards inum j (record n { mvcc = next_version n.mvcc })

  pub find_updated :
      (j : ℕ)
      → find_inode updated j
        ≡ (if inum == j then some (moved_inode seg (next_version n.mvcc) s n) else find_inode s j)
  find_updated j =
      find_final env hv raised raised-WellFormed key seg raised-Fits
        (moved_inode seg (next_version n.mvcc) s n) moved_points j
      ∙ elim (Bool-cases (inum == j)) [
        | inl same ↦ rw same
        | inr other ↦ rw other (find_raised j ∙ rw other)
      ]

  pub updated-StoredAs : StoredAs env updated (moved_inode seg (next_version n.mvcc) s n) seg
  updated-StoredAs =
      final-StoredAs env hv raised raised-WellFormed key seg raised-Fits
        (moved_inode seg (next_version n.mvcc) s n) moved_points

  pub updated-Extends : Extends s updated
  updated-Extends =
      Extends-trans (store_inode-Extends inum (record n { mvcc = next_version n.mvcc }) s) (
        final-Extends env hv raised raised-WellFormed key seg raised-Fits
          (moved_inode seg (next_version n.mvcc) s n) moved_points)

  pub view-raised : (now j : ℕ) → (inum == j) ≡ false → view env now raised j ≡ view env now s j
  view-raised now j other =
      view-Extends env hv now s raised j w
        (store_inode-Extends inum (record n { mvcc = next_version n.mvcc }) s)
        (find_raised j ∙ rw other)

  view-updated :
      (now j : ℕ)
      → view env now updated j
        ≡ (if inum == j then view_of env now (next_version n.mvcc) seg else view env now s j)
  unfolding moved_inode
  view-updated now j =
      view-final env hv raised raised-WellFormed key seg raised-Fits
        (moved_inode seg (next_version n.mvcc) s n) moved_points now j
      ∙ elim (Bool-cases (inum == j)) [
        | inl same ↦ rw same
        | inr other ↦ rw other (view-raised now j other)
      ]

  -- From a state that satisfies the invariant, where the entry of the key has the expected version
  -- and the record fits, the update succeeds and keeps the invariant.
  pub update_segment_with_cas-WellFormed :
      ((update_segment_with_cas env key n.mvcc seg s).0 ≡ ok tt)
      × WellFormed env (update_segment_with_cas env key n.mvcc seg s).1
  update_segment_with_cas-WellFormed = rw updated_run (refl, updated-WellFormed)

  -- From a state that satisfies the invariant, after an update at the version of the key's entry to
  -- a record that fits, a fetch of a key with the same inode number answers for the new record under
  -- the next version, and a fetch of any other key answers what it answered before.
  pub fetch_segment-update_segment_with_cas :
      (now : ℕ) (key' : Bytes)
      → (fetch_segment env now key' (update_segment_with_cas env key n.mvcc seg s).1).0 ≡ (
          if inode_num env.hashes key == inode_num env.hashes key'
          then view_of env now (next_version n.mvcc) seg
          else (fetch_segment env now key' s).0)
  fetch_segment-update_segment_with_cas now key' =
      rw
        (
          updated_run,
          fetch-eq-view env now key' updated updated-WellFormed,
          fetch-eq-view env now key' s w,
        )
        (view-updated now (inode_num env.hashes key'))

  -- From a state that satisfies the invariant, after an update at the version of the key's entry,
  -- which is a uint64, to a record that fits, a second update that expects the same version is
  -- refused and changes nothing.
  pub update_segment_with_cas_once :
      (other : Segment)
      → n.mvcc < 2 ^ 64
      → update_segment_with_cas env key n.mvcc other
          (update_segment_with_cas env key n.mvcc seg s).1
        ≡ (err version_conflict, (update_segment_with_cas env key n.mvcc seg s).1)
  unfolding moved_inode
  update_segment_with_cas_once other bound =
      let n' = moved_inode seg (next_version n.mvcc) s n in
      let (m, shard) = shard_present updated.indexs inum updated-WellFormed.shards in
      let found' : find_inode updated inum ≡ some n' =
        find_final env hv raised raised-WellFormed key seg raised-Fits n' moved_points inum
        ∙ rw (==-self inum) in
      rw updated_run (
        cas_conflict env updated updated-WellFormed.healthy updated-WellFormed.file m key
          updated-WellFormed.active shard n' n.mvcc other found' (λ e. omega arith))

abbrev pub refusal : Option INode → Error
refusal none = index_not_found
refusal (some n) = version_conflict

-- An update of a key without an entry, or of one whose entry has another version, is refused with
-- the error that says which, and changes nothing.
pub update_segment_with_cas_refused :
    (env : Env) (s : LogStructuredFs) (key : Bytes) (expected : ℕ) (seg : Segment)
    → WellFormed env s
    → ((n : INode) → find_inode s (inode_num env.hashes key) ≡ some n → n.mvcc ≢ expected)
    → update_segment_with_cas env key expected seg s
      ≡ (err (refusal (find_inode s (inode_num env.hashes key))), s)
update_segment_with_cas_refused env s key expected seg w unlike =
    let (m, shard) = shard_present s.indexs (inode_num env.hashes key) w.shards in
    elim (Option-cases (find_inode s (inode_num env.hashes key))) [
      | inl missing ↦
          cas_missing env s w.healthy w.file m key w.active shard expected seg missing ∙ rw missing
      | inr (n, found) ↦
          cas_conflict env s w.healthy w.file m key w.active shard n expected seg found
            (unlike n found)
          ∙ rw found
    ]

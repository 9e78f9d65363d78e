-- ===== src/Vfs/Lfs/View.antt =====
-- What a client can see of the store: the answer of a fetch for each inode number.
use wiredkv.Prelude.{
  ℕ, ◌≡◌, Option, none, some, Result, err, ◌&&◌, not, nat_eq, if◌then◌else◌, leb, nat_beq,
  map_result, index_not_found, expired, Bool-cases, Option-cases, inl, inr,
}
use wiredkv.Prelude.Bytes.{Bytes}
use wiredkv.Vfs.Hash.{IsHashes, inode_num}
use wiredkv.Vfs.Transformer.{decode}
use wiredkv.Vfs.Segment.{Segment}
use wiredkv.Vfs.Codec.{INode}
use wiredkv.Vfs.Fs.{Env, LogStructuredFs, ◌>>=◌, ◌>>◌, find_inode, delete_inode}
use wiredkv.Vfs.Lfs.{fetch_segment, fetch_inode, is_expired}
use wiredkv.Vfs.Lfs.Index.{HasShards, shard_present}
use wiredkv.Vfs.Lfs.Stored.{StoredAs, Extends, fetch_inode-StoredAs, fetch_inode-Extends}
use wiredkv.Vfs.Lfs.WellFormed.{WellFormed}

abbrev pub view_entry : Env → ℕ → LogStructuredFs → Option INode → Result (ℕ × Segment)
view_entry env now s none = err index_not_found
view_entry env now s (some n) = if is_expired now n then err expired else fetch_inode env n s

-- The answer for the keys with that inode number, at the time `now`.
unfoldable pub view : Env → ℕ → LogStructuredFs → ℕ → Result (ℕ × Segment)
view env now s inum = view_entry env now s (find_inode s inum)

-- The answer for a record that was just written, under a version.
abbrev pub view_of : Env → ℕ → ℕ → Segment → Result (ℕ × Segment)
view_of env now version seg =
    if leb seg.expired_at now && not (nat_beq seg.expired_at 0)
    then err expired
    else map_result (λ d. (version, record seg { value = d })) (decode env.transformer seg.value)

-- The state that a fetch leaves: an expired entry is dropped.
abbrev pub dropped : ℕ → LogStructuredFs → ℕ → Option INode → LogStructuredFs
dropped now s inum none = s
dropped now s inum (some n) = if is_expired now n then delete_inode inum s else s

pub fetch_run :
    (env : Env) (now : ℕ) (key : Bytes) (s : LogStructuredFs)
    → HasShards s.indexs
    → fetch_segment env now key s ≡ (
      view env now s (inode_num env.hashes key),
      dropped now s (inode_num env.hashes key) (find_inode s (inode_num env.hashes key)),
    )
unfolding fetch_segment view ◌>>=◌ ◌>>◌
fetch_run env now key s shards =
    let inum = inode_num env.hashes key in
    let (m, e) = shard_present s.indexs inum shards in
    elim (Option-cases (find_inode s inum)) [
      | inl missing ↦ rw (e, missing)
      | inr (n, found) ↦ elim (Bool-cases (is_expired now n)) [
        | inl old ↦ rw (e, found, old)
        | inr live ↦ rw (e, found, live)
      ]
    ]

pub fetch-eq-view :
    (env : Env) (now : ℕ) (key : Bytes) (s : LogStructuredFs)
    → WellFormed env s
    → (fetch_segment env now key s).0 ≡ view env now s (inode_num env.hashes key)
fetch-eq-view env now key s w = rw (fetch_run env now key s w.shards)

module _ (env : Env) (hv : IsHashes env.hashes) (now : ℕ) (s : LogStructuredFs) where
  -- The view of an entry that points to a record.
  pub view-StoredAs :
      (inum : ℕ) (n : INode) (seg : Segment)
      → find_inode s inum ≡ some n
      → StoredAs env s n seg
      → n.expired_at ≡ seg.expired_at
      → view env now s inum ≡ view_of env now n.mvcc seg
  unfolding view is_expired
  view-StoredAs inum n seg found st same = rw (found, fetch_inode-StoredAs env s n seg hv st, same)

  -- Adding to files and regions changes no view of an entry that is kept.
  pub view-Extends :
      (t : LogStructuredFs) (inum : ℕ)
      → WellFormed env s
      → Extends s t
      → find_inode t inum ≡ find_inode s inum
      → view env now t inum ≡ view env now s inum
  unfolding view
  view-Extends t inum w e kept = elim (Option-cases (find_inode s inum)) [
    | inl missing ↦ rw (kept, missing)
    | inr (n, found) ↦
        rw (kept, found, fetch_inode-Extends env s t inum n hv (w.stored inum n found) e)
  ]

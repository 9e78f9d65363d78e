-- ===== src/Vfs/Lfs/Refinement.antt =====
-- What vfs/lfs.go promises: a map from inode numbers to versioned records, with the commands on it,
-- beside the same commands on the storage engine.
pub mod Switched
pub mod Step
pub mod Sequence
use wiredkv.Prelude.{
  ℕ, ◌+◌, ◌^◌, ◌<◌, ◌≡◌, List, [], ◌∷◌, Option, none, some, Result, ok, err, Bool, ◌==◌, nat_eq,
  nat_beq, not, ◌&&◌, leb, if◌then◌else◌, index_not_found, version_conflict,
}
use wiredkv.Prelude.Bytes.{Bytes}
use wiredkv.Vfs.Hash.{inode_num}
use wiredkv.Vfs.Segment.{Segment, size, new_tombstone_segment}
use wiredkv.Vfs.Codec.{INode}
use wiredkv.Vfs.Codec.SegmentTrip.{IsSegment}
use wiredkv.Vfs.Fs.{Env, LogStructuredFs, find_inode}
use wiredkv.Vfs.Lfs.{put_segment, delete_segment, fetch_segment, update_segment_with_cas}
use wiredkv.Vfs.Lfs.Stored.{StoredAs}
use wiredkv.Vfs.Lfs.View.{view_of}
use wiredkv.Vfs.Lfs.Put.{Fits}
use wiredkv.Vfs.Lfs.Cas.{next_version}

-- A version and a record with its value encoded, for each inode number in use.
abbrev pub Records : Type 0
Records = ℕ → Option (ℕ × Segment)

pub data Command : Type 0 where
  put : Bytes → Segment → Command
  remove : ℕ → Bytes → Command
  update : Bytes → ℕ → Segment → Command
  fetch : ℕ → Bytes → Command

pub data Reply : Type 0 where
  changed : Result (Unit {0}) → Reply
  found : Result (ℕ × Segment) → Reply

abbrev pub replied : {A : Type 0} → (A → Reply) → A × LogStructuredFs → Reply × LogStructuredFs
replied f (a, s) = (f a, s)

-- A command on the storage engine.
unfoldable pub exec : Env → Command → LogStructuredFs → Reply × LogStructuredFs
exec env (put key seg) s = replied changed (put_segment env key seg s)
exec env (remove now key) s = replied changed (delete_segment env now key s)
exec env (update key expected seg) s =
    replied changed (update_segment_with_cas env key expected seg s)
exec env (fetch now key) s = replied found (fetch_segment env now key s)

abbrev pub replace : ℕ → Option (ℕ × Segment) → Records → Records
replace inum r m j = if inum == j then r else m j

abbrev pub has_expired : ℕ → Segment → Bool
has_expired now seg = leb seg.expired_at now && not (nat_beq seg.expired_at 0)

-- The answer to a fetch, and what it leaves: an expired record is forgotten.
abbrev pub answer : Env → ℕ → Option (ℕ × Segment) → Result (ℕ × Segment)
answer env now none = err index_not_found
answer env now (some (version, seg)) = view_of env now version seg

abbrev pub kept : ℕ → ℕ → Option (ℕ × Segment) → Records → Records
kept now inum none m = m
kept now inum (some (version, seg)) m = if has_expired now seg then replace inum none m else m

abbrev pub updated_records : ℕ → ℕ → Segment → Option (ℕ × Segment) → Records → Reply × Records
updated_records inum expected seg none m = (changed (err index_not_found), m)
updated_records inum expected seg (some (version, old)) m =
    if nat_beq version expected
    then (changed (ok tt), replace inum (some (next_version version, seg)) m)
    else (changed (err version_conflict), m)

-- The same command on the map.
unfoldable pub spec : Env → Command → Records → Reply × Records
spec env (put key seg) m = (changed (ok tt), replace (inode_num env.hashes key) (some (0, seg)) m)
spec env (remove now key) m = (changed (ok tt), replace (inode_num env.hashes key) none m)
spec env (update key expected seg) m =
    let inum = inode_num env.hashes key in updated_records inum expected seg (m inum) m
spec env (fetch now key) m =
    let inum = inode_num env.hashes key in
    (found (answer env now (m inum)), kept now inum (m inum) m)

-- An entry that stands for a record under a version.
abbrev pub Matches : Env → LogStructuredFs → Option INode → Option (ℕ × Segment) → Type 0
Matches env s none none = Unit {0}
Matches env s none (some r) = ⊥
Matches env s (some n) none = ⊥
Matches env s (some n) (some (version, seg)) =
    (n.mvcc ≡ version) × (n.expired_at ≡ seg.expired_at) × StoredAs env s n seg

-- The engine's index stands for the map.
pub record Represents (env : Env) (s : LogStructuredFs) (m : Records) : Type 0 where
  pub each : (inum : ℕ) → Matches env s (find_inode s inum) (m inum)

-- There is room for what a command writes, and it writes a well-formed record of its key.
abbrev pub Allowed : Env → LogStructuredFs → Command → Type 0
Allowed env s (put key seg) = Fits s key seg
Allowed env s (remove now key) =
    IsSegment (new_tombstone_segment now key)
    × (s.offset + size (new_tombstone_segment now key) < 2 ^ 64)
Allowed env s (update key expected seg) = Fits s key seg
Allowed env s (fetch now key) = Unit {0}

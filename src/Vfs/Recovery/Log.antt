-- ===== src/Vfs/Recovery/Log.antt =====
-- A region file as its records, and what they say when they are replayed.
use wiredkv.Prelude.{ℕ, ◌++◌, List, [], ◌∷◌, none, some, ok, ◌≡◌, if◌then◌else◌}
use wiredkv.Prelude.Bytes.{Bytes}
use wiredkv.Vfs.Hash.{Hashes, inode_num}
use wiredkv.Vfs.Transformer.{Transformer, decode}
use wiredkv.Vfs.Segment.{Segment, is_tombstone}
use wiredkv.Vfs.Codec.{serialized_segment}
use wiredkv.Vfs.Codec.SegmentTrip.{IsSegment}
use wiredkv.Vfs.Lfs.Refinement.{Records, replace}
use wiredkv.Vfs.Recovery.{has_lapsed}

-- The records one after the other.
abbrev pub laid_out : Hashes → List Segment → Bytes
laid_out h [] = []
laid_out h (seg ∷ segs) = serialized_segment h seg ++ laid_out h segs

-- A record that a scan can read: well formed, with a value that decodes.
pub record IsReadable (t : Transformer) (seg : Segment) : Type 0 where
  pub valid : IsSegment seg
  pub value : Bytes
  pub decodes : decode t seg.value ≡ ok value

-- A record on a map from inode numbers to records: a tombstone removes, a record that has expired
-- changes nothing, and any other is put under version 0.
abbrev pub logged : ℕ → ℕ → Segment → Records → Records
logged now inum seg m =
    if is_tombstone seg
    then replace inum none m
    else if has_lapsed now seg
    then m
    else replace inum (some (0, seg)) m

abbrev pub all_logged : Hashes → ℕ → List Segment → Records → Records
all_logged h now [] m = m
all_logged h now (seg ∷ segs) m = all_logged h now segs (logged now (inode_num h seg.key) seg m)

-- ===== src/Vfs/Codec/IndexTrip.antt =====
-- The records of the index snapshot: what was written is read back, and what is accepted is what
-- would have been written.
use wiredkv.Prelude.{
  ℕ, ◌<◌, ◌^◌, ◌≡◌, refl, ◌∙◌, ok, err, nat_beq, length, if◌then◌else◌, checksum_mismatch,
  nat_beq_iff,
}
use wiredkv.Prelude.Bytes.{le_value-le_bytes}
use wiredkv.Vfs.Hash.{Hashes, IsHashes}
use wiredkv.Vfs.Codec.{INode, serialized_index, deserialized_index}

-- The fields of an entry have their Go types.
pub record IsINode (n : INode) : Type 0 where
  pub region_fits : n.region_id < 2 ^ 64
  pub position_fits : n.position < 2 ^ 64
  pub length_fits : n.length < 2 ^ 32
  pub expired_fits : n.expired_at < 2 ^ 64
  pub created_fits : n.created_at < 2 ^ 64

pub length-serialized_index :
    (h : Hashes) (inum : ℕ) (n : INode) → length (serialized_index h inum n) ≡ 48
unfolding serialized_index
length-serialized_index h inum n = refl

accepted :
    (c d : ℕ) (r : ℕ × INode) → c ≡ d → (if nat_beq c d then ok r else err checksum_mismatch) ≡ ok r
accepted c d r p = rw ((nat_beq_iff c d).1 p)

-- A snapshot record of an entry with fields in their ranges is read back as that entry, with the
-- version number at 0, which the record does not hold.
pub deserialized_index-serialized_index :
    (h : Hashes) (inum : ℕ) (n : INode)
    → IsHashes h
    → inum < 2 ^ 64
    → IsINode n
    → deserialized_index h (serialized_index h inum n) ≡ ok (inum, record n { mvcc = 0 })
unfolding serialized_index deserialized_index
deserialized_index-serialized_index h inum n hv fits v =
    accepted _ _ _ (le_value-le_bytes 4 _ (hv.checksum_fits _)) ∙ λ i. ok (
      le_value-le_bytes 8 inum fits i,
      record {
        region_id = le_value-le_bytes 8 n.region_id v.region_fits i;
        position = le_value-le_bytes 8 n.position v.position_fits i;
        length = le_value-le_bytes 4 n.length v.length_fits i;
        expired_at = le_value-le_bytes 8 n.expired_at v.expired_fits i;
        created_at = le_value-le_bytes 8 n.created_at v.created_fits i;
        mvcc = 0;
      },
    )

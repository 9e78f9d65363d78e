-- ===== src/Vfs/Hash.antt =====
-- The hashes that vfs takes from other packages: murmur3.Sum64 and crc32.ChecksumIEEE.
use wiredkv.Prelude.{ℕ, ◌^◌, ◌<◌}
use wiredkv.Prelude.Bytes.{Bytes}

pub record Hashes : Type 0 where
  pub sum64 : Bytes → ℕ
  pub checksum_ieee : Bytes → ℕ

-- Their Go types: a uint64 and a uint32.
pub record IsHashes (h : Hashes) : Type 0 where
  pub sum64_fits : (b : Bytes) → h.sum64 b < 2 ^ 64
  pub checksum_fits : (b : Bytes) → h.checksum_ieee b < 2 ^ 32

-- InodeNum of vfs/lfs.go; the conversion of the key to bytes is the identity here.
unfoldable pub inode_num : Hashes → Bytes → ℕ
inode_num h key = h.sum64 key

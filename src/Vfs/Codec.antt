-- ===== src/Vfs/Codec.antt =====
-- The record formats of vfs/lfs.go: data records and records of the index snapshot, little-endian
-- with a CRC32 at the end. Reads at a file position are os.File.ReadAt.
pub mod Parts
pub mod SegmentTrip
pub mod Torn
pub mod IndexTrip
pub mod IndexSound
use wiredkv.Prelude.{
  ℕ, ◌+◌, ◌-◌, ◌++◌, [], Result, ok, err, eof, checksum_mismatch, ◌>>=◌, nat_beq, ltb, leb, length,
  take, drop, if◌then◌else◌,
}
use wiredkv.Prelude.Bytes.{Bytes, le_bytes, le_value}
use wiredkv.Vfs.Hash.{Hashes, inode_num}
use wiredkv.Vfs.Transformer.{Transformer, decode}
use wiredkv.Vfs.Segment.{Segment}

-- 1 + 1 + 8 + 8 + 4 + 4 bytes of header.
abbrev pub segment_padding : ℕ
segment_padding = 26

-- INode, the index entry of a key.
pub record INode : Type 0 where
  pub region_id : ℕ
  pub position : ℕ
  pub length : ℕ
  pub expired_at : ℕ
  pub created_at : ℕ
  pub mvcc : ℕ

-- fd.ReadAt(buf, offset) with a buffer of `n` bytes: it fills the buffer or fails.
unfoldable pub read_at : Bytes → ℕ → ℕ → Result Bytes
read_at file offset n =
    let buf = take n (drop offset file) in if nat_beq (length buf) n then ok buf else err eof

unfoldable pub header : Segment → Bytes
header s =
    le_bytes 1 s.tombstone
    ++ (le_bytes 1 s.kind
        ++ (le_bytes 8 s.expired_at
            ++ (le_bytes 8 s.created_at ++ (le_bytes 4 s.key_size ++ le_bytes 4 s.value_size))))

-- Writes into a buffer do not fail.
-- | DEL 1 | KIND 1 | EAT 8 | CAT 8 | KLEN 4 | VLEN 4 | KEY ? | VALUE ? | CRC32 4 |
unfoldable pub serialized_segment : Hashes → Segment → Bytes
serialized_segment h s =
    let body = header s ++ (s.key ++ s.value) in body ++ le_bytes 4 (h.checksum_ieee body)

-- The fields of the header; key and value are read after it.
unfoldable pub parse_header : Bytes → Segment
parse_header buf = record {
  tombstone = le_value (take 1 buf);
  kind = le_value (take 1 (drop 1 buf));
  expired_at = le_value (take 8 (drop 2 buf));
  created_at = le_value (take 8 (drop 10 buf));
  key_size = le_value (take 4 (drop 18 buf));
  value_size = le_value (take 4 (drop 22 buf));
  key = [];
  value = [];
}

-- What stands behind the header.
unfoldable pub read_body : Hashes → Bytes → ℕ → Bytes → Segment → Result (Bytes × Bytes)
read_body h file offset buf s = do
  keybuf ← read_at file (offset + 26) s.key_size
  valuebuf ← read_at file (offset + 26 + s.key_size) s.value_size
  checksum_buf ← read_at file (offset + 26 + s.key_size + s.value_size) 4
  if nat_beq (le_value checksum_buf) (h.checksum_ieee (buf ++ (keybuf ++ valuebuf)))
      then ok (keybuf, valuebuf)
      else err checksum_mismatch

-- The inode number of the key that was read, and the record with its value decoded.
unfoldable pub read_segment : Hashes → Transformer → Bytes → ℕ → ℕ → Result (ℕ × Segment)
read_segment h t file offset bufsize = do
  buf ← read_at file offset bufsize
  let s = parse_header buf
  (keybuf, valuebuf) ← read_body h file offset buf s
  decoded ← decode t valuebuf
  ok (inode_num h keybuf, record s { key = keybuf; value = decoded })

-- | INUM 8 | RID 8 | POS 8 | LEN 4 | EAT 8 | CAT 8 | CRC32 4 |
unfoldable pub serialized_index : Hashes → ℕ → INode → Bytes
serialized_index h inum n =
    let body =
      le_bytes 8 inum
      ++ (le_bytes 8 n.region_id
          ++ (le_bytes 8 n.position
              ++ (le_bytes 4 n.length ++ (le_bytes 8 n.expired_at ++ le_bytes 8 n.created_at)))) in
    body ++ le_bytes 4 (h.checksum_ieee body)

-- binary.Read of an integer of `w` bytes: its value and what is left.
unfoldable pub read_uint : ℕ → Bytes → Result (ℕ × Bytes)
read_uint w buf = if ltb (length buf) w then err eof else ok (le_value (take w buf), drop w buf)

-- data[:len(data)-4] stands behind a read of four bytes, so the data has that length.
unfoldable pub deserialized_index : Hashes → Bytes → Result (ℕ × INode)
unfolding read_uint
deserialized_index h buf = do
  (inum, r0) ← read_uint 8 buf
  (region_id, r1) ← read_uint 8 r0
  (position, r2) ← read_uint 8 r1
  (len, r3) ← read_uint 4 r2
  (expired_at, r4) ← read_uint 8 r3
  (created_at, r5) ← read_uint 8 r4
  (checksum, r6) ← read_uint 4 r5
  if nat_beq checksum (h.checksum_ieee (take (length buf - 4) buf))
      then ok (
        inum,
        record {
          region_id = region_id;
          position = position;
          length = len;
          expired_at = expired_at;
          created_at = created_at;
          mvcc = 0;
        },
      )
      else err checksum_mismatch

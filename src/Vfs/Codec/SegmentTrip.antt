-- ===== src/Vfs/Codec/SegmentTrip.antt =====
-- A data record that was written is read back, wherever it stands in the file.
use wiredkv.Prelude.{
  ◌+◌, ◌<◌, ◌^◌, ◌≡◌, refl, sym, arith, [], ◌++◌, ok, length, length-append, map_result,
}
use wiredkv.Prelude.Bytes.{Bytes, le_bytes, le_value-le_bytes, length-le_bytes}
use wiredkv.Vfs.Hash.{Hashes, IsHashes, inode_num}
use wiredkv.Vfs.Transformer.{Transformer, decode}
use wiredkv.Vfs.Segment.{Segment, size}
use wiredkv.Vfs.Codec.{
  read_at, header, serialized_segment, parse_header, read_body, read_segment, segment_padding,
}
use wiredkv.Vfs.Codec.Parts.{read_header, read_key, read_value, read_checksum}

-- A record whose fields have their Go types, whose sizes are those of its key and value, and whose
-- whole length is a uint32.
pub record IsSegment (s : Segment) : Type 0 where
  pub tombstone_fits : s.tombstone < 2 ^ 8
  pub kind_fits : s.kind < 2 ^ 8
  pub expired_fits : s.expired_at < 2 ^ 64
  pub created_fits : s.created_at < 2 ^ 64
  pub key_size_is : s.key_size ≡ length s.key
  pub value_size_is : s.value_size ≡ length s.value
  pub size_fits : 26 + s.key_size + s.value_size + 4 < 2 ^ 32

-- What the header says of a record.
abbrev pub without_body : Segment → Segment
without_body s = record s { key = []; value = [] }

pub parse_header-header : (s : Segment) → IsSegment s → parse_header (header s) ≡ without_body s
unfolding parse_header header
parse_header-header s v = λ i. record {
  tombstone = le_value-le_bytes 1 s.tombstone v.tombstone_fits i;
  kind = le_value-le_bytes 1 s.kind v.kind_fits i;
  expired_at = le_value-le_bytes 8 s.expired_at v.expired_fits i;
  created_at = le_value-le_bytes 8 s.created_at v.created_fits i;
  key_size = le_value-le_bytes 4 s.key_size (omega (arith, v.size_fits)) i;
  value_size = le_value-le_bytes 4 s.value_size (omega (arith, v.size_fits)) i;
  key = [];
  value = [];
}

pub length-header : (s : Segment) → length (header s) ≡ 26
unfolding header
length-header s = refl

-- The serialised form of a well-formed record has as many bytes as the record's size says.
pub length-serialized_segment :
    (h : Hashes) (s : Segment) → IsSegment s → length (serialized_segment h s) ≡ size s
unfolding serialized_segment size
length-serialized_segment h s v =
    let body = header s ++ (s.key ++ s.value) in
    omega (
      arith,
      length-append body (le_bytes 4 (h.checksum_ieee body)),
      length-append (header s) (s.key ++ s.value),
      length-append s.key s.value,
      length-header s,
      length-le_bytes 4 (h.checksum_ieee body),
      v.key_size_is,
      v.value_size_is,
      v.size_fits,
    )

module _ (h : Hashes) (t : Transformer) (hv : IsHashes h) (s : Segment) (v : IsSegment s)
    (pre post : Bytes) where
  abbrev placed : Bytes
  placed = pre ++ (serialized_segment h s ++ post)

  abbrev crc : Bytes
  crc = le_bytes 4 (h.checksum_ieee (header s ++ (s.key ++ s.value)))

  read_header_bytes : read_at placed (length pre) segment_padding ≡ ok (header s)
  unfolding serialized_segment
  read_header_bytes =
      read_header pre (header s) s.key s.value crc post _ _ refl (sym (length-header s))

  read_key_bytes : read_at placed (length pre + 26) s.key_size ≡ ok s.key
  unfolding serialized_segment
  read_key_bytes =
      read_key pre (header s) s.key s.value crc post _ _ (omega (arith, length-header s))
        v.key_size_is

  read_value_bytes : read_at placed (length pre + 26 + s.key_size) s.value_size ≡ ok s.value
  unfolding serialized_segment
  read_value_bytes =
      read_value pre (header s) s.key s.value crc post _ _
        (omega (arith, length-header s, v.key_size_is)) v.value_size_is

  read_checksum_bytes : read_at placed (length pre + 26 + s.key_size + s.value_size) 4 ≡ ok crc
  unfolding serialized_segment
  read_checksum_bytes =
      read_checksum pre (header s) s.key s.value crc post _ _
        (omega (arith, length-header s, v.key_size_is, v.value_size_is)) refl

  -- The body of a record, read behind a prefix that ends with its header.
  read_body-append :
      read_body h placed (length pre) (header s) (without_body s) ≡ ok (s.key, s.value)
  unfolding read_body
  read_body-append =
      let sum =
        le_value-le_bytes 4 (h.checksum_ieee (header s ++ (s.key ++ s.value)))
          (hv.checksum_fits (header s ++ (s.key ++ s.value))) in
      rw (read_key_bytes, read_value_bytes, read_checksum_bytes, sum) (ground arith)

  -- A well-formed record that was serialised anywhere in a file is read back there: its inode
  -- number, its fields, and its value as the transformer decodes it.
  pub read_segment-serialized_segment :
      read_segment h t placed (length pre) segment_padding
      ≡ map_result (λ d. (inode_num h s.key, record s { value = d })) (decode t s.value)
  unfolding read_segment
  read_segment-serialized_segment =
      rw (read_header_bytes, parse_header-header s v, read_body-append) (ground arith)

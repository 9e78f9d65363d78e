-- ===== src/Vfs/Codec/Torn.antt =====
-- A data record of which only the first bytes were written cannot be read.
use mathlib.Core.List.{append_assoc}
use wiredkv.Prelude.{
  ℕ, ◌+◌, ◌-◌, ◌<◌, ◌≡◌, ◌⊎◌, refl, sym, ap, ◌∙◌, arith, ◌++◌, ok, err, eof, length, take, drop,
  length-append, length-take-le, length-take_le, length-drop, take-append_add, nat_beq, nat_beq_iff,
  Bool-cases, inl, inr, false, ltb,
}
use wiredkv.Prelude.Bytes.{Bytes, le_bytes}
use wiredkv.Vfs.Hash.{Hashes}
use wiredkv.Vfs.Transformer.{Transformer}
use wiredkv.Vfs.Segment.{Segment, size}
use wiredkv.Vfs.Codec.{
  read_at, header, serialized_segment, read_body, read_segment, segment_padding,
}
use wiredkv.Vfs.Codec.Parts.{read_at-append}
use wiredkv.Vfs.Codec.SegmentTrip.{
  IsSegment, without_body, parse_header-header, length-header, length-serialized_segment,
}

-- A buffer that ends behind the file is not filled.
read_at-beyond :
    (file : Bytes) (offset n : ℕ)
    → length file < offset + n
    → 0 < n
    → read_at file offset n ≡ err eof
unfolding read_at
read_at-beyond file offset n beyond some_bytes =
    let short = length-take-le n (drop offset file) in
    let left = length-drop offset file in
    let unfilled : nat_beq (length (take n (drop offset file))) n ≡ false =
      elim (Bool-cases (nat_beq (length (take n (drop offset file))) n)) [
        | inl full ↦ absurd (omega (arith, (nat_beq_iff _ _).0 full))
        | inr no_match ↦ no_match
      ] in
    rw unfilled refl

read_at-cases :
    (file : Bytes) (offset n : ℕ)
    → (read_at file offset n ≡ err eof) ⊎ ((b : Bytes) × (read_at file offset n ≡ ok b))
unfolding read_at
read_at-cases file offset n = elim (Bool-cases (nat_beq (length (take n (drop offset file))) n)) [
  | inl full ↦ inr (take n (drop offset file), rw full refl)
  | inr short ↦ inl (rw short refl)
]

read_body-beyond :
    (h : Hashes) (file : Bytes) (offset : ℕ) (buf : Bytes) (s : Segment)
    → length file < offset + 26 + s.key_size + s.value_size + 4
    → read_body h file offset buf s ≡ err eof
unfolding read_body
read_body-beyond h file offset buf s beyond =
    let last =
      read_at-beyond file (offset + 26 + s.key_size + s.value_size) 4 beyond (omega arith) in
    elim (read_at-cases file (offset + 26) s.key_size) [
      | inl no_key ↦ rw no_key refl
      | inr (k, key) ↦ elim (read_at-cases file (offset + 26 + s.key_size) s.value_size) [
        | inl no_value ↦ rw (key, no_value) refl
        | inr (v, value) ↦ rw (key, value, last) refl
      ]
    ]

-- Fewer bytes than the record has give the error of a read at the end of the file.
pub read_segment-torn :
    (h : Hashes) (t : Transformer) (s : Segment) (pre : Bytes) (k : ℕ)
    → IsSegment s
    → k < size s
    → read_segment h t (pre ++ take k (serialized_segment h s)) (length pre) segment_padding
      ≡ err eof
unfolding read_segment serialized_segment size
read_segment-torn h t s pre k v less =
    let body = header s ++ (s.key ++ s.value) in
    let crc = le_bytes 4 (h.checksum_ieee body) in
    let file = pre ++ take k (body ++ crc) in
    let whole : length (body ++ crc) ≡ size s = length-serialized_segment h s v in
    let part = length-take_le k (body ++ crc) (omega (arith, whole)) in
    let len : length file ≡ length pre + k =
      omega (arith, length-append pre (take k (body ++ crc)), part) in
    elim (Bool-cases (ltb k 26)) [
      | inl few ↦
          rw (read_at-beyond file (length pre) 26 (ground (arith, len, few)) (omega arith)) refl
      | inr many ↦
          let count : k ≡ length (header s) + (k - 26) = ground (arith, length-header s, many) in
          let rest = (s.key ++ s.value) ++ crc in
          let e : file ≡ pre ++ (header s ++ take (k - 26) rest) =
            ap (λ b. pre ++ b)
              (ap (λ b. take k b) (append_assoc (header s) (s.key ++ s.value) crc)
                ∙ ap (λ n. take n (header s ++ rest)) count
                ∙ take-append_add (header s) rest (k - 26)) in
          let hd : read_at file (length pre) 26 ≡ ok (header s) =
            ap (λ b. read_at b (length pre) 26) e
            ∙ read_at-append pre (header s) (take (k - 26) rest) (length pre) 26 refl
                (sym (length-header s)) in
          let stop =
            read_body-beyond h file (length pre) (header s) (without_body s)
              (omega (arith, len, less)) in
          rw (hd, parse_header-header s v, stop) refl
    ]

-- ===== src/Tests/Codec.antt =====
-- The formats, file names and the transformer at concrete inputs.
use mathlib.Core.Path.{subst}
use wiredkv.Conf.{valid}
use wiredkv.Prelude.{
  zero, suc, ap, decode_failed, encode_failed, ℕ, ◌≡◌, refl, arith, [], ◌∷◌, ◌++◌, some, Result, ok,
  err, length, All, region_limit, replicate, if◌then◌else◌,
}
use wiredkv.Prelude.Bytes.{Bytes, IsByte}
use wiredkv.Vfs.Hash.{inode_num}
use wiredkv.Vfs.Transformer.{
  Compressor, Encryptor, Transformer, new_transformer, encode, decode, active_compressor,
  active_encryptor,
}
use wiredkv.Vfs.Transformer.Laws.{IsLossless, IsInvertible, IsSound, decode-encode}
use wiredkv.Vfs.Transformer.Cryptor.{Aes, Block, IsCbc, cryptor, cryptor-IsInvertible}
use wiredkv.Vfs.Segment.{Segment, Serializable, text, text_kind, to_kind, new_segment, expiry_of}
use wiredkv.Vfs.Segment.Laws.{Holds, new_segment-Holds}
use wiredkv.Vfs.Codec.{
  INode, serialized_segment, read_segment, segment_padding, serialized_index, deserialized_index,
}
use wiredkv.Vfs.Codec.SegmentTrip.{read_segment-serialized_segment}
use wiredkv.Vfs.Codec.IndexTrip.{IsINode, deserialized_index-serialized_index}
use wiredkv.Vfs.Codec.IndexSound.{serialized_index-deserialized_index}
use wiredkv.Vfs.FileName.{format_data_file_name, parse_data_file_name, generate_file_name}
use wiredkv.Vfs.FileName.RoundTrip.{parse_data_file_name-format_data_file_name}
use wiredkv.Vfs.FileName.Limit.{generate_file_name_lem}
use wiredkv.Vfs.Lfs.{data_file_metadata}
use wiredkv.Tests.Sample.{
  sample_hashes, sample_hashes-IsHashes, apple, record_of, record_of-IsSegment, apple_entry,
}

read_segment-serialized_segment_example :
    read_segment sample_hashes new_transformer
      (data_file_metadata ++ (serialized_segment sample_hashes (record_of apple 1) ++ (7 ∷ 8 ∷ [])))
      4
      segment_padding
    ≡ ok (97, record_of apple 1)
unfolding inode_num decode active_encryptor active_compressor
read_segment-serialized_segment_example =
    read_segment-serialized_segment sample_hashes new_transformer sample_hashes-IsHashes
      (record_of apple 1) (record_of-IsSegment b'a' 1) data_file_metadata (7 ∷ 8 ∷ [])

apple_entry-IsINode : IsINode apple_entry
apple_entry-IsINode = omega arith

deserialized_index-serialized_index_example :
    deserialized_index sample_hashes (serialized_index sample_hashes 97 apple_entry)
    ≡ ok (97, apple_entry)
deserialized_index-serialized_index_example =
    deserialized_index-serialized_index sample_hashes 97 apple_entry sample_hashes-IsHashes
      (omega arith) apple_entry-IsINode

abbrev zeros : Bytes
zeros = replicate 48 0

zeros-IsByte : All IsByte zeros
zeros-IsByte = omega arith

abbrev zero_entry : INode
zero_entry = record {
  region_id = 0;
  position = 0;
  length = 0;
  expired_at = 0;
  created_at = 0;
  mvcc = 0;
}

zeros_read : deserialized_index sample_hashes zeros ≡ ok (0, zero_entry)
unfolding deserialized_index
zeros_read = refl

serialized_index-deserialized_index_example : serialized_index sample_hashes 0 zero_entry ≡ zeros
serialized_index-deserialized_index_example =
    serialized_index-deserialized_index sample_hashes zeros 0 zero_entry zeros-IsByte refl
      zeros_read

parse_data_file_name-format_data_file_name_example :
    parse_data_file_name (format_data_file_name 12) ≡ ok 12
parse_data_file_name-format_data_file_name_example =
    parse_data_file_name-format_data_file_name 12 (omega arith)

generate_file_name_lem_example : generate_file_name 1_000_000_000 ≡ err region_limit
generate_file_name_lem_example = generate_file_name_lem 1_000_000_000 (omega arith)

-- A compressor that marks its output.
unmark : Bytes → Result Bytes
unmark [] = err decode_failed
unmark (c ∷ cs) = ok cs

marking : Compressor
marking = record { compress = λ b. ok (1 ∷ b); decompress = unmark }

marking-IsLossless : IsLossless marking
unfolding marking unmark
marking-IsLossless = record { undo = λ b r h. ground arith }

-- A block cipher that adds one to each byte.
raised : Bytes → Bytes
raised [] = []
raised (c ∷ cs) = suc c ∷ raised cs

pred : ℕ → ℕ
pred zero = zero
pred (suc n) = n

lowered : Bytes → Bytes
lowered [] = []
lowered (c ∷ cs) = pred c ∷ lowered cs

lowered-raised : (b : Bytes) → lowered (raised b) ≡ b
unfolding lowered raised pred
lowered-raised [] = refl
lowered-raised (c ∷ cs) = ap (◌∷◌ c) (lowered-raised cs)

length-raised : (b : Bytes) → length (raised b) ≡ length b
unfolding raised
length-raised [] = refl
length-raised (c ∷ cs) = ap suc (length-raised cs)

raising : Aes
raising = record {
  new_cipher = λ secret.
      if valid (length secret)
      then ok (record { encrypt_blocks = λ iv b. raised b; decrypt_blocks = λ iv b. lowered b })
      else err encode_failed;
}

abbrev raising_block : Block
raising_block = record { encrypt_blocks = λ iv b. raised b; decrypt_blocks = λ iv b. lowered b }

is_raising :
    (secret : Bytes) (block : Block) → raising.new_cipher secret ≡ ok block → raising_block ≡ block
unfolding raising
is_raising secret block e = ground arith

raising-IsCbc : IsCbc raising
raising-IsCbc = record {
  undo = λ secret iv b block e whole. rw (← is_raising secret block e) (lowered-raised b);
  keeps_length = λ secret iv b block e. rw (← is_raising secret block e) (length-raised b);
}

abbrev secret : Bytes
secret = replicate 16 7

cryptor-IsInvertible_example : IsInvertible (cryptor raising (replicate 16 0)) secret
cryptor-IsInvertible_example =
    cryptor-IsInvertible raising (replicate 16 0) secret raising-IsCbc refl

-- An encryptor that does so too.
raising_encryptor : Encryptor
raising_encryptor = record { encrypt = λ key b. ok (raised b); decrypt = λ key b. ok (lowered b) }

raising_encryptor-IsInvertible : IsInvertible raising_encryptor secret
unfolding raising_encryptor
raising_encryptor-IsInvertible = record {
  undo = λ b r h. let p : raised b ≡ r = cc in rw (← p) (ap ok (lowered-raised b));
}

-- Both switched on.
abbrev coding : Transformer
coding = record {
  encryptor = some raising_encryptor;
  compressor = some marking;
  flags = 3;
  secret = secret;
}

coding-IsSound : IsSound coding
coding-IsSound = record {
  lossless = λ c e. let p : marking ≡ c = cc in subst IsLossless p marking-IsLossless;
  invertible = λ c e.
      let p : raising_encryptor ≡ c = cc in
      subst (λ x. IsInvertible x secret) p raising_encryptor-IsInvertible;
}

decode-encode_example : decode coding (2 ∷ 4 ∷ 5 ∷ []) ≡ ok (3 ∷ 4 ∷ [])
unfolding encode active_compressor active_encryptor marking raising_encryptor raised
decode-encode_example = decode-encode coding (3 ∷ 4 ∷ []) (2 ∷ 4 ∷ 5 ∷ []) coding-IsSound refl

three : Serializable
three = record { dynamic_type = text; to_bson = ok (3 ∷ []) }

abbrev three_record : Segment
three_record = record {
  tombstone = 0;
  kind = text_kind;
  expired_at = 2_000_000_006;
  created_at = 5;
  key_size = 1;
  value_size = 2;
  key = apple;
  value = 2 ∷ 4 ∷ [];
}

new_segment-Holds_example : Holds coding 5 6 apple three 2 three_record
unfolding new_segment to_kind encode active_compressor active_encryptor marking raising_encryptor
    raised three expiry_of
new_segment-Holds_example =
    new_segment-Holds coding 5 6 apple three 2 three_record coding-IsSound (omega arith)
      (omega arith) refl

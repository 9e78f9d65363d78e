-- ===== src/Vfs/Segment.antt =====
-- vfs/segment.go: the data record, its construction and its size. The unmarshalling by bson of
-- the six conversions is a parameter.
pub mod Laws
use wiredkv.Prelude.{
  nat_eq, ℕ, ◌+◌, ◌-◌, ◌*◌, ◌%◌, ◌^◌, Bool, ◌&&◌, ◌==◌, ltb, length, if◌then◌else◌, [], Result, ok,
  err, unknown_type, wrong_type, ◌>>=◌,
}
use wiredkv.Prelude.Bytes.{Bytes}
use wiredkv.Prelude.Int.{ℤ, negsuc, int64}
use wiredkv.Vfs.Transformer.{Transformer, encode}

-- An int8 that is only compared with the constants below: its bit pattern.
abbrev pub Kind : Type 0
Kind = ℕ

abbrev pub set_kind : Kind
set_kind = 0

abbrev pub zset_kind : Kind
zset_kind = 1

abbrev pub list_kind : Kind
list_kind = 2

abbrev pub text_kind : Kind
text_kind = 3

abbrev pub table_kind : Kind
table_kind = 4

abbrev pub number_kind : Kind
number_kind = 5

abbrev pub unknown_kind : Kind
unknown_kind = 6

-- `tombstone` is an int8, as its bit pattern.
pub record Segment : Type 0 where
  pub tombstone : ℕ
  pub kind : Kind
  pub expired_at : ℕ
  pub created_at : ℕ
  pub key_size : ℕ
  pub value_size : ℕ
  pub key : Bytes
  pub value : Bytes

-- The dynamic types that the type switch of `toKind` tells apart.
pub data DynamicType : Type 0 where
  set zset list text table number number_pointer other : DynamicType

-- An interface value: its dynamic type, and what its method ToBSON (bson.Marshal) returns.
pub record Serializable : Type 0 where
  pub dynamic_type : DynamicType
  pub to_bson : Result Bytes

unfoldable pub to_kind : DynamicType → Result Kind
to_kind set = ok set_kind
to_kind zset = ok zset_kind
to_kind list = ok list_kind
to_kind text = ok text_kind
to_kind table = ok table_kind
to_kind number = ok number_kind
to_kind number_pointer = ok number_kind
to_kind other = err unknown_type

-- time.Now().Add(time.Second * time.Duration(ttl)).UnixNano(), in wrapping 64-bit arithmetic.
unfoldable pub expiry_of : ℕ → ℕ → ℕ
expiry_of now ttl = if ltb 0 ttl then (now + ttl * 1_000_000_000) % 2 ^ 64 else 0

-- `now` and `later` are the two readings of the clock, in nanoseconds.
unfoldable pub new_segment : Transformer → ℕ → ℕ → Bytes → Serializable → ℕ → Result Segment
unfolding to_kind expiry_of
new_segment t now later key value ttl = do
  kind ← to_kind value.dynamic_type
  bytes ← value.to_bson
  encoded ← encode t bytes
  ok (record {
    tombstone = 0;
    kind = kind;
    expired_at = expiry_of later ttl;
    created_at = now;
    key_size = length key % 2 ^ 32;
    value_size = length encoded % 2 ^ 32;
    key = key;
    value = encoded;
  })

unfoldable pub new_tombstone_segment : ℕ → Bytes → Segment
new_tombstone_segment now key = record {
  tombstone = 1;
  kind = unknown_kind;
  expired_at = 0;
  created_at = now;
  key_size = length key % 2 ^ 32;
  value_size = 0;
  key = key;
  value = [];
}

unfoldable pub is_tombstone : Segment → Bool
is_tombstone s = s.tombstone == 1

-- In uint32 arithmetic.
unfoldable pub size : Segment → ℕ
size s = (26 + s.key_size + s.value_size + 4) % 2 ^ 32

-- int64(s.ExpiredAt - now), or -1.
unfoldable pub ttl : ℕ → Segment → ℤ
ttl now s =
    if ltb 0 s.expired_at && ltb now s.expired_at then int64 (s.expired_at - now) else negsuc 0

-- ToSet, ToZSet, ToText, ToList, ToTable and ToNumber: the test of the kind, then bson.Unmarshal.
module _ {A : Type 0} (unmarshal : Bytes → Result A) where
  unfoldable pub to_set : Segment → Result A
  to_set s = if s.kind == set_kind then unmarshal s.value else err wrong_type

  unfoldable pub to_zset : Segment → Result A
  to_zset s = if s.kind == zset_kind then unmarshal s.value else err wrong_type

  unfoldable pub to_text : Segment → Result A
  to_text s = if s.kind == text_kind then unmarshal s.value else err wrong_type

  unfoldable pub to_list : Segment → Result A
  to_list s = if s.kind == list_kind then unmarshal s.value else err wrong_type

  unfoldable pub to_table : Segment → Result A
  to_table s = if s.kind == table_kind then unmarshal s.value else err wrong_type

  unfoldable pub to_number : Segment → Result A
  to_number s = if s.kind == number_kind then unmarshal s.value else err wrong_type

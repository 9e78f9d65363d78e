-- ===== src/Vfs/Segment/Laws.antt =====
-- What the two constructors of records build, and how the time to live counts down.
use mathlib.Core.Path.{subst}
use wiredkv.Prelude.{
  ℕ, ◌+◌, ◌-◌, ◌*◌, ◌%◌, ◌^◌, ◌<◌, ◌≡◌, refl, sym, ap, ◌∙◌, arith, ok, false, if◌then◌else◌, ltb,
  length, >>=-eq-ok, nat_eq,
}
use wiredkv.Prelude.Bytes.{Bytes}
use wiredkv.Prelude.Int.{pos, negsuc, int64}
use wiredkv.Vfs.Transformer.{Transformer, encode, decode}
use wiredkv.Vfs.Transformer.Laws.{IsSound, decode-encode}
use wiredkv.Vfs.Segment.{
  Segment, Kind, Serializable, DynamicType, new_segment, new_tombstone_segment, to_kind, expiry_of,
  is_tombstone, ttl,
}
use wiredkv.Vfs.Codec.SegmentTrip.{IsSegment}

-- What a record for a value holds.
pub record Holds (t : Transformer) (now later : ℕ) (key : Bytes) (value : Serializable) (life : ℕ)
    (s : Segment) : Type 0 where
  pub valid : IsSegment s
  pub is_data : is_tombstone s ≡ false
  pub key_is : s.key ≡ key
  pub kind_is : to_kind value.dynamic_type ≡ ok s.kind
  pub created_is : s.created_at ≡ now
  pub expired_is : s.expired_at ≡ expiry_of later life
  pub decodes : decode t s.value ≡ value.to_bson

kind_small : (d : DynamicType) (k : Kind) → to_kind d ≡ ok k → k < 2 ^ 8
unfolding to_kind
kind_small d k h = ground arith

expiry_small : (now life : ℕ) → expiry_of now life < 2 ^ 64
unfolding expiry_of
expiry_small now life = ground arith

module _ (t : Transformer) (now later : ℕ) (key : Bytes) (value : Serializable) (life : ℕ) where
  abbrev built : Kind → Bytes → Segment
  built kind encoded = record {
    tombstone = 0;
    kind = kind;
    expired_at = expiry_of later life;
    created_at = now;
    key_size = length key % 2 ^ 32;
    value_size = length encoded % 2 ^ 32;
    key = key;
    value = encoded;
  }

  built-Holds :
      (kind : Kind) (bytes encoded : Bytes)
      → IsSound t
      → now < 2 ^ 64
      → 30 + length key + length encoded < 2 ^ 32
      → to_kind value.dynamic_type ≡ ok kind
      → value.to_bson ≡ ok bytes
      → encode t bytes ≡ ok encoded
      → Holds t now later key value life (built kind encoded)
  unfolding is_tombstone
  built-Holds kind bytes encoded sound time fits k b e = record {
    valid = record {
      tombstone_fits = omega arith;
      kind_fits = kind_small value.dynamic_type kind k;
      expired_fits = expiry_small later life;
      created_fits = time;
      key_size_is = omega arith;
      value_size_is = omega arith;
      size_fits = omega arith;
    };
    is_data = refl;
    key_is = refl;
    kind_is = k;
    created_is = refl;
    expired_is = refl;
    decodes = decode-encode t bytes encoded sound e ∙ sym b;
  }

  -- A record that was built for a value, at a time in 64 bits and with a key and an encoded value
  -- that fit 32 bits together, is well formed, no tombstone, and of that key, kind and time; its
  -- expiry is that of its time to live; and its value decodes to what the value serialised to.
  pub new_segment-Holds :
      (s : Segment)
      → IsSound t
      → now < 2 ^ 64
      → 30 + length key + length s.value < 2 ^ 32
      → new_segment t now later key value life ≡ ok s
      → Holds t now later key value life s
  unfolding new_segment
  new_segment-Holds s sound time fits h =
      let (kind, k, h0) = >>=-eq-ok (to_kind value.dynamic_type) _ h in
      let (bytes, b, h1) = >>=-eq-ok value.to_bson _ h0 in
      let (encoded, e, h2) = >>=-eq-ok (encode t bytes) _ h1 in
      let out : built kind encoded ≡ s = cc in
      let same : length encoded ≡ length s.value = ap (λ (r : Segment). length r.value) out in
      subst (Holds t now later key value life) out
        (built-Holds kind bytes encoded sound time (omega arith) k b e)

-- A tombstone of a key that fits, at a time in 64 bits, is well formed.
pub new_tombstone_segment-IsSegment :
    (now : ℕ) (key : Bytes)
    → now < 2 ^ 64
    → 30 + length key < 2 ^ 32
    → IsSegment (new_tombstone_segment now key)
unfolding new_tombstone_segment
new_tombstone_segment-IsSegment now key time fits = omega arith

-- For a positive time to live that stays below 2 ^ 63 nanoseconds of clock, the rest is exact: at
-- each reading of the clock what is left until the expiry, and -1 from then on.
pub ttl-expiry_of :
    (s : Segment) (later life now : ℕ)
    → 0 < life
    → later + life * 1_000_000_000 < 2 ^ 63
    → s.expired_at ≡ expiry_of later life
    → ttl now s ≡ (
        if ltb now (later + life * 1_000_000_000)
        then pos (later + life * 1_000_000_000 - now)
        else negsuc 0)
unfolding ttl expiry_of int64
ttl-expiry_of s later life now some_life fits e = ground arith

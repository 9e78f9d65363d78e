-- ===== src/Vfs/Codec/IndexSound.antt =====
-- An accepted record of the index snapshot is, byte for byte, what the entry serialises to.
use mathlib.Core.Path.{subst}
use wiredkv.Prelude.{
  ℕ, ◌+◌, ◌-◌, ◌≤◌, ◌≡◌, refl, sym, ap, ◌∙◌, arith, [], ◌++◌, Result, ok, err, All, nat_beq, length,
  take, drop, ◌>>=◌, if◌then◌else◌, checksum_mismatch, take-append-drop, length-take_le,
  length-drop, All-take, All-drop, length-zero→nil, >>=-eq-ok,
}
use wiredkv.Prelude.Bytes.{Bytes, IsByte, le_bytes, le_value, le_bytes-le_value}
use wiredkv.Vfs.Hash.{Hashes}
use wiredkv.Vfs.Codec.{INode, serialized_index, deserialized_index, read_uint}

-- What a successful read says of its input.
record Took (w : ℕ) (buf : Bytes) (v : ℕ) (rest : Bytes) : Type 0 where
  whole : buf ≡ le_bytes w v ++ rest
  bytes : All IsByte rest
  len : length buf ≡ w + length rest

read_uint-Took :
    (w : ℕ) (buf : Bytes) (v : ℕ) (rest : Bytes)
    → All IsByte buf
    → read_uint w buf ≡ ok (v, rest)
    → Took w buf v rest
unfolding read_uint
read_uint-Took w buf v rest bytes h =
    let long : w ≤ length buf = ground arith in
    let value : le_value (take w buf) ≡ v = ground arith in
    let left : drop w buf ≡ rest = ground arith in
    let front : le_bytes w v ≡ take w buf = rw (← value) (
      ap (λ k. le_bytes k (le_value (take w buf))) (sym (length-take_le w buf long))
      ∙ le_bytes-le_value (take w buf) (All-take IsByte w buf bytes)) in
    record {
      whole = rw (front, ← left) (sym (take-append-drop w buf));
      bytes = rw (← left) (All-drop IsByte w buf bytes);
      len = omega (arith, length-drop w buf, ap (length {A = ℕ}) left);
    }

-- The next field of a successful chain of reads.
after_uint {κ} :
    {B : Type 0} {C : Type κ} (w : ℕ) (buf : Bytes) (f : ℕ × Bytes → Result B) (b : B)
    → All IsByte buf
    → (read_uint w buf >>= f) ≡ ok b
    → ((v : ℕ) (rest : Bytes) → Took w buf v rest → f (v, rest) ≡ ok b → C)
    → C
after_uint w buf f b bytes e k =
    let ((v, rest), e', e'') = >>=-eq-ok (read_uint w buf) f e in
    k v rest (read_uint-Took w buf v rest bytes e') e''

abbrev body_of : ℕ → INode → Bytes
body_of inum n =
    le_bytes 8 inum
    ++ (le_bytes 8 n.region_id
        ++ (le_bytes 8 n.position
            ++ (le_bytes 4 n.length ++ (le_bytes 8 n.expired_at ++ le_bytes 8 n.created_at))))

-- The fields that were read, the checksum and the test of it give the whole record.
assemble :
    (h : Hashes) (buf : Bytes) (inum checksum : ℕ) (n : INode)
    → buf ≡ body_of inum n ++ le_bytes 4 checksum
    → checksum ≡ h.checksum_ieee (take (length buf - 4) buf)
    → serialized_index h inum n ≡ buf
unfolding serialized_index
assemble h buf inum checksum n p q =
    let q' : checksum ≡ h.checksum_ieee (body_of inum n) = rw p at q in
    rw p (ap (λ c. body_of inum n ++ le_bytes 4 c) (sym q'))

checked :
    {A : Type 0} (c d : ℕ) (a b : A)
    → (if nat_beq c d then ok a else err checksum_mismatch) ≡ ok b
    → (c ≡ d) × (a ≡ b)
checked c d a b e = ground arith

-- Of 48 bytes that are accepted, the entry read from them serialises to the same 48 bytes.
pub serialized_index-deserialized_index :
    (h : Hashes) (buf : Bytes) (inum : ℕ) (n : INode)
    → All IsByte buf
    → length buf ≡ 48
    → deserialized_index h buf ≡ ok (inum, n)
    → serialized_index h inum n ≡ buf
unfolding deserialized_index
serialized_index-deserialized_index h buf inum n bytes len e =
    after_uint 8 buf _ _ bytes e λ v0 r0 t0 e0. after_uint 8 r0 _ _ t0.bytes e0 λ v1 r1 t1 e1.
      after_uint 8 r1 _ _ t1.bytes e1 λ v2 r2 t2 e2. after_uint 4 r2 _ _ t2.bytes e2 λ v3 r3 t3 e3.
        after_uint 8 r3 _ _ t3.bytes e3 λ v4 r4 t4 e4.
          after_uint 8 r4 _ _ t4.bytes e4 λ v5 r5 t5 e5.
            after_uint 4 r5 _ _ t5.bytes e5 λ v6 r6 t6 e6.
              let (sum, out) = checked v6 _ _ _ e6 in
              let nothing : r6 ≡ [] =
                length-zero→nil r6
                  (omega (arith, t0.len, t1.len, t2.len, t3.len, t4.len, t5.len, t6.len, len)) in
              let whole : buf
                  ≡ body_of v0 (record {
                    region_id = v1;
                    position = v2;
                    length = v3;
                    expired_at = v4;
                    created_at = v5;
                    mvcc = 0;
                  })
                    ++ le_bytes 4 v6 =
                rw (t0.whole, t1.whole, t2.whole, t3.whole, t4.whole, t5.whole, t6.whole, nothing)
                  refl in
              subst (λ (p : ℕ × INode). serialized_index h p.0 p.1 ≡ buf) out
                (assemble h buf v0 v6 _ whole sum)

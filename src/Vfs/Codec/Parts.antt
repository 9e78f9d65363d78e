-- ===== src/Vfs/Codec/Parts.antt =====
-- Reading at a position: what was written there comes back, and later bytes do not matter.
use mathlib.Core.List.{append_assoc}
use wiredkv.Prelude.{ℕ, ◌+◌, ◌≡◌, arith, ◌++◌, ok, length, length-append, drop-append, take-append}
use wiredkv.Prelude.Bytes.{Bytes}
use wiredkv.Vfs.Codec.{read_at}

pub read_at-append :
    (pre mid post : Bytes) (offset n : ℕ)
    → offset ≡ length pre
    → n ≡ length mid
    → read_at (pre ++ (mid ++ post)) offset n ≡ ok mid
unfolding read_at
read_at-append pre mid post offset n p q = rw (p, q, drop-append, take-append) (ground arith)

-- A record of four parts behind a prefix, as the serialisation brackets it.
abbrev pub record_at : Bytes → Bytes → Bytes → Bytes → Bytes → Bytes → Bytes
record_at pre hd k v c post = pre ++ (((hd ++ (k ++ v)) ++ c) ++ post)

module _ (pre hd k v c post : Bytes) (offset n : ℕ) where
  pub read_header :
      offset ≡ length pre → n ≡ length hd → read_at (record_at pre hd k v c post) offset n ≡ ok hd
  read_header p q =
      let e : record_at pre hd k v c post ≡ pre ++ (hd ++ ((k ++ v) ++ (c ++ post))) =
        simp append_assoc in
      rw e (read_at-append pre hd ((k ++ v) ++ (c ++ post)) offset n p q)

  pub read_key :
      offset ≡ length pre + length hd
      → n ≡ length k
      → read_at (record_at pre hd k v c post) offset n ≡ ok k
  read_key p q =
      let e : record_at pre hd k v c post ≡ (pre ++ hd) ++ (k ++ (v ++ (c ++ post))) =
        simp append_assoc in
      rw e (
        read_at-append (pre ++ hd) k (v ++ (c ++ post)) offset n
          (omega (arith, length-append pre hd)) q)

  pub read_value :
      offset ≡ length pre + length hd + length k
      → n ≡ length v
      → read_at (record_at pre hd k v c post) offset n ≡ ok v
  read_value p q =
      let e : record_at pre hd k v c post ≡ (pre ++ (hd ++ k)) ++ (v ++ (c ++ post)) =
        simp append_assoc in
      rw e (
        read_at-append (pre ++ (hd ++ k)) v (c ++ post) offset n
          (omega (arith, length-append pre (hd ++ k), length-append hd k)) q)

  pub read_checksum :
      offset ≡ length pre + length hd + length k + length v
      → n ≡ length c
      → read_at (record_at pre hd k v c post) offset n ≡ ok c
  read_checksum p q =
      let e : record_at pre hd k v c post ≡ (pre ++ (hd ++ (k ++ v))) ++ (c ++ post) =
        simp append_assoc in
      rw e (
        read_at-append (pre ++ (hd ++ (k ++ v))) c post offset n
          (omega (
            arith,
            length-append pre (hd ++ (k ++ v)),
            length-append hd (k ++ v),
            length-append k v,
          ))
          q)

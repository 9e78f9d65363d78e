-- ===== src/Vfs/FileName/Limit.antt =====
-- How many region files can be named: those whose number has at most nine digits.
use mathlib.Core.List.{append_assoc}
use native.Mathlib.Nat.{pow-suc}
use wiredkv.Prelude.{
  ℕ, zero, suc, ◌+◌, ◌-◌, ◌/◌, ◌%◌, ◌^◌, ◌≤◌, ◌<◌, ◌≡◌, refl, arith, ◌++◌, [], ◌∷◌, ok, err, ltb,
  length, replicate, true, false, if◌then◌else◌, region_limit, inl, inr, Bool-cases, ltb→lt,
}
use wiredkv.Prelude.Bytes.{Bytes}
use wiredkv.Vfs.FileName.{
  decimal, zero_padded, format_data_file_name, generate_file_name, file_extension, starts_with_zero,
}

length-decimal_ge : (f n : ℕ) (acc : Bytes) → length acc ≤ length (decimal f n acc)
unfolding decimal
length-decimal_ge zero n acc = omega arith
length-decimal_ge (suc f) n acc =
    ground (arith, length-decimal_ge f (n / 10) ((b'0' + n % 10) ∷ acc))

-- `k` digits for a number below 10 ^ k.
length-decimal_le :
    (k f n : ℕ) (acc : Bytes) → n < 10 ^ suc k → length (decimal f n acc) ≤ suc k + length acc
unfolding decimal
length-decimal_le k zero n acc h = omega arith
length-decimal_le zero (suc f) n acc h = ground arith
length-decimal_le (suc k) (suc f) n acc h =
    ground (arith, pow-suc 10 (suc k), length-decimal_le k f (n / 10) ((b'0' + n % 10) ∷ acc))

pow_pos : (j : ℕ) → 1 ≤ 10 ^ j
pow_pos zero = omega arith
pow_pos (suc j) = omega (arith, pow-suc 10 j, pow_pos j)

-- At least `k + 1` digits for a number from 10 ^ k on.
length-decimal_gt :
    (k f n : ℕ) (acc : Bytes)
    → 10 ^ k ≤ n
    → n < 10 ^ f
    → suc k + length acc ≤ length (decimal f n acc)
unfolding decimal
length-decimal_gt k zero n acc h b = absurd (omega (arith, pow_pos k))
length-decimal_gt zero (suc f) n acc h b =
    ground (arith, length-decimal_ge f (n / 10) ((b'0' + n % 10) ∷ acc))
length-decimal_gt (suc k) (suc f) n acc h b = ground (
  arith,
  pow_pos k,
  pow-suc 10 k,
  pow-suc 10 f,
  length-decimal_gt k f (n / 10) ((b'0' + n % 10) ∷ acc),
)

leading_digit :
    (f n : ℕ) (acc rest : Bytes)
    → 0 < n
    → n < 10 ^ f
    → starts_with_zero (decimal f n acc ++ rest) ≡ false
unfolding decimal starts_with_zero
leading_digit zero n acc rest p b = absurd (omega arith)
leading_digit (suc f) n acc rest p b =
    ground (arith, pow-suc 10 f, leading_digit f (n / 10) ((b'0' + n % 10) ∷ acc) rest)

zeros_in_front : (k : ℕ) (rest : Bytes) → 0 < k → starts_with_zero (replicate k b'0' ++ rest) ≡ true
unfolding starts_with_zero
zeros_in_front zero rest h = elim h [ ]
zeros_in_front (suc k) rest h = refl

-- A zero in front tells the numbers of at most nine digits.
pub starts_with_zero-format :
    (n : ℕ) → n < 2 ^ 64 → starts_with_zero (format_data_file_name n) ≡ ltb n (10 ^ 9)
unfolding format_data_file_name zero_padded
starts_with_zero-format n h =
    let ds = decimal 20 n [] in
    elim (Bool-cases (ltb n (10 ^ 9))) [
      | inl small ↦
          rw (small, append_assoc)
            (zeros_in_front (10 - length ds) (ds ++ file_extension)
              (omega (arith, length-decimal_le 8 20 n [] (ltb→lt n _ small))))
      | inr large ↦
          let big : 10 ^ 9 ≤ n = ground arith in
          let none_in_front : 10 - length ds ≡ 0 =
            omega (arith, length-decimal_gt 9 20 n [] big (omega arith)) in
          rw (large, none_in_front)
            (leading_digit 20 n [] file_extension (omega arith) (omega arith))
    ]

-- A region below 10 ^ 9 has its formatted name; from there on a uint64 has none.
pub generate_file_name_lem :
    (n : ℕ)
    → n < 2 ^ 64
    → generate_file_name n
      ≡ (if ltb n (10 ^ 9) then ok (format_data_file_name n) else err region_limit)
unfolding generate_file_name
generate_file_name_lem n h = rw (starts_with_zero-format n h)

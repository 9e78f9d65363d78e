-- ===== src/Vfs/FileName/RoundTrip.antt =====
-- A formatted region number is parsed back, so different regions have different files, and
-- names can be generated exactly below 10 ^ 9.
use wiredkv.Prelude.{
  ℕ, zero, suc, ◌+◌, ◌-◌, ◌/◌, ◌%◌, ◌^◌, ◌<◌, ◌≡◌, ◌≢◌, refl, ap, ◌∙◌, arith, ◌++◌, [], ◌∷◌, ok,
  err, bad_name, length, replicate, All,
}
use wiredkv.Prelude.Bytes.{Bytes}
use wiredkv.Vfs.FileName.{
  decimal, zero_padded, decimal_value, format_data_file_name, parse_data_file_name, file_extension,
  split_dots, cons_part, parse_parts, parse_uint,
}
use wiredkv.Vfs.FileName.Decimal.{
  IsDigit, decimal-IsDigit, decimal_value-decimal, decimal_value-zeros,
}

-- Digits hold no dot, so they are the first part.
split_dots-digits :
    (cs : Bytes)
    → All IsDigit cs
    → split_dots (cs ++ file_extension) ≡ cs ∷ (b'w' ∷ b'd' ∷ b'b' ∷ []) ∷ []
unfolding split_dots cons_part
split_dots-digits [] h = refl
split_dots-digits (c ∷ cs) ((lo, hi), h) = ground (arith, split_dots-digits cs h)

zeros-IsDigit : (k : ℕ) (cs : Bytes) → All IsDigit cs → All IsDigit (replicate k b'0' ++ cs)
zeros-IsDigit zero cs h = h
zeros-IsDigit (suc k) cs h = ((omega arith, omega arith), zeros-IsDigit k cs h)

parse_uint-value :
    (cs : Bytes) (n : ℕ) → decimal_value 0 cs ≡ ok n → n < 2 ^ 64 → cs ≢ [] → parse_uint cs ≡ ok n
unfolding parse_uint
parse_uint-value [] n h fits some_digit = absurd (some_digit refl)
parse_uint-value (c ∷ cs) n h fits some_digit = rw h (ground arith)

decimal-ne-nil : (f n : ℕ) (acc : Bytes) → acc ≢ [] → decimal f n acc ≢ []
unfolding decimal
decimal-ne-nil zero n acc h = h
decimal-ne-nil (suc f) n acc h =
    ground (arith, decimal-ne-nil f (n / 10) ((b'0' + n % 10) ∷ acc) (λ e. cc))

append-ne-nil : (xs ys : Bytes) → ys ≢ [] → xs ++ ys ≢ []
append-ne-nil [] ys h = h
append-ne-nil (x ∷ xs) ys h = λ e. cc

some_decimal : (n : ℕ) → decimal 20 n [] ≢ []
unfolding decimal
some_decimal n = ground (arith, decimal-ne-nil 19 (n / 10) ((b'0' + n % 10) ∷ []) (λ e. cc))

abbrev padded_digits : ℕ → Bytes
padded_digits n = replicate (10 - length (decimal 20 n [])) b'0' ++ decimal 20 n []

parse_uint-padded : (n : ℕ) → n < 2 ^ 64 → parse_uint (padded_digits n) ≡ ok n
unfolding decimal_value
parse_uint-padded n h =
    parse_uint-value (padded_digits n) n
      (decimal_value-zeros (10 - length (decimal 20 n [])) (decimal 20 n [])
        ∙ decimal_value-decimal 20 n [] (omega arith))
      h (append-ne-nil (replicate (10 - length (decimal 20 n [])) b'0') _ (some_decimal n))

-- The name of every uint64 region number is parsed back to that number.
pub parse_data_file_name-format_data_file_name :
    (n : ℕ) → n < 2 ^ 64 → parse_data_file_name (format_data_file_name n) ≡ ok n
unfolding parse_data_file_name format_data_file_name zero_padded parse_parts
parse_data_file_name-format_data_file_name n h =
    let digits : All IsDigit (padded_digits n) =
      zeros-IsDigit (10 - length (decimal 20 n [])) _ (decimal-IsDigit 20 n [] tt) in
    rw (split_dots-digits (padded_digits n) digits) (parse_uint-padded n h)

-- Different region numbers have different file names.
pub format_data_file_name-injective :
    (a b : ℕ) → a < 2 ^ 64 → b < 2 ^ 64 → format_data_file_name a ≡ format_data_file_name b → a ≡ b
format_data_file_name-injective a b ha hb e = ground (
  arith,
  parse_data_file_name-format_data_file_name a ha,
  parse_data_file_name-format_data_file_name b hb,
  ap parse_data_file_name e,
)

-- The name of the index file is not a region's.
pub parse_data_file_name-index :
    parse_data_file_name (b'i' ∷ b'n' ∷ b'd' ∷ b'e' ∷ b'x' ∷ file_extension) ≡ err bad_name
unfolding parse_data_file_name parse_parts split_dots cons_part parse_uint decimal_value
parse_data_file_name-index = refl

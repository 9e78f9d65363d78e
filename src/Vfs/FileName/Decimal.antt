-- ===== src/Vfs/FileName/Decimal.antt =====
-- Printing a number in decimal digits and reading them back.
use wiredkv.Prelude.{
  ℕ, zero, suc, ◌+◌, ◌/◌, ◌%◌, ◌^◌, ◌≤◌, ◌<◌, ◌≡◌, refl, arith, ◌++◌, ◌∷◌, replicate, All,
}
use wiredkv.Prelude.Bytes.{Bytes}
use wiredkv.Vfs.FileName.{decimal, decimal_value}
use native.Mathlib.Nat.{pow-suc}

abbrev pub IsDigit : ℕ → Type 0
IsDigit c = (b'0' ≤ c) × (c ≤ b'9')

-- The digits come before what was there, and all are digits.
pub decimal-IsDigit : (f n : ℕ) (acc : Bytes) → All IsDigit acc → All IsDigit (decimal f n acc)
unfolding decimal
decimal-IsDigit zero n acc h = h
decimal-IsDigit (suc f) n acc h =
    ground
      (arith, decimal-IsDigit f (n / 10) ((b'0' + n % 10) ∷ acc) ((omega arith, omega arith), h))

-- Reading the digits goes on from the number.
pub decimal_value-decimal :
    (f n : ℕ) (acc : Bytes) → n < 10 ^ f → decimal_value 0 (decimal f n acc) ≡ decimal_value n acc
unfolding decimal decimal_value
decimal_value-decimal zero n acc h = rw (zero_of n (omega arith))
  where
    zero_of : (m : ℕ) → m < 1 → 0 ≡ m
    zero_of m p = omega arith
decimal_value-decimal (suc f) n acc h =
    ground (arith, pow-suc 10 f, decimal_value-decimal f (n / 10) ((b'0' + n % 10) ∷ acc))

-- Zeros in front change nothing.
pub decimal_value-zeros :
    (k : ℕ) (cs : Bytes) → decimal_value 0 (replicate k b'0' ++ cs) ≡ decimal_value 0 cs
unfolding decimal_value
decimal_value-zeros zero cs = refl
decimal_value-zeros (suc k) cs = decimal_value-zeros k cs

-- ===== src/Types/Number.antt =====
-- types/number.go: an int64 with atomic operations. A value is the bit pattern of its int64, below
-- 2 ^ 64; ToBSON calls another package.
use wiredkv.Prelude.{
  ℕ, ◌+◌, ◌-◌, ◌%◌, ◌^◌, ◌<◌, ◌≡◌, arith, Bool, true, false, if◌then◌else◌, nat_beq,
}

pub record Number : Type 0 where
  pub value : ℕ
  pub ttl : ℕ

unfoldable pub new_number : ℕ → Number
new_number num = record { value = num; ttl = 0 }

-- The operations return the new state and their result.
unfoldable pub add : ℕ → Number → Number × ℕ
add delta num = let sum = (num.value + delta) % 2 ^ 64 in (record num { value = sum }, sum)

-- atomic.AddInt64 with -delta.
unfoldable pub sub : ℕ → Number → Number × ℕ
sub delta num = add ((2 ^ 64 - delta) % 2 ^ 64) num

unfoldable pub increment : Number → Number × ℕ
increment num = add 1 num

unfoldable pub decrement : Number → Number × ℕ
decrement num = sub 1 num

unfoldable pub set : ℕ → Number → Number
set new_value num = record num { value = new_value }

unfoldable pub get : Number → ℕ
get num = num.value

unfoldable pub compare_and_swap : ℕ → ℕ → Number → Number × Bool
compare_and_swap old new num =
    if nat_beq num.value old then (record num { value = new }, true) else (num, false)

-- Subtracting what was added, or adding what was subtracted, gives the number back, also where the
-- sum wraps around.
pub sub-add :
    (delta : ℕ) (num : Number)
    → num.value < 2 ^ 64
    → delta < 2 ^ 64
    → ((sub delta (add delta num).0).0 ≡ num) × ((add delta (sub delta num).0).0 ≡ num)
unfolding sub add
sub-add delta num fits small =
    (λ i. record { value = there i; ttl = num.ttl }, λ i. record { value = back i; ttl = num.ttl })
  where
    there : ((num.value + delta) % 2 ^ 64 + (2 ^ 64 - delta) % 2 ^ 64) % 2 ^ 64 ≡ num.value
    there = omega arith

    back : ((num.value + (2 ^ 64 - delta) % 2 ^ 64) % 2 ^ 64 + delta) % 2 ^ 64 ≡ num.value
    back = omega arith

-- A swap is made exactly when the number is the expected one; then the number is the new one, and
-- else it is unchanged.
pub compare_and_swap_lem :
    (old new : ℕ) (num : Number)
    → ((compare_and_swap old new num).1 ≡ true
        → (num.value ≡ old) × (get (compare_and_swap old new num).0 ≡ new))
      × ((compare_and_swap old new num).1 ≡ false → (compare_and_swap old new num).0 ≡ num)
unfolding compare_and_swap get
compare_and_swap_lem old new num = ground arith

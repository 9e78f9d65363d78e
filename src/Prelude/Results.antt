-- ===== src/Prelude/Results.antt =====
-- Go's (value, error) pair as a result. An error that the source wraps keeps its cause; its text is
-- not modelled.
use mathlib.Core.Path.{◌≡◌, refl}

-- What the source distinguishes by its messages. `panicked` is a run-time panic; `stuck` is no
-- Go value: a loop of the model ran out of fuel; and `blocked` is none either: the caller waits for a
-- lock for ever.
pub data Error : Type 0 where
  eof io_failed partial_write : Error
  shard_not_found index_not_found expired region_not_found version_conflict : Error
  checksum_mismatch bad_name region_limit bad_header : Error
  unknown_type wrong_type encode_failed decode_failed secret_too_short invalid_input : Error
  out_of_bounds item_not_found : Error
  panicked stuck blocked : Error

pub data Result {ℓ} (A : Type ℓ) : Type ℓ where
  ok : A → Result A
  err : Error → Result A

infixl 5 ◌>>=◌
abbrev pub ◌>>=◌ {ℓ κ} : {A : Type ℓ} {B : Type κ} → Result A → (A → Result B) → Result B
ok value >>= next = next value
err cause >>= next = err cause

abbrev pub map_result {ℓ κ} : {A : Type ℓ} {B : Type κ} → (A → B) → Result A → Result B
map_result change (ok value) = ok (change value)
map_result change (err cause) = err cause

-- Inversion of a successful bind.
pub >>=-eq-ok {ℓ κ} :
    {A : Type ℓ} {B : Type κ} (first : Result A) (next : A → Result B) {end : B}
    → (first >>= next) ≡ ok end
    → (value : A) × (first ≡ ok value) × (next value ≡ ok end)
>>=-eq-ok (ok value) next e = (value, refl, e)
>>=-eq-ok (err cause) next e = cc

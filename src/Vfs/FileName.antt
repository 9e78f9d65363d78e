-- ===== src/Vfs/FileName.antt =====
-- The names of region files: generateFileName, parseDataFileName and formatDataFileName of
-- vfs/lfs.go, with what they use of fmt, strconv and strings.
pub mod Decimal
pub mod RoundTrip
pub mod Limit
use wiredkv.Prelude.{
  ℕ, zero, suc, ◌+◌, ◌-◌, ◌*◌, ◌/◌, ◌%◌, ◌^◌, ◌++◌, List, [], ◌∷◌, Result, ok, err, bad_name,
  region_limit, ◌>>=◌, nat_beq, ltb, leb, length, replicate, Bool, true, false, ◌&&◌, if◌then◌else◌,
}
use wiredkv.Prelude.Bytes.{Bytes}

abbrev pub file_extension : Bytes
file_extension = b'.' ∷ b'w' ∷ b'd' ∷ b'b' ∷ []

-- The decimal digits of `n`, before `acc`; 20 rounds do for a uint64.
pub decimal : ℕ → ℕ → Bytes → Bytes
decimal zero n acc = acc
decimal (suc f) n acc =
    let more = decimal f (n / 10) ((b'0' + n % 10) ∷ acc) in
    if ltb n 10 then (b'0' + n) ∷ acc else more

-- %0*d: zeros in front, up to the width.
pub zero_padded : ℕ → Bytes → Bytes
zero_padded width digits = replicate (width - length digits) b'0' ++ digits

unfoldable pub format_data_file_name : ℕ → Bytes
format_data_file_name number = zero_padded 10 (decimal 20 number []) ++ file_extension

unfoldable pub starts_with_zero : Bytes → Bool
starts_with_zero [] = false
starts_with_zero (c ∷ cs) = nat_beq c b'0'

unfoldable pub generate_file_name : ℕ → Result Bytes
generate_file_name region_id =
    let name = format_data_file_name region_id in
    if starts_with_zero name then ok name else err region_limit

-- strings.Split(s, "."): `cons_part` puts a byte in front of the first part.
pub cons_part : ℕ → List Bytes → List Bytes
cons_part c [] = (c ∷ []) ∷ []
cons_part c (p ∷ ps) = (c ∷ p) ∷ ps

pub split_dots : Bytes → List Bytes
split_dots [] = [] ∷ []
split_dots (c ∷ cs) =
    let parts = split_dots cs in if nat_beq c b'.' then [] ∷ parts else cons_part c parts

-- strconv.ParseUint(s, 10, 64): digits only, at least one, and a value that fits.
pub decimal_value : ℕ → Bytes → Result ℕ
decimal_value acc [] = ok acc
decimal_value acc (c ∷ cs) =
    let rest = decimal_value (acc * 10 + (c - b'0')) cs in
    if leb b'0' c && leb c b'9' then rest else err bad_name

pub parse_uint : Bytes → Result ℕ
parse_uint [] = err bad_name
parse_uint (c ∷ cs) = do n ← decimal_value 0 (c ∷ cs); if ltb n (2 ^ 64) then ok n else err bad_name

pub parse_parts : List Bytes → Result ℕ
parse_parts (first ∷ second ∷ []) = parse_uint first
parse_parts _ = err bad_name

unfoldable pub parse_data_file_name : Bytes → Result ℕ
parse_data_file_name name = parse_parts (split_dots name)

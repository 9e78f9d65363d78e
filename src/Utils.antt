-- ===== src/Utils.antt =====
-- utils/str.go: the arguments that the daemon is started with. RandomString calls package rand, and
-- utils/fs.go package os.
pub mod Arguments
use wiredkv.Prelude.{
  ℕ, ◌+◌, Bool, ◌||◌, List, [], ◌∷◌, ◌++◌, nat_beq, leb, ltb, if◌then◌else◌, list_beq,
}
use wiredkv.Prelude.Bytes.{Bytes}

-- "-daemon" and "--daemon"
abbrev pub daemon_flag : Bytes
daemon_flag = b'-' ∷ b'd' ∷ b'a' ∷ b'e' ∷ b'm' ∷ b'o' ∷ b'n' ∷ []

abbrev pub long_daemon_flag : Bytes
long_daemon_flag = b'-' ∷ daemon_flag

unfoldable pub is_daemon_flag : Bytes → Bool
is_daemon_flag arg = list_beq arg daemon_flag || list_beq arg long_daemon_flag

unfoldable pub without_daemon : List Bytes → List Bytes
without_daemon [] = []
without_daemon (arg ∷ args) =
    let rest = without_daemon args in if is_daemon_flag arg then rest else arg ∷ rest

-- `for i := 1; i < len(args); i++` starts behind the first element.
abbrev pub behind_first : List Bytes → List Bytes
behind_first [] = []
behind_first (arg ∷ args) = args

unfoldable pub trim_daemon : List Bytes → List Bytes
trim_daemon args = without_daemon (behind_first args)

-- strings.Count(arg, "=")
unfoldable pub count_equals : Bytes → ℕ
count_equals [] = 0
count_equals (c ∷ cs) = let rest = count_equals cs in if nat_beq c b'=' then 1 + rest else rest

-- The parts before and behind the first "=".
unfoldable pub before_equals : Bytes → Bytes
before_equals [] = []
before_equals (c ∷ cs) = let rest = before_equals cs in if nat_beq c b'=' then [] else c ∷ rest

unfoldable pub behind_equals : Bytes → Bytes
behind_equals [] = []
behind_equals (c ∷ cs) = let rest = behind_equals cs in if nat_beq c b'=' then cs else rest

-- With exactly one "=", strings.Split gives two parts; with more, the argument is skipped.
unfoldable pub split_arg : Bytes → List Bytes
split_arg arg =
    if nat_beq (count_equals arg) 1
    then before_equals arg ∷ behind_equals arg ∷ []
    else if ltb 1 (count_equals arg)
    then []
    else arg ∷ []

unfoldable pub split_all : List Bytes → List Bytes
split_all [] = []
split_all (arg ∷ args) = split_arg arg ++ split_all args

unfoldable pub split_args : List Bytes → List Bytes
split_args args = split_all (behind_first args)

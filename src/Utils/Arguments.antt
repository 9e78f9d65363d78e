-- ===== src/Utils/Arguments.antt =====
-- What becomes of the arguments in runAsDaemon of cmd/process.go, which splits what it trimmed.
use wiredkv.Prelude.{
  ℕ, ◌+◌, ◌≡◌, ◌≢◌, refl, ap, arith, true, false, ltb, List, [], ◌∷◌, ◌++◌, All, nat_beq,
  Bool-cases, inl, inr, nat_beq_iff,
}
use wiredkv.Prelude.Bytes.{Bytes}
use wiredkv.Utils.{
  is_daemon_flag, without_daemon, trim_daemon, count_equals, before_equals, behind_equals,
  split_arg, split_args,
}

without_daemon-All : (args : List Bytes) → All (λ a. is_daemon_flag a ≡ false) (without_daemon args)
unfolding without_daemon
without_daemon-All [] = tt
without_daemon-All (arg ∷ args) =
    let rest = without_daemon-All args in
    elim (Bool-cases (is_daemon_flag arg)) [
      | inl flag ↦ rw flag rest
      | inr other ↦ rw other (other, rest)
    ]

-- No argument that is left after the trimming is a daemon flag.
pub trim_daemon-All : (args : List Bytes) → All (λ a. is_daemon_flag a ≡ false) (trim_daemon args)
unfolding trim_daemon without_daemon
trim_daemon-All [] = tt
trim_daemon-All (name ∷ args) = without_daemon-All args

-- No sign of equality.
abbrev pub IsPlain : Bytes → Type 0
IsPlain a = All (λ c. c ≢ b'=') a

no_sign : (c : ℕ) → c ≢ b'=' → nat_beq c b'=' ≡ false
no_sign c ne = ground (arith, nat_beq_iff c b'=', ne)

count_plain : (a : Bytes) → IsPlain a → count_equals a ≡ 0
unfolding count_equals
count_plain [] plain = refl
count_plain (c ∷ a) (ne, plain) = rw (no_sign c ne) (count_plain a plain)

-- The first sign of equality.
at_sign :
    (a rest : Bytes)
    → IsPlain a
    → (count_equals (a ++ (b'=' ∷ rest)) ≡ 1 + count_equals rest)
      × (before_equals (a ++ (b'=' ∷ rest)) ≡ a)
      × (behind_equals (a ++ (b'=' ∷ rest)) ≡ rest)
unfolding count_equals before_equals behind_equals
at_sign [] rest plain = (refl, refl, refl)
at_sign (c ∷ a) rest (ne, plain) =
    let (count, before, behind) = at_sign a rest plain in
    (rw (no_sign c ne) count, rw (no_sign c ne) (ap (◌∷◌ c) before), rw (no_sign c ne) behind)

-- An argument without a sign of equality is kept, one with a single sign becomes the two parts before
-- and behind it, and one with two signs or more is dropped.
pub split_arg_lem :
    (a b c : Bytes)
    → IsPlain a
    → IsPlain b
    → (split_arg a ≡ a ∷ [])
      × (split_arg (a ++ (b'=' ∷ b)) ≡ a ∷ b ∷ [])
      × (split_arg (a ++ (b'=' ∷ (b ++ (b'=' ∷ c)))) ≡ [])
unfolding split_arg
split_arg_lem a b c plain_a plain_b =
    let (count, before, behind) = at_sign a b plain_a in
    let (count2, _, _) = at_sign a (b ++ (b'=' ∷ c)) plain_a in
    let (inner, _, _) = at_sign b c plain_b in
    let one : count_equals (a ++ (b'=' ∷ b)) ≡ 1 = omega (arith, count, count_plain b plain_b) in
    let many : nat_beq (count_equals (a ++ (b'=' ∷ (b ++ (b'=' ∷ c))))) 1 ≡ false =
      ground (arith, count2, inner) in
    let two : ltb 1 (count_equals (a ++ (b'=' ∷ (b ++ (b'=' ∷ c))))) ≡ true =
      ground (arith, count2, inner) in
    (rw (count_plain a plain_a) refl, rw (one, before, behind) refl, rw (many, two) refl)

after_flags :
    (flags args : List Bytes)
    → All (λ a. is_daemon_flag a ≡ true) flags
    → without_daemon (flags ++ args) ≡ without_daemon args
unfolding without_daemon
after_flags [] args all = refl
after_flags (flag ∷ flags) args (is_flag, all) = rw is_flag (after_flags flags args all)

-- The daemon never gets the first argument that is no daemon flag, behind the program name and any
-- daemon flags: any other such argument in its place gives the same arguments.
pub split_args-trim_daemon :
    (name first other : Bytes) (flags args : List Bytes)
    → All (λ a. is_daemon_flag a ≡ true) flags
    → is_daemon_flag first ≡ false
    → is_daemon_flag other ≡ false
    → split_args (trim_daemon (name ∷ (flags ++ (first ∷ args))))
      ≡ split_args (trim_daemon (name ∷ (flags ++ (other ∷ args))))
unfolding split_args trim_daemon without_daemon
split_args-trim_daemon name first other flags args all a b =
    rw (after_flags flags (first ∷ args) all, after_flags flags (other ∷ args) all, a, b) refl

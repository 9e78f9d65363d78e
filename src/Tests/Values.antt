-- ===== src/Tests/Values.antt =====
-- The value types and the options at concrete inputs.
use wiredkv.Prelude.{
  ℕ, ◌≡◌, ◌↔◌, refl, arith, [], ◌∷◌, Option, some, ok, Bool, true, false, nat_beq, nat_beq_iff,
  replicate,
}
use wiredkv.Prelude.Bytes.{Bytes}
use wiredkv.Prelude.Int.{pos}
use wiredkv.Utils.{daemon_flag, is_daemon_flag, trim_daemon, split_args, split_arg}
use wiredkv.Utils.Arguments.{IsPlain, split_arg_lem, split_args-trim_daemon}
use wiredkv.Types.Table
use wiredkv.Types.Table.Search.{IsIn, search_item-finds}
use wiredkv.Types.AnyList
use wiredkv.Conf.{ServerOptions, validated, IsAcceptable, validated-IsAcceptable}

abbrev a : Bytes
a = b'a' ∷ []

abbrev numbers : AnyList.AnyList ℕ
numbers = record { list = 4 ∷ 5 ∷ 4 ∷ 6 ∷ []; ttl = 0 }

nat_test : ℕ → ℕ → Option Bool
nat_test m n = some (nat_beq m n)

nat_test-Decides : AnyList.Decides nat_test
unfolding nat_test
nat_test-Decides = record {
  same = λ m n e. ground (arith, nat_beq_iff m n);
  different = λ m n e p. ground (arith, nat_beq_iff m n);
}

remove-Without_example : AnyList.Without {A = ℕ} 4 (4 ∷ 5 ∷ 4 ∷ 6 ∷ []) (5 ∷ 4 ∷ 6 ∷ [])
unfolding nat_test AnyList.remove AnyList.remove_first
remove-Without_example =
    AnyList.remove-Without nat_test nat_test-Decides 4 numbers
      (record { list = 5 ∷ 4 ∷ 6 ∷ []; ttl = 0 }) refl

abbrev options : ServerOptions
options = record {
  port = pos 2668;
  path = b'/' ∷ [];
  debug = false;
  log_path = [];
  password = b'p' ∷ [];
  region = record { enable = true; second = pos 60; threshold = 3 };
  encryptor = record { enable = true; secret = replicate 16 b's' };
  compressor_enable = false;
  allow_ip = [];
}

validated-IsAcceptable_example : (validated options ≡ ok tt) ↔ IsAcceptable options
validated-IsAcceptable_example = validated-IsAcceptable options

a-IsPlain : IsPlain a
a-IsPlain = (λ e. omega (arith, e), tt)

split_arg_lem_example :
    (split_arg a ≡ a ∷ [])
    × (split_arg (b'a' ∷ b'=' ∷ b'a' ∷ []) ≡ a ∷ a ∷ [])
    × (split_arg (b'a' ∷ b'=' ∷ b'a' ∷ b'=' ∷ b'a' ∷ []) ≡ [])
split_arg_lem_example = split_arg_lem a a a a-IsPlain a-IsPlain

split_args-trim_daemon_example :
    split_args (trim_daemon (a ∷ daemon_flag ∷ a ∷ daemon_flag ∷ []))
    ≡ split_args (trim_daemon (a ∷ daemon_flag ∷ (7 ∷ []) ∷ daemon_flag ∷ []))
unfolding is_daemon_flag
split_args-trim_daemon_example =
    split_args-trim_daemon a a (7 ∷ []) (daemon_flag ∷ []) (daemon_flag ∷ []) (refl, tt) refl refl

abbrev inner : Table.Entries
inner = Table.entry a (Table.other 5) Table.no_entries

abbrev outer : Table.Table
outer = record { table = Table.entry (7 ∷ []) (Table.nested inner) Table.no_entries; ttl = 0 }

search_item-finds_example : IsIn (Table.other 5) (Table.search_item a outer)
unfolding Table.entry_at
search_item-finds_example = search_item-finds ((7 ∷ []) ∷ []) a (Table.other 5) outer refl

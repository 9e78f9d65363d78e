-- ===== src/Types/Set.antt =====
-- types/set.go: a set of strings as a Go map to bool. ToBSON calls another package.
use wiredkv.Prelude.{
  ℕ, ◌+◌, ◌≡◌, arith, Bool, true, false, [], Option, none, some, if◌then◌else◌, length, list_eq,
  ◌==◌,
}
use wiredkv.Prelude.Bytes.{Bytes}
use wiredkv.Prelude.Map.{Map, lookup, insert, delete, lookup-insert, lookup-delete, length-insert}

pub record Set : Type 0 where
  pub set : Map Bytes Bool
  pub ttl : ℕ

abbrev pub new_set : Set
new_set = record { set = []; ttl = 0 }

unfoldable pub add : Bytes → Set → Set
add value s = record s { set = insert value true s.set }

abbrev or_false : Option Bool → Bool
or_false none = false
or_false (some b) = b

-- A missing key reads as false.
unfoldable pub contains : Bytes → Set → Bool
contains value s = or_false (lookup value s.set)

unfoldable pub remove : Bytes → Set → Set
remove value s = record s { set = delete value s.set }

unfoldable pub size : Set → ℕ
size s = length s.set

unfoldable pub clear : Set → Set
clear s = record { set = []; ttl = 0 }

-- After an addition the value is contained, and all others as before.
pub contains-add :
    (v u : Bytes) (s : Set) → contains u (add v s) ≡ (if v == u then true else contains u s)
unfolding contains add
contains-add v u s = rw lookup-insert (ground arith)

-- After a removal the value is not contained, and all others as before.
pub contains-remove :
    (v u : Bytes) (s : Set) → contains u (remove v s) ≡ (if v == u then false else contains u s)
unfolding contains remove
contains-remove v u s = rw lookup-delete (ground arith)

-- An addition counts a value once.
pub size-add :
    (v : Bytes) (s : Set)
    → size (add v s) ≡ (elim (lookup v s.set) [ none ↦ size s + 1 | some b ↦ size s ])
unfolding size add
size-add v s = length-insert v true s.set

-- ===== src/Types/Table.antt =====
-- types/table.go: a table of values of any type by keys, with a search that goes into nested
-- tables. ToBSON calls another package.
pub mod Search
use wiredkv.Prelude.{
  ℕ, zero, suc, ◌+◌, ◌≡◌, refl, sym, ap, ◌∙◌, arith, Bool, true, false, List, [], ◌∷◌, ◌++◌, Option,
  none, some, ◌==◌, list_eq, if◌then◌else◌, list_beq_iff, Bool-cases, inl, inr,
}
use wiredkv.Prelude.Bytes.{Bytes}

-- An interface value: nil, a map[string]any, or anything else, of which only the identity matters.
-- The entries of a map stand in the order in which `range` takes them.
mutual
  pub data Value : Type 0 where
    nil : Value
    other : ℕ → Value
    nested : Entries → Value

  pub data Entries : Type 0 where
    no_entries : Entries
    entry : Bytes → Value → Entries → Entries

pub record Table : Type 0 where
  pub table : Entries
  pub ttl : ℕ

unfoldable pub entry_at : Bytes → Entries → Option Value
entry_at key no_entries = none
entry_at key (entry k v m) = let rest = entry_at key m in if k == key then some v else rest

unfoldable pub set_entry : Bytes → Value → Entries → Entries
set_entry key value no_entries = entry key value no_entries
set_entry key value (entry k v m) =
    let rest = set_entry key value m in if k == key then entry key value m else entry k v rest

unfoldable pub drop_entry : Bytes → Entries → Entries
drop_entry key no_entries = no_entries
drop_entry key (entry k v m) =
    let rest = drop_entry key m in if k == key then rest else entry k v rest

unfoldable pub count_entries : Entries → ℕ
count_entries no_entries = 0
count_entries (entry k v m) = suc (count_entries m)

abbrev pub new_table : Table
new_table = record { table = no_entries; ttl = 0 }

unfoldable pub clear : Table → Table
clear tab = record { table = no_entries; ttl = 0 }

unfoldable pub add_item : Bytes → Value → Table → Table
add_item key value tab = record tab { table = set_entry key value tab.table }

unfoldable pub remove_item : Bytes → Table → Table
remove_item key tab = record tab { table = drop_entry key tab.table }

abbrev is_present : Option Value → Bool
is_present none = false
is_present (some v) = true

unfoldable pub contains_key : Bytes → Table → Bool
contains_key key tab = is_present (entry_at key tab.table)

abbrev or_nil : Option Value → Value
or_nil none = nil
or_nil (some v) = v

unfoldable pub get_item : Bytes → Table → Value
get_item key tab = or_nil (entry_at key tab.table)

abbrev own_item : Option Value → List Value
own_item none = []
own_item (some v) = v ∷ []

-- What searchInMap finds in the nested values of a map, one value after the other.
unfoldable mutual
  pub search_value : Bytes → Value → List Value
  search_value key nil = []
  search_value key (other n) = []
  search_value key (nested m) = own_item (entry_at key m) ++ search_values key m

  pub search_values : Bytes → Entries → List Value
  search_values key no_entries = []
  search_values key (entry k v m) = search_value key v ++ search_values key m

unfoldable pub search_in_map : Entries → Bytes → List Value
search_in_map m key = own_item (entry_at key m) ++ search_values key m

unfoldable pub search_item : Bytes → Table → List Value
search_item key tab = own_item (entry_at key tab.table) ++ search_values key tab.table

unfoldable pub size : Table → ℕ
size tab = count_entries tab.table

entry_at-set_entry :
    (k j : Bytes) (v : Value) (m : Entries)
    → entry_at j (set_entry k v m) ≡ (if k == j then some v else entry_at j m)
unfolding entry_at set_entry
entry_at-set_entry k j v no_entries = refl
entry_at-set_entry k j v (entry i w m) =
    ground (arith, list_beq_iff k j, list_beq_iff i k, list_beq_iff i j, entry_at-set_entry k j v m)

entry_at-drop_entry :
    (k j : Bytes) (m : Entries)
    → entry_at j (drop_entry k m) ≡ (if k == j then none else entry_at j m)
unfolding entry_at drop_entry
entry_at-drop_entry k j no_entries = ground arith
entry_at-drop_entry k j (entry i w m) =
    ground (arith, list_beq_iff k j, list_beq_iff i k, list_beq_iff i j, entry_at-drop_entry k j m)

-- After an item is added its key has that value, and after one is removed its key has nil and is
-- not contained; any other key has the value that it had.
pub get_item-items :
    (k j : Bytes) (v : Value) (tab : Table)
    → (get_item j (add_item k v tab) ≡ (if k == j then v else get_item j tab))
      × (get_item j (remove_item k tab) ≡ (if k == j then nil else get_item j tab))
      × (contains_key j (remove_item k tab) ≡ (if k == j then false else contains_key j tab))
unfolding get_item add_item remove_item contains_key
get_item-items k j v tab = (
  rw entry_at-set_entry (ground arith),
  rw entry_at-drop_entry (ground arith),
  rw entry_at-drop_entry (ground arith),
)

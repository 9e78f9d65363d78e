-- ===== src/Types/Table/Search.antt =====
-- The search of a table reaches every depth.
use mathlib.Core.List.{append_assoc}
use wiredkv.Prelude.{
  ◌≡◌, refl, sym, ap, ◌∙◌, arith, List, [], ◌∷◌, ◌++◌, Option, none, some, ◌==◌, list_eq,
  Bool-cases, inl, inr,
}
use wiredkv.Prelude.Bytes.{Bytes}
use wiredkv.Types.Table.{
  Value, nil, other, nested, Entries, no_entries, entry, Table, entry_at, own_item, search_value,
  search_values, search_item,
}

abbrev pub IsIn : Value → List Value → Type 0
IsIn v l = (pre post : List Value) × (l ≡ pre ++ (v ∷ post))

IsIn-append_left : (v : Value) (l m : List Value) → IsIn v l → IsIn v (l ++ m)
IsIn-append_left v l m (pre, post, e) =
    (pre, post ++ m, ap (λ x. x ++ m) e ∙ append_assoc pre (v ∷ post) m)

IsIn-append_right : (v : Value) (l m : List Value) → IsIn v m → IsIn v (l ++ m)
IsIn-append_right v l m (pre, post, e) =
    (l ++ pre, post, ap (λ x. l ++ x) e ∙ sym (append_assoc l pre (v ∷ post)))

abbrev pub step_into : (Entries → Option Value) → Option Value → Option Value
step_into f none = none
step_into f (some nil) = none
step_into f (some (other n)) = none
step_into f (some (nested m)) = f m

-- The value of the key in the table that a path of keys leads to.
abbrev pub value_at : List Bytes → Bytes → Entries → Option Value
value_at [] key m = entry_at key m
value_at (k ∷ path) key m = step_into (value_at path key) (entry_at k m)

IsIn-search_values :
    (key k : Bytes) (v w : Value) (m : Entries)
    → entry_at k m ≡ some w
    → IsIn v (search_value key w)
    → IsIn v (search_values key m)
unfolding entry_at search_values
IsIn-search_values key k v w no_entries e h = cc
IsIn-search_values key k v w (entry i u m) e h =
    let rest = IsIn-search_values key k v w m in
    elim (Bool-cases (i == k)) [
      | inl here ↦
          let same : u ≡ w = ground (arith, e, here) in
          rw same (IsIn-append_left v (search_value key w) (search_values key m) h)
      | inr later ↦
          IsIn-append_right v (search_value key u) (search_values key m)
            (rest (ground (arith, e, later)) h)
    ]

through :
    (path : List Bytes) (key k : Bytes) (v : Value) (m : Entries) (o : Option Value)
    → ((inner : Entries)
        → value_at path key inner ≡ some v
        → IsIn v (own_item (entry_at key inner) ++ search_values key inner))
    → entry_at k m ≡ o
    → step_into (value_at path key) o ≡ some v
    → IsIn v (search_values key m)
unfolding search_value
through path key k v m none below p q = cc
through path key k v m (some nil) below p q = cc
through path key k v m (some (other n)) below p q = cc
through path key k v m (some (nested inner)) below p q =
    IsIn-search_values key k v (nested inner) m p (below inner q)

found :
    (path : List Bytes) (key : Bytes) (v : Value) (m : Entries)
    → value_at path key m ≡ some v
    → IsIn v (own_item (entry_at key m) ++ search_values key m)
found [] key v m e = ([], search_values key m, rw e)
found (k ∷ path) key v m e =
    IsIn-append_right v (own_item (entry_at key m)) (search_values key m)
      (through path key k v m (entry_at k m) (found path key v) refl e)

-- A search finds the value of its key in every table that a path of keys leads to, at any depth.
pub search_item-finds :
    (path : List Bytes) (key : Bytes) (v : Value) (tab : Table)
    → value_at path key tab.table ≡ some v
    → IsIn v (search_item key tab)
unfolding search_item
search_item-finds path key v tab e = found path key v tab.table e

-- ===== src/Types/AnyList.antt =====
-- types/list.go: a list of values of any type. ToBSON calls another package.
use mathlib.Core.Path.{subst}
use wiredkv.Prelude.{
  ℕ, zero, suc, ◌+◌, ◌-◌, ◌<◌, ◌≤◌, ◌≡◌, ◌≢◌, refl, sym, ap, arith, Bool, true, false, ◌&&◌, List,
  [], ◌∷◌, ◌++◌, Option, none, some, if◌then◌else◌, nat_beq, if◌then◌else◌, Result, ok, err,
  map_result, out_of_bounds, item_not_found, panicked, length, get_elem?, take, drop, length-append,
  take-nil, All,
}
use wiredkv.Prelude.Int.{ℤ, pos, negsuc, leb_ℤ}

pub record AnyList (A : Type 0) : Type 0 where
  pub list : List A
  pub ttl : ℕ

module _ {A : Type 0} where
  unfoldable pub new_list : AnyList A
  new_list = record { list = []; ttl = 0 }

  unfoldable pub add_item : A → AnyList A → AnyList A
  add_item item ls = record ls { list = ls.list ++ (item ∷ []) }

  unfoldable pub r_push : A → AnyList A → AnyList A
  r_push item ls = record ls { list = ls.list ++ (item ∷ []) }

  unfoldable pub l_push : A → AnyList A → AnyList A
  l_push item ls = record ls { list = item ∷ ls.list }

  abbrev or_out_of_bounds : Option A → Result A
  or_out_of_bounds none = err out_of_bounds
  or_out_of_bounds (some a) = ok a

  -- A negative index, or one from the length on, is an error.
  unfoldable pub get_item : ℤ → AnyList A → Result A
  get_item (pos i) ls = or_out_of_bounds (get_elem? ls.list i)
  get_item (negsuc i) ls = err out_of_bounds

  -- `i` is the index of the first item.
  unfoldable pub range_from : ℕ → ℤ → ℤ → List A → List A
  range_from i start end [] = []
  range_from i start end (v ∷ vs) =
      let rest = range_from (i + 1) start end vs in
      if leb_ℤ start (pos i) && leb_ℤ (pos i) end then v ∷ rest else rest

  -- Rnage, which has no error.
  unfoldable pub rnage : ℤ → ℤ → AnyList A → Result (List A)
  rnage start end ls = ok (range_from 0 start end ls.list)

  unfoldable pub size : AnyList A → ℕ
  size ls = length ls.list

  unfoldable pub clear : AnyList A → AnyList A
  clear ls = record { list = []; ttl = 0 }

  -- `v == item` on interface values: `none` is the panic at values of one type that Go cannot
  -- compare, such as two maps.
  module _ (equal : A → A → Option Bool) where
    abbrev removed : Option Bool → A → List A → Result (List A) → Result (List A)
    removed none v vs rest = err panicked
    removed (some true) v vs rest = ok vs
    removed (some false) v vs rest = map_result (◌∷◌ v) rest

    unfoldable pub remove_first : A → List A → Result (List A)
    remove_first item [] = err item_not_found
    remove_first item (v ∷ vs) = removed (equal v item) v vs (remove_first item vs)

    unfoldable pub remove : A → AnyList A → Result (AnyList A)
    remove item ls = map_result (λ l. record ls { list = l }) (remove_first item ls.list)

  -- Pushes at the two ends: the items, by their indices.
  pub get_item-l_push :
      (a : A) (ls : AnyList A) (i : ℕ)
      → (get_item (pos 0) (l_push a ls) ≡ ok a)
        × (get_item (pos (suc i)) (l_push a ls) ≡ get_item (pos i) ls)
  unfolding get_item l_push
  get_item-l_push a ls i = (refl, refl)

  elem_append :
      (a : A) (l : List A) (i : ℕ)
      → get_elem? (l ++ (a ∷ [])) i ≡ (if nat_beq (length l) i then some a else get_elem? l i)
  elem_append a [] zero = refl
  elem_append a [] (suc i) = ground arith
  elem_append a (x ∷ l) zero = ground arith
  elem_append a (x ∷ l) (suc i) = ground (arith, elem_append a l i)

  -- A push at the right end adds the item at the old length and changes no other index, in range or
  -- not; and it makes the list one longer.
  pub get_item-r_push :
      (a : A) (ls : AnyList A) (i : ℕ)
      → (get_item (pos i) (r_push a ls)
          ≡ (if nat_beq (size ls) i then ok a else get_item (pos i) ls))
        × (size (r_push a ls) ≡ size ls + 1)
  unfolding get_item r_push size
  get_item-r_push a ls i =
      (rw (elem_append a ls.list i) (ground arith), omega (arith, length-append ls.list (a ∷ [])))

  after_end : (i lo hi : ℕ) (l : List A) → hi < i → range_from i (pos lo) (pos hi) l ≡ []
  unfolding range_from
  after_end i lo hi [] h = refl
  after_end i lo hi (x ∷ l) h = ground (arith, after_end (i + 1) lo hi l (omega arith))

  within :
      (k i lo hi : ℕ) (l : List A)
      → lo ≤ i
      → i + k ≡ hi + 1
      → range_from i (pos lo) (pos hi) l ≡ take k l
  unfolding range_from
  within zero i lo hi [] h e = refl
  within zero i lo hi (x ∷ l) h e = ground (arith, after_end (i + 1) lo hi l (omega arith))
  within (suc k) i lo hi [] h e = refl
  within (suc k) i lo hi (x ∷ l) h e =
      ground (arith, within k (i + 1) lo hi l (omega arith) (omega arith))

  before_start :
      (d i lo hi : ℕ) (l : List A)
      → i + d ≡ lo
      → lo ≤ hi
      → range_from i (pos lo) (pos hi) l ≡ take (hi + 1 - lo) (drop d l)
  unfolding range_from
  before_start zero i lo hi l e h = within (hi + 1 - lo) i lo hi l (omega arith) (omega arith)
  before_start (suc d) i lo hi [] e h = sym (take-nil (hi + 1 - lo))
  before_start (suc d) i lo hi (x ∷ l) e h =
      ground (arith, before_start d (i + 1) lo hi l (omega arith) h)

  -- For indices in order and not negative, the range is that part of the list, both ends included.
  pub rnage_lem :
      (lo hi : ℕ) (ls : AnyList A)
      → lo ≤ hi
      → rnage (pos lo) (pos hi) ls ≡ ok (take (hi + 1 - lo) (drop lo ls.list))
  unfolding rnage
  rnage_lem lo hi ls h = ap ok (before_start lo 0 lo hi ls.list (omega arith) h)

-- The comparison answers for equality where it does not panic.
pub record Decides {A : Type 0} (equal : A → A → Option Bool) : Type 0 where
  pub same : (a b : A) → equal a b ≡ some true → a ≡ b
  pub different : (a b : A) → equal a b ≡ some false → a ≢ b

-- `l` without its first `item`.
pub record Without {A : Type 0} (item : A) (l result : List A) : Type 0 where
  pub pre : List A
  pub post : List A
  pub before : l ≡ pre ++ (item ∷ post)
  pub after : result ≡ pre ++ post
  pub first : All (λ a. a ≢ item) pre

module _ {A : Type 0} (equal : A → A → Option Bool) (d : Decides equal) where
  Without-cons :
      (item v : A) (l result : List A)
      → v ≢ item
      → Without item l result
      → Without item (v ∷ l) (v ∷ result)
  Without-cons item v l result ne w = record {
    pre = v ∷ w.pre;
    post = w.post;
    before = ap (◌∷◌ v) w.before;
    after = ap (◌∷◌ v) w.after;
    first = (ne, w.first);
  }

  removed_split :
      (item v : A) (vs result : List A) (test : Option Bool) (rest : Result (List A))
      → equal v item ≡ test
      → ((r : List A) → rest ≡ ok r → Without item vs r)
      → removed equal test v vs rest ≡ ok result
      → Without item (v ∷ vs) result
  removed_split item v vs result none rest e ih h = cc
  removed_split item v vs result (some true) rest e ih h = record {
    pre = [];
    post = vs;
    before = ap (λ x. x ∷ vs) (d.same v item e);
    after = cc;
    first = tt;
  }
  removed_split item v vs result (some false) (err x) e ih h = cc
  removed_split item v vs result (some false) (ok r) e ih h =
      let out : v ∷ r ≡ result = cc in
      subst (Without item (v ∷ vs)) out
        (Without-cons item v vs r (d.different v item e) (ih r refl))

  remove_first-Without :
      (item : A) (l result : List A) → remove_first equal item l ≡ ok result → Without item l result
  unfolding remove_first
  remove_first-Without item [] result h = cc
  remove_first-Without item (v ∷ vs) result h =
      removed_split item v vs result (equal v item) (remove_first equal item vs) refl
        (remove_first-Without item vs) h

  -- A removal that succeeds takes out the first item that equals the given one, and nothing else.
  pub remove-Without :
      (item : A) (ls result : AnyList A)
      → remove equal item ls ≡ ok result
      → Without item ls.list result.list
  unfolding remove
  remove-Without item ls result h = go (remove_first equal item ls.list) refl h
    where
      go :
          (r : Result (List A))
          → remove_first equal item ls.list ≡ r
          → map_result (λ l. record ls { list = l }) r ≡ ok result
          → Without item ls.list result.list
      go (err x) e p = cc
      go (ok r) e p =
          let out : r ≡ result.list = ground arith in
          subst (Without item ls.list) out (remove_first-Without item ls.list r e)

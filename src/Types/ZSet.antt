-- ===== src/Types/ZSet.antt =====
-- types/zset.go: a map from strings to scores, with the strings in descending order of their scores.
-- Scores are float64 values, of which only the comparisons are used. ToBSON calls another package.
pub mod Ranking
pub mod Ranked
use wiredkv.Prelude.{
  ℕ, zero, suc, ◌+◌, ◌++◌, Bool, true, false, ◌&&◌, List, [], ◌∷◌, Option, none, some,
  if◌then◌else◌, length, list_eq, ◌==◌,
}
use wiredkv.Prelude.Bytes.{Bytes}
use wiredkv.Prelude.Int.{ℤ, pos, negsuc}
use wiredkv.Prelude.Map.{Map, lookup, insert, delete}

pub record ZSet (Score : Type 0) : Type 0 where
  pub zset : Map Bytes Score
  pub ttl : ℕ
  pub sorted_scores : List Bytes

-- a > b and a >= b on float64, and its zero.
pub record Scores (Score : Type 0) : Type 0 where
  pub gt : Score → Score → Bool
  pub ge : Score → Score → Bool
  pub zero_score : Score

abbrev pub new_zset : {Score : Type 0} → ZSet Score
new_zset = record { zset = []; ttl = 0; sorted_scores = [] }

abbrev pub is_some : {A : Type 0} → Option A → Bool
is_some none = false
is_some (some a) = true

-- The first place of a string.
abbrev pub place_from : ℕ → Bytes → List Bytes → Option ℕ
place_from i value [] = none
place_from i value (v ∷ vs) =
    let rest = place_from (suc i) value vs in if v == value then some i else rest

abbrev pub remove_first : Bytes → List Bytes → List Bytes
remove_first value [] = []
remove_first value (v ∷ vs) =
    let rest = remove_first value vs in if v == value then vs else v ∷ rest

abbrev pub rank_of : Option ℕ → ℤ × Bool
rank_of none = (negsuc 0, false)
rank_of (some i) = (pos i, true)

module _ {Score : Type 0} (o : Scores Score) where
  abbrev pub or_zero : Option Score → Score
  or_zero none = o.zero_score
  or_zero (some s) = s

  abbrev pub score_in : Map Bytes Score → Bytes → Score
  score_in m v = or_zero (lookup v m)

  unfoldable pub insert_value : (Bytes → Score) → Bytes → List Bytes → List Bytes
  insert_value score v [] = v ∷ []
  insert_value score v (w ∷ ws) =
      let rest = insert_value score v ws in
      if o.gt (score w) (score v) then w ∷ rest else v ∷ w ∷ ws

  -- sort.Slice, with equal scores kept in their order, which it does not promise.
  unfoldable pub sort_values : (Bytes → Score) → List Bytes → List Bytes
  sort_values score [] = []
  sort_values score (v ∷ vs) = insert_value score v (sort_values score vs)

  unfoldable pub sort : ZSet Score → ZSet Score
  sort z = record z { sorted_scores = sort_values (score_in z.zset) z.sorted_scores }

  abbrev pub without : Bytes → ZSet Score → ZSet Score
  without value z = record z {
    zset = delete value z.zset;
    sorted_scores = remove_first value z.sorted_scores;
  }

  unfoldable pub remove : Bytes → ZSet Score → ZSet Score
  remove value z = sort (if is_some (lookup value z.zset) then without value z else z)

  abbrev pub with_value : Bytes → Score → ZSet Score → ZSet Score
  with_value value score z = record z {
    zset = insert value score z.zset;
    sorted_scores = z.sorted_scores ++ (value ∷ []);
  }

  unfoldable pub add : Bytes → Score → ZSet Score → ZSet Score
  add value score z =
      sort (with_value value score (if is_some (lookup value z.zset) then remove value z else z))

  unfoldable pub get : Bytes → ZSet Score → Option Score
  get value z = lookup value z.zset

  -- The two results, and the set, whose list is sorted first.
  unfoldable pub get_rank : Bytes → ZSet Score → (ℤ × Bool) × ZSet Score
  get_rank value z =
      let sorted = sort z in (rank_of (place_from 0 value sorted.sorted_scores), sorted)

  abbrev pub is_between : Score → Score → Option Score → Bool
  is_between lowest highest none = false
  is_between lowest highest (some s) = o.ge s lowest && o.ge highest s

  abbrev pub values_between : Score → Score → Map Bytes Score → List Bytes → List Bytes
  values_between lowest highest m [] = []
  values_between lowest highest m (v ∷ vs) =
      let rest = values_between lowest highest m vs in
      if is_between lowest highest (lookup v m) then v ∷ rest else rest

  unfoldable pub get_range : Score → Score → ZSet Score → List Bytes × ZSet Score
  get_range lowest highest z =
      let sorted = sort z in
      (values_between lowest highest sorted.zset sorted.sorted_scores, sorted)

  unfoldable pub size : ZSet Score → ℕ
  size z = length z.zset

  unfoldable pub clear : ZSet Score → ZSet Score
  clear z = record { zset = []; ttl = 0; sorted_scores = [] }

-- ===== src/Types/ZSet/Ranked.antt =====
-- A sorted set that was made by its operations lists its strings, each once, by descending scores.
use wiredkv.Prelude.{
  ◌≡◌, refl, sym, ap, ◌∙◌, Bool, true, false, ◌&&◌, ◌||◌, List, [], ◌∷◌, Option, none, some,
  list_eq, ◌==◌, ==→≡, ==-self, All, arith, ◌↔◌, Bool-cases, inl, inr,
}
use wiredkv.Prelude.Bytes.{Bytes}
use wiredkv.Prelude.Map.{Map, lookup, lookup-insert, lookup-delete}
use wiredkv.Types.ZSet.{
  ZSet, Scores, is_some, score_in, sort, sort_values, without, remove, with_value, add, get_rank,
  get_range, is_between, values_between, clear,
}
use wiredkv.Types.ZSet.Ranking.{
  has, IsDistinct, IsOrder, IsDescending, has-sort_values, sort_values-IsDistinct,
  sort_values-IsDescending, has-remove_first, remove_first-IsDistinct, has-append,
  append-IsDistinct, and_false,
}

pub record IsRanked {Score : Type 0} (o : Scores Score) (z : ZSet Score) : Type 0 where
  pub descending : IsDescending o (score_in o z.zset) z.sorted_scores
  pub distinct : IsDistinct z.sorted_scores
  pub listed : (x : Bytes) → has x z.sorted_scores ≡ is_some (lookup x z.zset)

pub data Operation (Score : Type 0) : Type 0 where
  adding : Bytes → Score → Operation Score
  removing ranking : Bytes → Operation Score
  ranging : Score → Score → Operation Score
  clearing : Operation Score

module _ {Score : Type 0} (o : Scores Score) (order : IsOrder o) where
  abbrev pub operate : Operation Score → ZSet Score → ZSet Score
  operate (adding value score) z = add o value score z
  operate (removing value) z = remove o value z
  operate (ranking value) z = (get_rank o value z).1
  operate (ranging lowest highest) z = (get_range o lowest highest z).1
  operate clearing z = clear o z

  sort-IsRanked :
      (z : ZSet Score)
      → IsDistinct z.sorted_scores
      → ((x : Bytes) → has x z.sorted_scores ≡ is_some (lookup x z.zset))
      → IsRanked o (sort o z)
  unfolding sort
  sort-IsRanked z distinct listed = record {
    descending = sort_values-IsDescending o (score_in o z.zset) order z.sorted_scores;
    distinct = sort_values-IsDistinct o (score_in o z.zset) z.sorted_scores distinct;
    listed = λ x. has-sort_values o (score_in o z.zset) x z.sorted_scores ∙ listed x;
  }

  without_listed :
      (value : Bytes) (z : ZSet Score)
      → IsRanked o z
      → (x : Bytes)
      → has x (without o value z).sorted_scores ≡ is_some (lookup x (without o value z).zset)
  without_listed value z r x =
      has-remove_first x value z.sorted_scores r.distinct
      ∙ rw (lookup-delete value x z.zset, r.listed x)
          (elim (Bool-cases (value == x)) [ inl same ↦ rw same refl | inr other ↦ rw other refl ])

  remove-IsRanked : (value : Bytes) (z : ZSet Score) → IsRanked o z → IsRanked o (remove o value z)
  unfolding remove
  remove-IsRanked value z r = elim (Bool-cases (is_some (lookup value z.zset))) [
    | inl there ↦ rw there (
        sort-IsRanked (without o value z) (remove_first-IsDistinct value z.sorted_scores r.distinct)
          (without_listed value z r))
    | inr absent ↦ rw absent (sort-IsRanked z r.distinct r.listed)
  ]

  with_value_listed :
      (value : Bytes) (score : Score) (z : ZSet Score)
      → IsRanked o z
      → (x : Bytes)
      → has x (with_value o value score z).sorted_scores
        ≡ is_some (lookup x (with_value o value score z).zset)
  with_value_listed value score z r x =
      has-append x value z.sorted_scores
      ∙ rw (lookup-insert value x score z.zset, r.listed x)
          (elim (Bool-cases (value == x)) [
            | inl same ↦ rw same (or_true (is_some (lookup x z.zset)))
            | inr other ↦ rw other (or_false (is_some (lookup x z.zset)))
          ])
    where
      or_true : (a : Bool) → (a || true) ≡ true
      or_true true = refl
      or_true false = refl

      or_false : (a : Bool) → (a || false) ≡ a
      or_false true = refl
      or_false false = refl

  with_value-IsRanked :
      (value : Bytes) (score : Score) (z : ZSet Score)
      → IsRanked o z
      → is_some (lookup value z.zset) ≡ false
      → IsRanked o (sort o (with_value o value score z))
  with_value-IsRanked value score z r absent =
      sort-IsRanked (with_value o value score z)
        (append-IsDistinct value z.sorted_scores (r.listed value ∙ absent) r.distinct)
        (with_value_listed value score z r)

  removed :
      (value : Bytes) (z : ZSet Score)
      → is_some (lookup value z.zset) ≡ true
      → is_some (lookup value (remove o value z).zset) ≡ false
  unfolding remove sort
  removed value z there =
      rw there (ap is_some (lookup-delete value value z.zset) ∙ rw (==-self value) refl)

  add-IsRanked :
      (value : Bytes) (score : Score) (z : ZSet Score)
      → IsRanked o z
      → IsRanked o (add o value score z)
  unfolding add
  add-IsRanked value score z r = elim (Bool-cases (is_some (lookup value z.zset))) [
    | inl there ↦ rw there (
        with_value-IsRanked value score (remove o value z) (remove-IsRanked value z r)
          (removed value z there))
    | inr absent ↦ rw absent (with_value-IsRanked value score z r absent)
  ]

  -- Every operation keeps the list of strings in step with the scores: the list has the strings of the
  -- map, each once, in descending order of their scores, if the comparison orders all scores.
  pub operate-IsRanked :
      (c : Operation Score) (z : ZSet Score) → IsRanked o z → IsRanked o (operate c z)
  unfolding get_rank get_range clear lookup
  operate-IsRanked (adding value score) z r = add-IsRanked value score z r
  operate-IsRanked (removing value) z r = remove-IsRanked value z r
  operate-IsRanked (ranking value) z r = sort-IsRanked z r.distinct r.listed
  operate-IsRanked (ranging lowest highest) z r = sort-IsRanked z r.distinct r.listed
  operate-IsRanked clearing z r = record { descending = tt; distinct = tt; listed = λ x. refl }

  has-values_between :
      (lowest highest : Score) (m : Map Bytes Score) (x : Bytes) (l : List Bytes)
      → has x (values_between o lowest highest m l)
        ≡ (is_between o lowest highest (lookup x m) && has x l)
  has-values_between lowest highest m x [] =
      sym (and_false (is_between o lowest highest (lookup x m)))
  has-values_between lowest highest m x (v ∷ vs) =
      let rest = has-values_between lowest highest m x vs in
      let between = λ (y : Bytes). is_between o lowest highest (lookup y m) in
      elim (Bool-cases (v == x)) [
        | inl same ↦
            let e = ap between (==→≡ v x same) in
            elim (Bool-cases (is_between o lowest highest (lookup v m))) [
              | inl in_range ↦ rw (in_range, same, sym e ∙ in_range) refl
              | inr out ↦ rw (out, rest, sym e ∙ out) refl
            ]
        | inr other ↦ elim (Bool-cases (is_between o lowest highest (lookup v m))) [
          | inl in_range ↦ rw (in_range, other) rest
          | inr out ↦ rw (out, other) rest
        ]
      ]

  only_there :
      (lowest highest : Score) (s : Option Score)
      → (is_between o lowest highest s && is_some s) ≡ is_between o lowest highest s
  only_there lowest highest none = refl
  only_there lowest highest (some s) =
      elim (is_between o lowest highest (some s)) as (λ b. (b && true) ≡ b) [
        | true ↦ refl
        | false ↦ refl
      ]

  -- What stands behind a string in a range stood behind it in the list.
  All-values_between :
      (P : Bytes → Type 0) (lowest highest : Score) (m : Map Bytes Score) (l : List Bytes)
      → All P l
      → All P (values_between o lowest highest m l)
  All-values_between P lowest highest m [] all = tt
  All-values_between P lowest highest m (v ∷ vs) (p, all) =
      let rest = All-values_between P lowest highest m vs all in
      elim (Bool-cases (is_between o lowest highest (lookup v m))) [
        | inl in_range ↦ rw in_range (p, rest)
        | inr out ↦ rw out rest
      ]

  values_between-IsDescending :
      (lowest highest : Score) (m : Map Bytes Score) (score : Bytes → Score) (l : List Bytes)
      → IsDescending o score l
      → IsDescending o score (values_between o lowest highest m l)
  values_between-IsDescending lowest highest m score [] d = tt
  values_between-IsDescending lowest highest m score (v ∷ vs) (first, d) =
      let rest = values_between-IsDescending lowest highest m score vs d in
      let behind =
        All-values_between (λ w. o.gt (score w) (score v) ≡ false) lowest highest m vs first in
      elim (Bool-cases (is_between o lowest highest (lookup v m))) [
        | inl in_range ↦ rw in_range (behind, rest)
        | inr out ↦ rw out rest
      ]

  values_between-IsDistinct :
      (lowest highest : Score) (m : Map Bytes Score) (l : List Bytes)
      → IsDistinct l
      → IsDistinct (values_between o lowest highest m l)
  values_between-IsDistinct lowest highest m [] d = tt
  values_between-IsDistinct lowest highest m (v ∷ vs) (own, d) =
      let rest = values_between-IsDistinct lowest highest m vs d in
      elim (Bool-cases (is_between o lowest highest (lookup v m))) [
        | inl in_range ↦
            rw in_range (has-values_between lowest highest m v vs ∙ rw own (and_false _), rest)
        | inr out ↦ rw out rest
      ]

  between_exact :
      (lowest highest : Score) (s : Option Score)
      → (is_between o lowest highest s ≡ true) ↔ (
          (score : Score) × (s ≡ some score)
          × (o.ge score lowest ≡ true)
          × (o.ge highest score ≡ true))
  between_exact lowest highest none = (λ h. cc, λ (score, e, low, high). cc)
  between_exact lowest highest (some s) = (
    λ h. (s, refl, ground (arith, h), ground (arith, h)),
    λ (score, e, low, high). let same : s ≡ score = cc in rw same (ground (arith, low, high)),
  )

  -- A range of a sorted set has exactly the strings with a score that is at least the lower bound and
  -- at most the upper one, both included, each once, in descending order of their scores.
  pub get_range_lem :
      (lowest highest : Score) (z : ZSet Score)
      → IsRanked o z
      → ((x : Bytes)
          → (has x (get_range o lowest highest z).0 ≡ true) ↔ (
              (score : Score) × (lookup x z.zset ≡ some score)
              × (o.ge score lowest ≡ true)
              × (o.ge highest score ≡ true)))
        × IsDistinct (get_range o lowest highest z).0
        × IsDescending o (score_in o z.zset) (get_range o lowest highest z).0
  unfolding get_range sort
  get_range_lem lowest highest z r =
      let sorted = sort_values o (score_in o z.zset) z.sorted_scores in
      let found : (x : Bytes)
          → has x (values_between o lowest highest z.zset sorted)
            ≡ is_between o lowest highest (lookup x z.zset) =
        λ x.
          has-values_between lowest highest z.zset x sorted
          ∙ rw (has-sort_values o (score_in o z.zset) x z.sorted_scores, r.listed x)
              (only_there lowest highest (lookup x z.zset)) in
      (
        λ x.
            let (to, from) = between_exact lowest highest (lookup x z.zset) in
            (λ h. to (sym (found x) ∙ h), λ h. found x ∙ from h),
        values_between-IsDistinct lowest highest z.zset sorted
            (sort_values-IsDistinct o (score_in o z.zset) z.sorted_scores r.distinct),
        values_between-IsDescending lowest highest z.zset (score_in o z.zset) sorted
            (sort_values-IsDescending o (score_in o z.zset) order z.sorted_scores),
      )

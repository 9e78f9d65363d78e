-- ===== src/Types/ZSet/Ranking.antt =====
-- Sorting strings by their scores keeps the strings, each once, and puts them in descending order.
use wiredkv.Prelude.{
  ◌≡◌, refl, sym, ap, ◌∙◌, arith, ◌++◌, Bool, true, false, not, ◌&&◌, ◌||◌, List, [], ◌∷◌, list_eq,
  ◌==◌, list_beq_iff, ==→≡, All, Bool-cases, inl, inr,
}
use wiredkv.Prelude.Bytes.{Bytes}
use wiredkv.Types.ZSet.{Scores, insert_value, sort_values, remove_first}

abbrev pub has : Bytes → List Bytes → Bool
has x [] = false
has x (v ∷ vs) = v == x || has x vs

abbrev pub IsDistinct : List Bytes → Type 0
IsDistinct [] = Unit {0}
IsDistinct (v ∷ vs) = (has v vs ≡ false) × IsDistinct vs

-- A comparison that orders all scores, as float64 without NaN: what is not greater is less or equal,
-- and that is transitive.
pub record IsOrder {Score : Type 0} (o : Scores Score) : Type 0 where
  pub asymmetric : (a b : Score) → o.gt a b ≡ true → o.gt b a ≡ false
  pub transitive : (a b c : Score) → o.gt b a ≡ false → o.gt c b ≡ false → o.gt c a ≡ false

neither : (a b : Bool) → (a || b) ≡ false → (a ≡ false) × (b ≡ false)
neither true b p = cc
neither false b p = (refl, p)

==-sym_false : (v w : Bytes) → (v == w) ≡ false → (w == v) ≡ false
==-sym_false v w p = elim (Bool-cases (w == v)) [
  | inl same ↦ let q : (v == w) ≡ true = (list_beq_iff v w).1 (sym (==→≡ w v same)) in cc
  | inr other ↦ other
]

module _ {Score : Type 0} (o : Scores Score) (score : Bytes → Score) where
  -- Nothing stands behind a string with a smaller score.
  abbrev pub IsDescending : List Bytes → Type 0
  IsDescending [] = Unit {0}
  IsDescending (v ∷ vs) = All (λ w. o.gt (score w) (score v) ≡ false) vs × IsDescending vs

  has-insert_value :
      (x v : Bytes) (l : List Bytes) → has x (insert_value o score v l) ≡ (v == x || has x l)
  unfolding insert_value
  has-insert_value x v [] = refl
  has-insert_value x v (w ∷ ws) =
      let rest = has-insert_value x v ws in
      elim (Bool-cases (o.gt (score w) (score v))) [
        | inl behind ↦ rw (behind, rest) (swap (w == x) (v == x) (has x ws))
        | inr here ↦ rw here refl
      ]
    where
      swap : (a b c : Bool) → (a || (b || c)) ≡ (b || (a || c))
      swap true true c = refl
      swap true false c = refl
      swap false true c = refl
      swap false false c = refl

  pub has-sort_values : (x : Bytes) (l : List Bytes) → has x (sort_values o score l) ≡ has x l
  unfolding sort_values
  has-sort_values x [] = refl
  has-sort_values x (v ∷ vs) =
      has-insert_value x v (sort_values o score vs) ∙ rw (has-sort_values x vs) refl

  insert_value-IsDistinct :
      (v : Bytes) (l : List Bytes)
      → has v l ≡ false
      → IsDistinct l
      → IsDistinct (insert_value o score v l)
  unfolding insert_value
  insert_value-IsDistinct v [] fresh d = (refl, tt)
  insert_value-IsDistinct v (w ∷ ws) fresh (own, d) =
      let rest = insert_value-IsDistinct v ws in
      elim (Bool-cases (o.gt (score w) (score v))) [
        | inl behind ↦ rw behind (
          has-insert_value w v ws
              ∙ rw (own, ==-sym_false w v (neither (w == v) (has v ws) fresh).0) refl,
          rest (neither (w == v) (has v ws) fresh).1 d,
        )
        | inr here ↦ rw here (fresh, (own, d))
      ]

  pub sort_values-IsDistinct : (l : List Bytes) → IsDistinct l → IsDistinct (sort_values o score l)
  unfolding sort_values
  sort_values-IsDistinct [] d = tt
  sort_values-IsDistinct (v ∷ vs) (own, d) =
      insert_value-IsDistinct v (sort_values o score vs) (has-sort_values v vs ∙ own)
        (sort_values-IsDistinct vs d)

  module _ (order : IsOrder o) where
    insert_value-All :
        (P : Bytes → Type 0) (v : Bytes) (l : List Bytes)
        → P v
        → All P l
        → All P (insert_value o score v l)
    unfolding insert_value
    insert_value-All P v [] p a = (p, tt)
    insert_value-All P v (w ∷ ws) p (q, a) =
        let rest = insert_value-All P v ws p a in
        elim (Bool-cases (o.gt (score w) (score v))) [
          | inl behind ↦ rw behind (q, rest)
          | inr here ↦ rw here (p, (q, a))
        ]

    not_above :
        (v w : Bytes) (l : List Bytes)
        → o.gt (score w) (score v) ≡ false
        → All (λ u. o.gt (score u) (score w) ≡ false) l
        → All (λ u. o.gt (score u) (score v) ≡ false) l
    not_above v w [] p a = tt
    not_above v w (u ∷ l) p (q, a) =
        (order.transitive (score v) (score w) (score u) p q, not_above v w l p a)

    insert_value-IsDescending :
        (v : Bytes) (l : List Bytes) → IsDescending l → IsDescending (insert_value o score v l)
    unfolding insert_value
    insert_value-IsDescending v [] d = (tt, tt)
    insert_value-IsDescending v (w ∷ ws) (low, d) =
        let rest = insert_value-IsDescending v ws d in
        elim (Bool-cases (o.gt (score w) (score v))) [
          | inl behind ↦ rw behind (
            insert_value-All (λ u. o.gt (score u) (score w) ≡ false) v ws
                (order.asymmetric (score w) (score v) behind) low,
            rest,
          )
          | inr here ↦ rw here ((here, not_above v w ws here low), (low, d))
        ]

    pub sort_values-IsDescending : (l : List Bytes) → IsDescending (sort_values o score l)
    unfolding sort_values
    sort_values-IsDescending [] = tt
    sort_values-IsDescending (v ∷ vs) =
        insert_value-IsDescending v (sort_values o score vs) (sort_values-IsDescending vs)

pub and_false : (a : Bool) → (a && false) ≡ false
and_false true = refl
and_false false = refl

-- Removing a string from a list that holds it once at most.
pub has-remove_first :
    (x v : Bytes) (l : List Bytes)
    → IsDistinct l
    → has x (remove_first v l) ≡ (not (v == x) && has x l)
has-remove_first x v [] d = ground arith
has-remove_first x v (w ∷ ws) (own, d) =
    let rest = has-remove_first x v ws d in
    elim (Bool-cases (w == v)) [
      | inl found ↦
          let e : w ≡ v = ==→≡ w v found in
          rw (found, ← e)
            (elim (Bool-cases (w == x)) [
              | inl same ↦ let f : w ≡ x = ==→≡ w x same in rw (same, ← f) own
              | inr other ↦ rw other refl
            ])
      | inr apart ↦
          rw (apart, rest)
            (elim (Bool-cases (w == x)) [
              | inl same ↦
                  let f : w ≡ x = ==→≡ w x same in
                  let g : (v == x) ≡ false = ap (λ u. v == u) (sym f) ∙ ==-sym_false w v apart in
                  rw (same, g) refl
              | inr other ↦ rw other refl
            ])
    ]

pub remove_first-IsDistinct :
    (v : Bytes) (l : List Bytes) → IsDistinct l → IsDistinct (remove_first v l)
remove_first-IsDistinct v [] d = tt
remove_first-IsDistinct v (w ∷ ws) (own, d) =
    let rest = remove_first-IsDistinct v ws d in
    elim (Bool-cases (w == v)) [
      | inl found ↦ rw found d
      | inr apart ↦ rw apart (has-remove_first w v ws d ∙ rw own (and_false (not (v == w))), rest)
    ]

pub has-append : (x v : Bytes) (l : List Bytes) → has x (l ++ (v ∷ [])) ≡ (has x l || v == x)
has-append x v [] = elim (Bool-cases (v == x)) [ inl p ↦ rw p refl | inr p ↦ rw p refl ]
has-append x v (w ∷ ws) =
    let rest = has-append x v ws in
    elim (Bool-cases (w == x)) [ inl p ↦ rw p refl | inr p ↦ rw p rest ]

pub append-IsDistinct :
    (v : Bytes) (l : List Bytes) → has v l ≡ false → IsDistinct l → IsDistinct (l ++ (v ∷ []))
append-IsDistinct v [] fresh d = (refl, tt)
append-IsDistinct v (w ∷ ws) fresh (own, d) =
    let (apart, later) = neither (w == v) (has v ws) fresh in
    (has-append w v ws ∙ rw (own, ==-sym_false w v apart) refl, append-IsDistinct v ws later d)

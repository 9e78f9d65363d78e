-- ===== src/Vfs/Recovery/Order.antt =====
-- The numbers of the regions, in the order in which vfs/lfs.go replays their files.
use mathlib.Core.Path.{subst}
use wiredkv.Prelude.{
  ℕ, ◌<◌, ◌≤◌, ◌≡◌, ◌⊎◌, refl, sym, ap, ◌∙◌, arith, ◌++◌, List, [], ◌∷◌, none, some, leb, nat_eq,
  ◌==◌, All, Bool-cases, inl, inr, ==→≡, ==-self, nat_beq_iff, leb→le, le→leb, false,
}
use wiredkv.Prelude.Map.{Map, lookup, insert, lookup-insert}
use wiredkv.Vfs.Disk.{File}
use wiredkv.Vfs.Recovery.{insert_id, sorted_ids}
use wiredkv.Vfs.Recovery.Regions.{All-insert_id}

abbrev pub IsOneOf : ℕ → List ℕ → Type 0
IsOneOf n [] = ⊥
IsOneOf n (k ∷ ks) = (n ≡ k) ⊎ IsOneOf n ks

pub insert_id-IsOneOf : (n : ℕ) (ks : List ℕ) → IsOneOf n (insert_id n ks)
unfolding insert_id
insert_id-IsOneOf n [] = inl refl
insert_id-IsOneOf n (k ∷ ks) =
    let rest = insert_id-IsOneOf n ks in
    elim (Bool-cases (leb n k)) [
      | inl before ↦ rw before (inl refl)
      | inr after ↦ rw after (inr rest)
    ]

pub IsOneOf-insert_id : (j n : ℕ) (ks : List ℕ) → IsOneOf j ks → IsOneOf j (insert_id n ks)
unfolding insert_id
IsOneOf-insert_id j n [] h = elim h [ ]
IsOneOf-insert_id j n (k ∷ ks) h =
    let rest = IsOneOf-insert_id j n ks in
    elim (Bool-cases (leb n k)) [
      | inl before ↦ rw before (inr h)
      | inr after ↦ rw after (elim h [ inl here ↦ inl here | inr later ↦ inr (rest later) ])
    ]

pub sorted_ids-IsOneOf :
    (id : ℕ) (f : File) (m : Map ℕ File) → lookup id m ≡ some f → IsOneOf id (sorted_ids m)
unfolding sorted_ids lookup
sorted_ids-IsOneOf id f [] p = cc
sorted_ids-IsOneOf id f ((j, g) ∷ m) p =
    let rest = sorted_ids-IsOneOf id f m in
    elim (Bool-cases (j == id)) [
      | inl same ↦ rw (← ==→≡ j id same) (insert_id-IsOneOf j (sorted_ids m))
      | inr other ↦ IsOneOf-insert_id id j (sorted_ids m) (rest (rw other at p))
    ]

pub All-step : (P Q : ℕ → Type 0) (ks : List ℕ) → ((k : ℕ) → P k → Q k) → All P ks → All Q ks
All-step P Q [] step a = tt
All-step P Q (k ∷ ks) step (p, a) = (step k p, All-step P Q ks step a)

abbrev pub HasRegion : Map ℕ File → ℕ → Type 0
HasRegion m id = (f : File) × (lookup id m ≡ some f)

pub HasRegion-cons :
    (j id : ℕ) (g : File) (m : Map ℕ File) → HasRegion m id → HasRegion ((j, g) ∷ m) id
unfolding lookup
HasRegion-cons j id g m (f, p) = elim (Bool-cases (j == id)) [
  | inl same ↦ (g, rw same refl)
  | inr other ↦ (f, rw other p)
]

pub sorted_ids-All : (m : Map ℕ File) → All (HasRegion m) (sorted_ids m)
unfolding sorted_ids lookup
sorted_ids-All [] = tt
sorted_ids-All ((j, g) ∷ m) =
    All-insert_id (HasRegion ((j, g) ∷ m)) j (sorted_ids m) (g, rw (==-self j) refl)
      (All-step (HasRegion m) (HasRegion ((j, g) ∷ m)) (sorted_ids m)
        (λ id. HasRegion-cons j id g m) (sorted_ids-All m))

-- No number twice in a map.
unfoldable pub IsDistinct : Map ℕ File → Type 0
IsDistinct [] = Unit {0}
IsDistinct ((id, f) ∷ m) = (lookup id m ≡ none) × IsDistinct m

pub insert-IsDistinct :
    (id : ℕ) (f : File) (m : Map ℕ File) → IsDistinct m → IsDistinct (insert id f m)
unfolding insert IsDistinct lookup
insert-IsDistinct id f [] d = (refl, tt)
insert-IsDistinct id f ((j, g) ∷ m) (fresh, d) =
    let rest = insert-IsDistinct id f m d in
    elim (Bool-cases (j == id)) [
      | inl same ↦ rw same (ap (λ i. lookup i m) (sym (==→≡ j id same)) ∙ fresh, d)
      | inr other ↦ rw other (
        lookup-insert id j f m ∙ ground (arith, nat_beq_iff id j, nat_beq_iff j id, other, fresh),
        rest,
      )
    ]

-- In ascending order, none twice.
abbrev pub IsStrict : List ℕ → Type 0
IsStrict [] = Unit {0}
IsStrict (n ∷ ns) = All (λ k. n < k) ns × IsStrict ns

below-IsOneOf : (P : ℕ → Type 0) (n : ℕ) (ks : List ℕ) → All P ks → IsOneOf n ks → P n
below-IsOneOf P n [] a h = elim h [ ]
below-IsOneOf P n (k ∷ ks) (p, a) (inl e) = subst P (sym e) p
below-IsOneOf P n (k ∷ ks) (p, a) (inr h) = below-IsOneOf P n ks a h

less_trans : (n k : ℕ) (ks : List ℕ) → n < k → All (λ j. k < j) ks → All (λ j. n < j) ks
less_trans n k ks h a = All-step (λ j. k < j) (λ j. n < j) ks (λ j lt. omega arith) a

insert_id-IsStrict :
    (n : ℕ) (ks : List ℕ) → IsStrict ks → (IsOneOf n ks → ⊥) → IsStrict (insert_id n ks)
unfolding insert_id
insert_id-IsStrict n [] h new = (tt, tt)
insert_id-IsStrict n (k ∷ ks) (low, h) new =
    let rest = insert_id-IsStrict n ks h (λ x. new (inr x)) in
    elim (Bool-cases (leb n k)) [
      | inl before ↦
          let lt : n < k = strictly n k (leb→le n k before) (λ e. new (inl e)) in
          rw before ((lt, less_trans n k ks lt low), (low, h))
      | inr after ↦ rw after (All-insert_id (λ j. k < j) n ks (ground arith) low, rest)
    ]
  where
    strictly : (a b : ℕ) → a ≤ b → (a ≡ b → ⊥) → a < b
    strictly a b le ne = omega arith

pub sorted_ids-IsStrict : (m : Map ℕ File) → IsDistinct m → IsStrict (sorted_ids m)
unfolding sorted_ids IsDistinct
sorted_ids-IsStrict [] d = tt
sorted_ids-IsStrict ((id, f) ∷ m) (fresh, d) =
    insert_id-IsStrict id (sorted_ids m) (sorted_ids-IsStrict m d)
      (λ h. let (g, p) = below-IsOneOf (HasRegion m) id (sorted_ids m) (sorted_ids-All m) h in cc)

-- A list in strict order is known by its members.
strict_unique :
    (xs ys : List ℕ)
    → IsStrict xs
    → IsStrict ys
    → ((n : ℕ) → IsOneOf n xs → IsOneOf n ys)
    → ((n : ℕ) → IsOneOf n ys → IsOneOf n xs)
    → xs ≡ ys
strict_unique [] [] h k to from = refl
strict_unique [] (y ∷ ys) h k to from = absurd (from y (inl refl))
strict_unique (x ∷ xs) [] h k to from = absurd (to x (inl refl))
strict_unique (x ∷ xs) (y ∷ ys) (low, h) (low', k) to from =
    let e : x ≡ y = heads (to x (inl refl)) (from y (inl refl)) in
    let rest : xs ≡ ys =
      strict_unique xs ys h k
        (λ n p. later n (below-IsOneOf (λ j. x < j) n xs low p) e (to n (inr p)))
        (λ n p. sooner n (below-IsOneOf (λ j. y < j) n ys low' p) e (from n (inr p))) in
    λ i. e i ∷ rest i
  where
    heads : IsOneOf x (y ∷ ys) → IsOneOf y (x ∷ xs) → x ≡ y
    heads (inl e) q = e
    heads (inr p) (inl e) = sym e
    heads (inr p) (inr q) = absurd (
        omega
          (arith, below-IsOneOf (λ j. y < j) x ys low' p, below-IsOneOf (λ j. x < j) y xs low q))

    later : (n : ℕ) → x < n → x ≡ y → IsOneOf n (y ∷ ys) → IsOneOf n ys
    later n lt e (inl same) = absurd (omega arith)
    later n lt e (inr p) = p

    sooner : (n : ℕ) → y < n → x ≡ y → IsOneOf n (x ∷ xs) → IsOneOf n xs
    sooner n lt e (inl same) = absurd (omega arith)
    sooner n lt e (inr p) = p

-- Maps with the same regions are replayed in the same order.
pub sorted_ids_same :
    (m m' : Map ℕ File)
    → IsDistinct m
    → IsDistinct m'
    → ((id : ℕ) (f : File) → lookup id m ≡ some f → lookup id m' ≡ some f)
    → ((id : ℕ) (f : File) → lookup id m' ≡ some f → lookup id m ≡ some f)
    → sorted_ids m ≡ sorted_ids m'
sorted_ids_same m m' d d' to from =
    strict_unique (sorted_ids m) (sorted_ids m') (sorted_ids-IsStrict m d)
      (sorted_ids-IsStrict m' d') (λ n. carried m m' to n) (λ n. carried m' m from n)
  where
    carried :
        (a b : Map ℕ File)
        → ((id : ℕ) (f : File) → lookup id a ≡ some f → lookup id b ≡ some f)
        → (n : ℕ) → IsOneOf n (sorted_ids a)
        → IsOneOf n (sorted_ids b)
    carried a b go n p =
        let (f, q) = below-IsOneOf (HasRegion a) n (sorted_ids a) (sorted_ids-All a) p in
        sorted_ids-IsOneOf n f b (go n f q)

insert_id-append :
    (j id : ℕ) (ks : List ℕ) → j < id → insert_id j (ks ++ id ∷ []) ≡ insert_id j ks ++ id ∷ []
unfolding insert_id
insert_id-append j id [] h = rw (le→leb j id (omega arith)) refl
insert_id-append j id (k ∷ ks) h =
    let rest = insert_id-append j id ks h in
    elim (Bool-cases (leb j k)) [
      | inl before ↦ rw before refl
      | inr after ↦ rw after (ap (λ l. k ∷ l) rest)
    ]

-- A region with a higher number is replayed last.
pub sorted_ids-insert :
    (id : ℕ) (f : File) (m : Map ℕ File)
    → All (λ (e : ℕ × File). e.0 < id) m
    → sorted_ids (insert id f m) ≡ sorted_ids m ++ id ∷ []
unfolding sorted_ids insert insert_id
sorted_ids-insert id f [] a = refl
sorted_ids-insert id f ((j, g) ∷ m) (low, a) =
    let rest = sorted_ids-insert id f m a in
    let other : (j == id) ≡ false = ground (arith, nat_beq_iff j id) in
    rw other (ap (insert_id j) rest ∙ insert_id-append j id (sorted_ids m) low)

-- What holds of each number that is found holds of each entry.
pub entries-All :
    (P : ℕ → Type 0) (m : Map ℕ File)
    → ((id : ℕ) → HasRegion m id → P id)
    → All (λ (e : ℕ × File). P e.0) m
unfolding lookup
entries-All P [] h = tt
entries-All P ((j, g) ∷ m) h =
    (h j (g, rw (==-self j) refl), entries-All P m (λ id r. h id (HasRegion-cons j id g m r)))

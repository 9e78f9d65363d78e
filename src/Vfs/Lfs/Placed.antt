-- ===== src/Vfs/Lfs/Placed.antt =====
-- Each shard holds the numbers that belong to it, and none twice: storing and deleting keep this.
use mathlib.Core.Path.{subst}
use wiredkv.Prelude.{
  ℕ, zero, suc, ◌+◌, ◌%◌, ◌≡◌, ◌≢◌, refl, sym, arith, List, [], ◌∷◌, Option, none, some, nat_eq,
  nat_beq, nat_beq_iff, get_elem?, set, All, Bool-cases, inl, inr,
}
use wiredkv.Prelude.Map.{insert, delete}
use wiredkv.Vfs.Codec.{INode}
use wiredkv.Vfs.Fs.{
  LogStructuredFs, IndexMap, index_shard, select_shard, update_shard, present, changed_shard,
  store_inode, delete_inode,
}

-- No number twice in a map.
abbrev pub HasDistinctKeys : IndexMap → Type 0
HasDistinctKeys [] = Unit {0}
HasDistinctKeys (e ∷ m) = All (λ (f : ℕ × INode). e.0 ≢ f.0) m × HasDistinctKeys m

-- The shard at place `i` holds the numbers of that shard, each once.
abbrev pub IsPlacedFrom : ℕ → List (Option IndexMap) → Type 0
IsPlacedFrom i [] = Unit {0}
IsPlacedFrom i (none ∷ ms) = IsPlacedFrom (suc i) ms
IsPlacedFrom i (some m ∷ ms) =
    All (λ (e : ℕ × INode). e.0 % index_shard ≡ i) m × HasDistinctKeys m × IsPlacedFrom (suc i) ms

abbrev pub IsPlaced : List (Option IndexMap) → Type 0
IsPlaced indexs = IsPlacedFrom 0 indexs

module _ (P : ℕ × INode → Type 0) where
  insert-All : (k : ℕ) (v : INode) (m : IndexMap) → P (k, v) → All P m → All P (insert k v m)
  unfolding insert
  insert-All k v [] p a = (p, tt)
  insert-All k v ((j, w) ∷ m) p (q, a) = elim (Bool-cases (nat_beq j k)) [
    | inl same ↦ rw same (p, a)
    | inr other ↦ rw other (q, insert-All k v m p a)
  ]

  delete-All : (k : ℕ) (m : IndexMap) → All P m → All P (delete k m)
  unfolding delete
  delete-All k [] a = tt
  delete-All k ((j, w) ∷ m) (q, a) = elim (Bool-cases (nat_beq j k)) [
    | inl same ↦ rw same (delete-All k m a)
    | inr other ↦ rw other (q, delete-All k m a)
  ]

insert-HasDistinctKeys :
    (k : ℕ) (v : INode) (m : IndexMap) → HasDistinctKeys m → HasDistinctKeys (insert k v m)
unfolding insert
insert-HasDistinctKeys k v [] d = (tt, tt)
insert-HasDistinctKeys k v ((j, w) ∷ m) (fresh, d) = elim (Bool-cases (nat_beq j k)) [
  | inl same ↦
      let e : j ≡ k = (nat_beq_iff j k).0 same in
      rw same (subst (λ i. All (λ (f : ℕ × INode). i ≢ f.0) m) e fresh, d)
  | inr other ↦
      let ne : j ≢ k = λ e. ground (arith, nat_beq_iff j k) in
      rw other (insert-All (λ f. j ≢ f.0) k v m ne fresh, insert-HasDistinctKeys k v m d)
]

delete-HasDistinctKeys : (k : ℕ) (m : IndexMap) → HasDistinctKeys m → HasDistinctKeys (delete k m)
unfolding delete
delete-HasDistinctKeys k [] d = tt
delete-HasDistinctKeys k ((j, w) ∷ m) (fresh, d) = elim (Bool-cases (nat_beq j k)) [
  | inl same ↦ rw same (delete-HasDistinctKeys k m d)
  | inr other ↦ rw other (delete-All (λ f. j ≢ f.0) k m fresh, delete-HasDistinctKeys k m d)
]

-- A map that may stand at place `i`.
abbrev Fills : ℕ → IndexMap → Type 0
Fills i m = All (λ (e : ℕ × INode). e.0 % index_shard ≡ i) m × HasDistinctKeys m

shard-Fills :
    (i k : ℕ) (ms : List (Option IndexMap)) (m : IndexMap)
    → IsPlacedFrom i ms
    → get_elem? ms k ≡ some (some m)
    → Fills (i + k) m
shard-Fills i k [] m h at = cc
shard-Fills i zero (none ∷ ms) m h at = cc
shard-Fills i zero (some n ∷ ms) m (own, d, h) at =
    let e : n ≡ m = ground (arith, at) in
    let j : i ≡ i + zero = omega arith in rw (← e, ← j) (own, d)
shard-Fills i (suc k) (none ∷ ms) m h at =
    let j : suc i + k ≡ i + suc k = omega arith in
    subst (λ x. Fills x m) j (shard-Fills (suc i) k ms m h at)
shard-Fills i (suc k) (some n ∷ ms) m (own, d, h) at =
    let j : suc i + k ≡ i + suc k = omega arith in
    subst (λ x. Fills x m) j (shard-Fills (suc i) k ms m h at)

set-IsPlacedFrom :
    (i k : ℕ) (ms : List (Option IndexMap)) (m : IndexMap)
    → IsPlacedFrom i ms
    → Fills (i + k) m
    → IsPlacedFrom i (set ms k (some m))
set-IsPlacedFrom i k [] m h fills = tt
set-IsPlacedFrom i zero (none ∷ ms) m h (own, d) =
    let j : i + zero ≡ i = omega arith in (rw (← j) own, d, h)
set-IsPlacedFrom i zero (some n ∷ ms) m (own', d', h) (own, d) =
    let j : i + zero ≡ i = omega arith in (rw (← j) own, d, h)
set-IsPlacedFrom i (suc k) (none ∷ ms) m h fills =
    let j : i + suc k ≡ suc i + k = omega arith in
    set-IsPlacedFrom (suc i) k ms m h (subst (λ x. Fills x m) j fills)
set-IsPlacedFrom i (suc k) (some n ∷ ms) m (own', d', h) fills =
    let j : i + suc k ≡ suc i + k = omega arith in
    (own', d', set-IsPlacedFrom (suc i) k ms m h (subst (λ x. Fills x m) j fills))

update_shard-IsPlaced :
    (f : IndexMap → IndexMap) (inum : ℕ) (indexs : List (Option IndexMap))
    → ((m : IndexMap) → Fills (inum % index_shard) m → Fills (inum % index_shard) (f m))
    → IsPlaced indexs
    → IsPlaced (update_shard f inum indexs)
unfolding update_shard select_shard
update_shard-IsPlaced f inum indexs keeps h = by_shard (get_elem? indexs (inum % index_shard)) refl
  where
    by_shard :
        (o : Option (Option IndexMap))
        → get_elem? indexs (inum % index_shard) ≡ o
        → IsPlaced (changed_shard (present o) f indexs inum)
    by_shard none p = h
    by_shard (some none) p = h
    by_shard (some (some m)) p =
        let place : 0 + inum % index_shard ≡ inum % index_shard = omega arith in
        let own = shard-Fills 0 (inum % index_shard) indexs m h p in
        set-IsPlacedFrom 0 (inum % index_shard) indexs (f m) h
          (subst (λ x. Fills x (f m)) (sym place) (keeps m (subst (λ x. Fills x m) place own)))

pub store_inode-IsPlaced :
    (inum : ℕ) (n : INode) (s : LogStructuredFs)
    → IsPlaced s.indexs
    → IsPlaced (store_inode inum n s).indexs
unfolding store_inode
store_inode-IsPlaced inum n s h =
    update_shard-IsPlaced (insert inum n) inum s.indexs
      (λ m (own, d). (
        insert-All (λ e. e.0 % index_shard ≡ inum % index_shard) inum n m refl own,
        insert-HasDistinctKeys inum n m d,
      ))
      h

pub delete_inode-IsPlaced :
    (inum : ℕ) (s : LogStructuredFs) → IsPlaced s.indexs → IsPlaced (delete_inode inum s).indexs
unfolding delete_inode
delete_inode-IsPlaced inum s h =
    update_shard-IsPlaced (delete inum) inum s.indexs
      (λ m (own, d). (
        delete-All (λ e. e.0 % index_shard ≡ inum % index_shard) inum m own,
        delete-HasDistinctKeys inum m d,
      ))
      h

-- ===== src/Vfs/Snapshot/Entries.antt =====
-- The index as the list of its entries: each entry of a placed index is the one that is found for
-- its number, and every entry that is found is in the list.
use wiredkv.Prelude.{
  ℕ, zero, suc, ◌+◌, ◌%◌, ◌≡◌, ◌≢◌, refl, sym, ap, ◌∙◌, arith, List, [], ◌∷◌, ◌++◌, Option, none,
  some, Bool, true, false, ◌||◌, ◌==◌, nat_eq, nat_beq_iff, get_elem?, All, ==-self,
}
use wiredkv.Prelude.Map.{lookup}
use wiredkv.Vfs.Codec.{INode}
use wiredkv.Vfs.Lfs.Placed.{HasDistinctKeys, IsPlacedFrom, IsPlaced}
use wiredkv.Vfs.Fs.{
  LogStructuredFs, IndexMap, index_shard, select_shard, find_inode, present, entry_of,
}

abbrev pub Entry : Type 0
Entry = ℕ × INode

abbrev pub entries : List (Option IndexMap) → List Entry
entries [] = []
entries (none ∷ ms) = entries ms
entries (some m ∷ ms) = m ++ entries ms

abbrev pub has_key : ℕ → List Entry → Bool
has_key j [] = false
has_key j (e ∷ es) = e.0 == j || has_key j es

-- Each entry of a map with distinct keys is the one that is looked up, also in a longer map that
-- has nothing else for its number.
found_in_map : (m : IndexMap) → HasDistinctKeys m → All (λ (e : Entry). lookup e.0 m ≡ some e.1) m
unfolding lookup
found_in_map [] h = tt
found_in_map (e ∷ m) (fresh, h) = (rw (==-self e.0), weaken m fresh (found_in_map m h))
  where
    weaken :
        (l : List Entry)
        → All (λ (f : Entry). e.0 ≢ f.0) l
        → All (λ (f : Entry). lookup f.0 m ≡ some f.1) l
        → All (λ (f : Entry). lookup f.0 (e ∷ m) ≡ some f.1) l
    weaken [] a b = tt
    weaken (f ∷ l) (ne, a) (p, b) = (ground (arith, ne, p, nat_beq_iff e.0 f.0), weaken l a b)

All-append {ℓ} :
    {A : Type 0} (P : A → Type ℓ) (xs ys : List A) → All P xs → All P ys → All P (xs ++ ys)
All-append P [] ys a b = b
All-append P (x ∷ xs) ys (p, a) b = (p, All-append P xs ys a b)

module _ (s : LogStructuredFs) where
  found_in_shard :
      (i : ℕ) (m : IndexMap) (l : List Entry)
      → get_elem? s.indexs i ≡ some (some m)
      → All (λ (e : Entry). e.0 % index_shard ≡ i) l
      → All (λ (e : Entry). lookup e.0 m ≡ some e.1) l
      → All (λ (e : Entry). find_inode s e.0 ≡ some e.1) l
  unfolding find_inode select_shard
  found_in_shard i m [] at a b = tt
  found_in_shard i m (e ∷ l) at (p, a) (q, b) = (rw (p, at) q, found_in_shard i m l at a b)

  found_from :
      (i : ℕ) (ms : List (Option IndexMap))
      → ((k : ℕ) → get_elem? ms k ≡ get_elem? s.indexs (i + k))
      → IsPlacedFrom i ms
      → All (λ (e : Entry). find_inode s e.0 ≡ some e.1) (entries ms)
  found_from i [] at h = tt
  found_from i (none ∷ ms) at h =
      found_from (suc i) ms (λ k. at (suc k) ∙ ap (get_elem? s.indexs) (omega arith)) h
  found_from i (some m ∷ ms) at (own, distinct, h) =
      All-append (λ (e : Entry). find_inode s e.0 ≡ some e.1) m (entries ms)
        (found_in_shard i m m (ap (get_elem? s.indexs) (omega arith) ∙ sym (at 0)) own
          (found_in_map m distinct))
        (found_from (suc i) ms (λ k. at (suc k) ∙ ap (get_elem? s.indexs) (omega arith)) h)

  -- Every entry of a placed index is the one that is found.
  pub entries_found :
      IsPlaced s.indexs → All (λ (e : Entry). find_inode s e.0 ≡ some e.1) (entries s.indexs)
  entries_found h = found_from 0 s.indexs (λ k. ap (get_elem? s.indexs) (omega arith)) h

has_key-append :
    (j : ℕ) (xs ys : List Entry) → has_key j (xs ++ ys) ≡ (has_key j xs || has_key j ys)
has_key-append j [] ys = refl
has_key-append j (e ∷ xs) ys = ground (arith, has_key-append j xs ys)

lookup-has_key : (j : ℕ) (n : INode) (m : IndexMap) → lookup j m ≡ some n → has_key j m ≡ true
unfolding lookup
lookup-has_key j n [] h = cc
lookup-has_key j n (e ∷ m) h = ground (arith, lookup-has_key j n m)

has_key-entries :
    (j i : ℕ) (m : IndexMap) (ms : List (Option IndexMap))
    → get_elem? ms i ≡ some (some m)
    → has_key j m ≡ true
    → has_key j (entries ms) ≡ true
has_key-entries j i m [] at h = cc
has_key-entries j zero m (none ∷ ms) at h = cc
has_key-entries j zero m (some k ∷ ms) at h =
    let same : k ≡ m = ground (arith, at) in has_key-append j k (entries ms) ∙ rw (same, h)
has_key-entries j (suc i) m (none ∷ ms) at h = has_key-entries j i m ms at h
has_key-entries j (suc i) m (some k ∷ ms) at h =
    has_key-append j k (entries ms) ∙ ground (arith, has_key-entries j i m ms at h)

-- Every entry that is found is in the list.
pub find_inode-has_key :
    (s : LogStructuredFs) (j : ℕ) (n : INode)
    → find_inode s j ≡ some n
    → has_key j (entries s.indexs) ≡ true
unfolding find_inode select_shard
find_inode-has_key s j n h = by_shard (get_elem? s.indexs (j % index_shard)) refl h
  where
    by_shard :
        (o : Option (Option IndexMap))
        → get_elem? s.indexs (j % index_shard) ≡ o
        → entry_of (present o) j ≡ some n
        → has_key j (entries s.indexs) ≡ true
    by_shard none p q = cc
    by_shard (some none) p q = cc
    by_shard (some (some m)) p q =
        has_key-entries j (j % index_shard) m s.indexs p (lookup-has_key j n m q)

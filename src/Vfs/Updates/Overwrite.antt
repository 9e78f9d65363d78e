-- ===== src/Vfs/Updates/Overwrite.antt =====
-- Entries that are stored one over the other.
use wiredkv.Prelude.{
  ℕ, ◌%◌, ◌≡◌, refl, sym, ap, ◌∙◌, Option, some, List, [], ◌∷◌, zero, suc, nat_eq, ◌==◌, ==-self,
  Bool-cases, inl, inr, set, list_eq,
}
use wiredkv.Prelude.Map.{insert}
use wiredkv.Vfs.Codec.{INode}
use wiredkv.Vfs.Fs.{LogStructuredFs, IndexMap, select_shard, update_shard, store_inode}
use wiredkv.Vfs.Lfs.Index.{HasShards, update_shard_same}

insert-insert : (k : ℕ) (v v' : INode) (m : IndexMap) → insert k v' (insert k v m) ≡ insert k v' m
unfolding insert
insert-insert k v v' [] = rw ==-self refl
insert-insert k v v' ((j, x) ∷ m) = elim (Bool-cases (j == k)) [
  | inl same ↦ rw (same, ==-self) refl
  | inr other ↦ rw (other, other) (ap (λ r. (j, x) ∷ r) (insert-insert k v v' m))
]

set-set :
    (ms : List (Option IndexMap)) (i : ℕ) (a b : Option IndexMap)
    → set (set ms i a) i b ≡ set ms i b
set-set [] i a b = refl
set-set (m ∷ ms) zero a b = refl
set-set (m ∷ ms) (suc i) a b = ap (λ r. m ∷ r) (set-set ms i a b)

-- The second of two stores of one entry counts.
pub store_inode-store_inode :
    (k : ℕ) (v v' : INode) (s : LogStructuredFs)
    → HasShards s.indexs
    → store_inode k v' (store_inode k v s) ≡ store_inode k v' s
unfolding store_inode update_shard
store_inode-store_inode k v v' s shards =
    let (m, p, q) = update_shard_same (insert k v) k s.indexs shards k refl in
    let q' : select_shard (set s.indexs (k % 10) (some (insert k v m))) k ≡ some (insert k v m) =
      rw p at q in
    rw (p, q')
      (ap (λ ms. record s { indexs = ms })
        (set-set s.indexs (k % 10) (some (insert k v m)) (some (insert k v' (insert k v m)))
          ∙ ap (λ x. set s.indexs (k % 10) (some x)) (insert-insert k v v' m)))

-- A store of an entry that is there already, in an index that a store of it made.
pub store_inode-stored :
    (k : ℕ) (v : INode) (s t : LogStructuredFs)
    → HasShards s.indexs
    → t.indexs ≡ (store_inode k v s).indexs
    → t ≡ store_inode k v t
unfolding store_inode
store_inode-stored k v s t shards same =
    ap (λ ms. record t { indexs = ms })
      (same
        ∙ sym (ap (λ x. x.indexs) (store_inode-store_inode k v v s shards))
        ∙ ap (update_shard (insert k v) k) (sym same))

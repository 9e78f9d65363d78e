-- ===== src/Vfs/Lfs/Index.antt =====
-- The sharded index behaves as one map from inode numbers to entries.
use wiredkv.Prelude.{
  ℕ, ◌%◌, ◌<◌, ◌≡◌, ◌≢◌, ◌∙◌, arith, List, Option, none, some, false, ◌==◌, nat_eq, nat_beq,
  nat_beq_iff, if◌then◌else◌, length, get_elem?, length-set, get_elem?-set_self, get_elem?-set_ne,
  Bool-cases, inl, inr,
}
use wiredkv.Prelude.Map.{insert, delete, lookup-insert, lookup-delete}
use wiredkv.Vfs.Codec.{INode}
use wiredkv.Vfs.Fs.{
  LogStructuredFs, IndexMap, index_shard, select_shard, update_shard, find_inode, store_inode,
  delete_inode,
}

-- Every shard is there.
pub record HasShards (indexs : List (Option IndexMap)) : Type 0 where
  pub count : length indexs ≡ index_shard
  pub each : (i : ℕ) → i < index_shard → (m : IndexMap) × (get_elem? indexs i ≡ some (some m))

pub shard_present :
    (indexs : List (Option IndexMap)) (inum : ℕ)
    → HasShards indexs
    → (m : IndexMap) × (select_shard indexs inum ≡ some m)
unfolding select_shard
shard_present indexs inum h = let (m, e) = h.each (inum % 10) (omega arith) in (m, rw e)

module _ (f : IndexMap → IndexMap) (inum : ℕ) (indexs : List (Option IndexMap))
    (h : HasShards indexs) where
  at_shard :
      (m : IndexMap) (j : ℕ)
      → get_elem? indexs (inum % 10) ≡ some (some m)
      → inum % 10 ≡ j % 10
      → (select_shard indexs j ≡ some m)
        × (select_shard (update_shard f inum indexs) j ≡ some (f m))
  unfolding select_shard update_shard
  at_shard m j p e =
      let q = get_elem?-set_self indexs (inum % 10) (some (f m)) (omega (arith, h.count)) in
      (rw (← e, p), rw (p, ← e, q))

  pub update_shard_same :
      (j : ℕ)
      → inum % 10 ≡ j % 10
      → (m : IndexMap) × (select_shard indexs j ≡ some m)
        × (select_shard (update_shard f inum indexs) j ≡ some (f m))
  update_shard_same j e =
      let (m, p) = h.each (inum % 10) (omega arith) in let (q, r) = at_shard m j p e in (m, q, r)

  update_shard_other :
      (j : ℕ)
      → inum % 10 ≢ j % 10
      → select_shard (update_shard f inum indexs) j ≡ select_shard indexs j
  unfolding select_shard update_shard
  update_shard_other j ne =
      let (m, p) = h.each (inum % 10) (omega arith) in
      let q = get_elem?-set_ne indexs (inum % 10) (j % 10) (some (f m)) ne in rw (p, q)

  pub update_shard-HasShards : HasShards (update_shard f inum indexs)
  unfolding update_shard select_shard
  update_shard-HasShards =
      let (m, p) = h.each (inum % 10) (omega arith) in
      record {
        count = rw p (length-set indexs (inum % 10) (some (f m)) ∙ h.count);
        each = λ i lt. elim (Bool-cases (nat_beq (inum % 10) i)) [
          | inl same ↦
              let e : inum % 10 ≡ i = (nat_beq_iff _ _).0 same in
              (
                f m,
                rw (p, ← e)
                    (get_elem?-set_self indexs (inum % 10) (some (f m)) (omega (arith, h.count))),
              )
          | inr other ↦
              let (k, q) = h.each i lt in
              let ne : inum % 10 ≢ i = λ e. ground (arith, nat_beq_iff (inum % 10) i) in
              (k, rw p (get_elem?-set_ne indexs (inum % 10) i (some (f m)) ne ∙ q))
        ];
      }

module _ (s : LogStructuredFs) (h : HasShards s.indexs) (inum j : ℕ) where
  pub find_inode-store_inode :
      (n : INode)
      → find_inode (store_inode inum n s) j ≡ (if inum == j then some n else find_inode s j)
  unfolding find_inode store_inode
  find_inode-store_inode n = elim (Bool-cases (nat_beq (inum % 10) (j % 10))) [
    | inl same ↦
        let (m, p, q) =
          update_shard_same (insert inum n) inum s.indexs h j ((nat_beq_iff _ _).0 same) in
        rw (p, q) (lookup-insert inum j n m)
    | inr other ↦
        let ne : inum % 10 ≢ j % 10 = λ e. ground (arith, nat_beq_iff (inum % 10) (j % 10)) in
        let distinct : (inum == j) ≡ false = ground arith in
        rw (distinct, update_shard_other (insert inum n) inum s.indexs h j ne)
  ]

  pub find_inode-delete_inode :
      find_inode (delete_inode inum s) j ≡ (if inum == j then none else find_inode s j)
  unfolding find_inode delete_inode
  find_inode-delete_inode = elim (Bool-cases (nat_beq (inum % 10) (j % 10))) [
    | inl same ↦
        let (m, p, q) =
          update_shard_same (delete inum) inum s.indexs h j ((nat_beq_iff _ _).0 same) in
        rw (p, q) (lookup-delete inum j m)
    | inr other ↦
        let ne : inum % 10 ≢ j % 10 = λ e. ground (arith, nat_beq_iff (inum % 10) (j % 10)) in
        let distinct : (inum == j) ≡ false = ground arith in
        rw (distinct, update_shard_other (delete inum) inum s.indexs h j ne)
  ]

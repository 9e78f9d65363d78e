-- ===== src/Vfs/Updates/Once.antt =====
-- Of the updates of a key that expect one version, one at most is made.
use wiredkv.Prelude.{
  ℕ, ◌+◌, ◌%◌, ◌^◌, ◌<◌, ◌≡◌, ◌≢◌, refl, sym, ap, ◌∙◌, arith, Bool, true, false, some, ok, err,
  nat_eq, ◌==◌, ==→≡, ==-self, Bool-cases, inl, inr,
}
use wiredkv.Vfs.Hash.{inode_num}
use wiredkv.Vfs.Codec.{INode}
use wiredkv.Vfs.Fs.{Env, LogStructuredFs, find_inode, store_inode, advance}
use wiredkv.Vfs.Lfs.Index.{HasShards, find_inode-store_inode}
use wiredkv.Vfs.Updates.{
  Update, at_position, Phase, called, found, swapped, noting, noted, counted, full, returned,
  Updates, moved, after_field, Step, no_shard, missing, find, conflict, swap, append, fail, note,
  count, keep, fill, rotate, Steps, here, after, at_start,
}
use wiredkv.Vfs.Updates.Keeps.{
  append-indexs, create-indexs, Keeps, same_index-Keeps, store_inode-HasShards, store_inode-Keeps,
  set_field-mvcc,
}

-- The call has raised the version, and has not failed since.
abbrev is_past : Phase → Bool
is_past called = false
is_past found = false
is_past swapped = true
is_past (noting f) = true
is_past noted = true
is_past counted = true
is_past full = true
is_past (returned (ok u)) = true
is_past (returned (err e)) = false

module _ (env : Env) (calls : ℕ → Update) (bound : (u : ℕ) → (calls u).expected + 1 < 2 ^ 64) where
  abbrev inum : ℕ → ℕ
  inum u = inode_num env.hashes (calls u).key

  -- The version of an entry is above what the calls past its check expect, and these expect
  -- different versions.
  record IsSafe (c : Updates) : Type 0 where
    shards : HasShards c.store.indexs
    raised :
        (u : ℕ) (n : INode)
        → is_past (c.phases u) ≡ true
        → find_inode c.store (inum u) ≡ some n
        → (calls u).expected < n.mvcc
    apart :
        (u v : ℕ)
        → u ≢ v
        → is_past (c.phases u) ≡ true
        → is_past (c.phases v) ≡ true
        → inum u ≡ inum v
        → (calls u).expected ≢ (calls v).expected

  at_start-IsSafe : (s : LogStructuredFs) → HasShards s.indexs → IsSafe (at_start s)
  at_start-IsSafe s shards = record {
    shards = shards;
    raised = λ u n p q. cc;
    apart = λ u v ne p q same. cc;
  }

  -- A step that raises no version.
  Keeps-IsSafe :
      (u : ℕ) (q : Phase) (t : LogStructuredFs) (c : Updates)
      → IsSafe c
      → Keeps c.store t
      → (is_past q ≡ true → is_past (c.phases u) ≡ true)
      → IsSafe (moved u q t c)
  Keeps-IsSafe u q t c safe k past =
      let was : (v : ℕ) → is_past ((moved u q t c).phases v) ≡ true → is_past (c.phases v) ≡ true =
        λ v p. elim (Bool-cases (u == v)) [
          | inl same ↦ ap (λ x. is_past (c.phases x)) (sym (==→≡ u v same)) ∙ past (rw same at p)
          | inr other ↦ rw other at p
        ] in
      record {
        shards = k.shards;
        raised = λ v n p spot.
            let (n0, spot0, same) = k.version (inum v) n spot in
            rw (← same) (safe.raised v n0 (was v p) spot0);
        apart = λ v x ne p r same. safe.apart v x ne (was v p) (was x r) same;
      }

  -- The swap raises the version above all that were expected.
  swap-IsSafe :
      (u : ℕ) (n : INode) (c : Updates)
      → IsSafe c
      → find_inode c.store (inum u) ≡ some n
      → n.mvcc ≡ (calls u).expected
      → IsSafe (
          moved u swapped
            (store_inode (inum u) (record n { mvcc = ((calls u).expected + 1) % 2 ^ 64 }) c.store)
            c)
  swap-IsSafe u n c safe spot same =
      let k : INode = record n { mvcc = ((calls u).expected + 1) % 2 ^ 64 } in
      let t : LogStructuredFs = store_inode (inum u) k c.store in
      let lower : (v : ℕ)
          → is_past (c.phases v) ≡ true
          → inum u ≡ inum v
          → (calls v).expected < (calls u).expected =
        λ v past at_u.
          let r = safe.raised v n past (ap (find_inode c.store) (sym at_u) ∙ spot) in
          omega (arith, r, same) in
      record {
        shards = store_inode-HasShards (inum u) k c.store safe.shards;
        raised = λ v n' p q.
            let q' = sym (find_inode-store_inode c.store safe.shards (inum u) (inum v) k) ∙ q in
            elim (Bool-cases (inum u == inum v)) [
              | inl at_u ↦
                  let r : some k ≡ some n' = rw at_u at q' in
                  let e : k ≡ n' = cc in
                  let m : ((calls u).expected + 1) % 2 ^ 64 ≡ n'.mvcc = ap (λ i. i.mvcc) e in
                  elim (Bool-cases (u == v)) [
                    | inl self ↦
                        let x : (calls u).expected ≡ (calls v).expected =
                          ap (λ y. (calls y).expected) (==→≡ u v self) in
                        omega (arith, m, x, bound u)
                    | inr other ↦
                        let l = lower v (rw other at p) (==→≡ _ _ at_u) in
                        omega (arith, m, l, bound u)
                  ]
              | inr elsewhere ↦ elim (Bool-cases (u == v)) [
                | inl self ↦
                    let here_too : (inum u == inum v) ≡ true =
                      ap (λ y. inum u == inum y) (sym (==→≡ u v self)) ∙ ==-self (inum u) in
                    absurd (ground (arith, here_too, elsewhere))
                | inr other ↦ safe.raised v n' (rw other at p) (rw elsewhere at q')
              ]
            ];
        apart = λ v x ne p r at_v. elim (Bool-cases (u == v)) [
          | inl self ↦ elim (Bool-cases (u == x)) [
            | inl self' ↦ absurd (ne (sym (==→≡ u v self) ∙ ==→≡ u x self'))
            | inr other' ↦
                let e : u ≡ v = ==→≡ u v self in
                let l = lower x (rw other' at r) (ap inum e ∙ at_v) in
                let w : (calls u).expected ≡ (calls v).expected = ap (λ y. (calls y).expected) e in
                λ both. omega (arith, l, w, both)
          ]
          | inr other ↦ elim (Bool-cases (u == x)) [
            | inl self' ↦
                let e : u ≡ x = ==→≡ u x self' in
                let l = lower v (rw other at p) (ap inum e ∙ sym at_v) in
                let w : (calls u).expected ≡ (calls x).expected = ap (λ y. (calls y).expected) e in
                λ both. omega (arith, l, w, both)
            | inr other' ↦ safe.apart v x ne (rw other at p) (rw other' at r) at_v
          ]
        ];
      }

  Step-IsSafe : {u : ℕ} {c d : Updates} → Step env calls u c d → IsSafe c → IsSafe d
  unfolding advance
  Step-IsSafe {u} (no_shard c at none_there) safe =
      Keeps-IsSafe u (returned _) c.store c safe (same_index-Keeps _ _ safe.shards refl) (λ p. cc)
  Step-IsSafe {u} (missing c at none_there) safe =
      Keeps-IsSafe u (returned _) c.store c safe (same_index-Keeps _ _ safe.shards refl) (λ p. cc)
  Step-IsSafe {u} (find c n at spot) safe =
      Keeps-IsSafe u found c.store c safe (same_index-Keeps _ _ safe.shards refl) (λ p. cc)
  Step-IsSafe {u} (conflict c n at spot other) safe =
      Keeps-IsSafe u (returned _) c.store c safe (same_index-Keeps _ _ safe.shards refl) (λ p. cc)
  Step-IsSafe {u} (swap c n at spot same) safe = swap-IsSafe u n c safe spot same
  Step-IsSafe {u} (append c t at ran) safe =
      Keeps-IsSafe u (noting at_position) t c safe
        (same_index-Keeps _ _ safe.shards
          (ap (λ r. r.1.indexs) (sym ran) ∙ append-indexs _ _ c.store))
        (λ p. ap is_past at)
  Step-IsSafe {u} (fail c e t at ran) safe =
      Keeps-IsSafe u (returned (err e)) t c safe
        (same_index-Keeps _ _ safe.shards
          (ap (λ r. r.1.indexs) (sym ran) ∙ append-indexs _ _ c.store))
        (λ p. ap is_past at)
  Step-IsSafe {u} (note c f n at spot) safe =
      Keeps-IsSafe u (after_field f) _ c safe
        (store_inode-Keeps c.store (inum u) n _ safe.shards spot
          (set_field-mvcc f env (calls u) c.store n))
        (λ p. ap is_past at)
  Step-IsSafe {u} (count c at) safe =
      Keeps-IsSafe u counted _ c safe (same_index-Keeps _ _ safe.shards refl) (λ p. ap is_past at)
  Step-IsSafe {u} (keep c at room) safe =
      Keeps-IsSafe u (returned (ok tt)) c.store c safe (same_index-Keeps _ _ safe.shards refl)
        (λ p. ap is_past at)
  Step-IsSafe {u} (fill c at room) safe =
      Keeps-IsSafe u full c.store c safe (same_index-Keeps _ _ safe.shards refl)
        (λ p. ap is_past at)
  Step-IsSafe {u} (rotate c r t at ran) safe =
      Keeps-IsSafe u (returned r) t c safe
        (same_index-Keeps _ _ safe.shards (ap (λ x. x.1.indexs) (sym ran) ∙ create-indexs c.store))
        (λ p. ap is_past at)

  Steps-IsSafe : {c d : Updates} → Steps env calls c d → IsSafe c → IsSafe d
  Steps-IsSafe here safe = safe
  Steps-IsSafe (after u step steps) safe = Steps-IsSafe steps (Step-IsSafe step safe)

  -- Whatever steps calls of UpdateSegmentWithCAS make, in any order, from a store of which every
  -- shard is there, where the version after each expected one is a uint64: of two calls for keys with
  -- one inode number that expect the same version, one at most returns without an error.
  pub Steps-once :
      (s : LogStructuredFs)
      → HasShards s.indexs
      → (c : Updates) → Steps env calls (at_start s) c
      → (u v : ℕ) → u ≢ v
      → inode_num env.hashes (calls u).key ≡ inode_num env.hashes (calls v).key
      → (calls u).expected ≡ (calls v).expected
      → c.phases u ≡ returned (ok tt)
      → c.phases v ≢ returned (ok tt)
  Steps-once s shards c steps u v ne same_inum same_version ended =
      let safe = Steps-IsSafe steps (at_start-IsSafe s shards) in
      λ ended'. safe.apart u v ne (ap is_past ended) (ap is_past ended') same_inum same_version

-- ===== src/Vfs/Updates/Keeps.antt =====
-- Steps of an update that raise no version.
use wiredkv.Prelude.{
  ℕ, ◌+◌, ◌%◌, ◌^◌, ◌≡◌, refl, sym, ap, ◌∙◌, Option, none, some, nat_eq, nat_beq, ◌==◌, ==→≡,
  Bool-cases, inl, inr, length,
}
use mathlib.Core.Path.{subst}
use wiredkv.Prelude.Bytes.{Bytes}
use wiredkv.Vfs.FileName.{generate_file_name}
use wiredkv.Vfs.Disk.{File, write, open_file}
use wiredkv.Vfs.Codec.{INode}
use wiredkv.Vfs.Fs.{
  Env, LogStructuredFs, ◌>>=◌, ◌>>◌, select_shard, entry_of, find_inode, store_inode,
}
use wiredkv.Prelude.Map.{insert}
use wiredkv.Vfs.Lfs.{append_to_active_region, create_active_region, data_file_metadata}
use wiredkv.Vfs.Lfs.Index.{HasShards, update_shard-HasShards, find_inode-store_inode}
use wiredkv.Vfs.Lfs.Faults.{Result-cases}
use wiredkv.Vfs.Updates.{
  Update, Field, at_position, at_created_at, at_expired_at, at_region_id, at_length, set_field,
}

pub append-indexs :
    (o : Option File) (b : Bytes) (s : LogStructuredFs)
    → (append_to_active_region o b s).1.indexs ≡ s.indexs
unfolding append_to_active_region ◌>>=◌
append-indexs none b s = refl
append-indexs (some f) b s = elim (Result-cases (write f b s.disk).0) [
  | inl (n, wrote) ↦ rw wrote refl
  | inr (e, failed) ↦ rw failed refl
]

pub create-indexs : (s : LogStructuredFs) → (create_active_region s).1.indexs ≡ s.indexs
unfolding create_active_region ◌>>=◌ ◌>>◌
create-indexs s =
    let id = (s.region_id + 1) % 2 ^ 64 in
    elim (Result-cases (generate_file_name id)) [
      | inr (e, no_name) ↦ rw no_name refl
      | inl (name, named) ↦ elim (Result-cases (open_file name s.disk).0) [
        | inr (e, closed) ↦ rw (named, closed) refl
        | inl (active, opened) ↦
            elim (Result-cases (write active data_file_metadata (open_file name s.disk).1).0) [
              | inr (e, unwritten) ↦ rw (named, opened, unwritten) refl
              | inl (n, wrote) ↦ elim (Bool-cases (nat_beq n (length data_file_metadata))) [
                | inr fewer ↦ rw (named, opened, wrote, fewer) refl
                | inl whole ↦ rw (named, opened, wrote, whole) refl
              ]
            ]
      ]
    ]

-- Every shard is there, and each entry has its version from one that was there.
pub record Keeps (s t : LogStructuredFs) : Type 0 where
  pub shards : HasShards t.indexs
  pub version :
      (j : ℕ) (n' : INode)
      → find_inode t j ≡ some n'
      → (n : INode) × (find_inode s j ≡ some n) × (n.mvcc ≡ n'.mvcc)

pub same_index-Keeps :
    (s t : LogStructuredFs) → HasShards s.indexs → t.indexs ≡ s.indexs → Keeps s t
unfolding find_inode
same_index-Keeps s t shards same = record {
  shards = subst HasShards (sym same) shards;
  version = λ j n' p. (n', ap (λ ms. entry_of (select_shard ms j) j) (sym same) ∙ p, refl);
}

pub store_inode-HasShards :
    (inum : ℕ) (n : INode) (s : LogStructuredFs)
    → HasShards s.indexs
    → HasShards (store_inode inum n s).indexs
unfolding store_inode
store_inode-HasShards inum n s shards = update_shard-HasShards (insert inum n) inum s.indexs shards

pub store_inode-Keeps :
    (s : LogStructuredFs) (inum : ℕ) (n k : INode)
    → HasShards s.indexs
    → find_inode s inum ≡ some n
    → k.mvcc ≡ n.mvcc
    → Keeps s (store_inode inum k s)
store_inode-Keeps s inum n k shards spot same = record {
  shards = store_inode-HasShards inum k s shards;
  version = λ j n' p.
      let q = sym (find_inode-store_inode s shards inum j k) ∙ p in
      elim (Bool-cases (inum == j)) [
        | inl at_inum ↦
            let r : some k ≡ some n' = rw at_inum at q in
            let e : k ≡ n' = cc in
            (n, ap (find_inode s) (sym (==→≡ inum j at_inum)) ∙ spot, sym same ∙ ap (λ i. i.mvcc) e)
        | inr other ↦ (n', rw other at q, refl)
      ];
}

pub set_field-mvcc :
    (f : Field) (env : Env) (call : Update) (s : LogStructuredFs) (n : INode)
    → (set_field f call.newseg s n).mvcc ≡ n.mvcc
set_field-mvcc at_position env call s n = refl
set_field-mvcc at_created_at env call s n = refl
set_field-mvcc at_expired_at env call s n = refl
set_field-mvcc at_region_id env call s n = refl
set_field-mvcc at_length env call s n = refl

-- ===== src/Vfs/Lfs/Append.antt =====
-- Adding a record at the end of the active region keeps the invariant, and so does changing the
-- index where the entry points to a stored record.
use mathlib.Core.List.{append-nil}
use mathlib.Core.Path.{subst₂}
use wiredkv.Prelude.{
  ℕ, ◌+◌, ◌^◌, ◌<◌, ◌≡◌, sym, ap, ◌⊎◌, ==→≡, ◌∙◌, arith, ◌++◌, [], List, Option, none, some,
  list_eq, nat_eq, ◌==◌, if◌then◌else◌, Bool-cases, inl, inr, length-append, length, list_beq_iff,
  ==-self, nat_beq_iff,
}
use wiredkv.Prelude.Bytes.{Bytes}
use wiredkv.Prelude.Map.{lookup, insert, delete}
use wiredkv.Vfs.Segment.{Segment, size}
use wiredkv.Vfs.Codec.{INode, serialized_segment}
use wiredkv.Vfs.Codec.SegmentTrip.{IsSegment, length-serialized_segment}
use wiredkv.Vfs.FileName.{format_data_file_name}
use wiredkv.Vfs.Disk.{File, append_file, contents}
use wiredkv.Vfs.Disk.Laws.{lookup-append_file}
use wiredkv.Vfs.Fs.{
  Env, LogStructuredFs, IndexMap, update_shard, find_inode, store_inode, delete_inode, advance,
}
use wiredkv.Vfs.Lfs.{data_file_metadata, index_file_name}
use wiredkv.Vfs.Lfs.Index.{
  HasShards, update_shard-HasShards, find_inode-store_inode, find_inode-delete_inode,
}
use wiredkv.Vfs.Lfs.Placed.{IsPlaced, store_inode-IsPlaced, delete_inode-IsPlaced}
use wiredkv.Vfs.Lfs.Stored.{StoredAs, Stored, Extends, Extends-refl, Stored-Extends}
use wiredkv.Vfs.Lfs.Runs.{appended}
use wiredkv.Vfs.Lfs.WellFormed.{WellFormed}

module _ (env : Env) (s : LogStructuredFs) (w : WellFormed env s) (b : Bytes) (n : ℕ)
    (size_is : length b ≡ n) (room : s.offset + n < 2 ^ 64) where
  -- The state after `n` bytes were added to the active region.
  abbrev pub longer : LogStructuredFs
  longer = advance n (appended w.file b s)

  pub lookup-longer :
      (g : File)
      → lookup g longer.disk.files
        ≡ (if w.file == g then some (w.text ++ b) else lookup g s.disk.files)
  unfolding advance contents
  lookup-longer g = rw (lookup-append_file w.file g b s.disk, w.written)

  pub longer-Extends : Extends s longer
  unfolding advance
  longer-Extends = record {
    regions = λ id f p. p;
    files = λ f c p. elim (Bool-cases (w.file == f)) [
      | inl same ↦ (b, lookup-longer f ∙ rw same (ground (arith, list_beq_iff w.file f, w.written)))
      | inr other ↦ ([], lookup-longer f ∙ rw (other, append-nil) p)
    ];
  }

  longer-fresh :
      (id : ℕ)
      → s.region_id < id
      → id < 10 ^ 9
      → lookup (format_data_file_name id) longer.disk.files ≡ none
  longer-fresh id above fits =
      let name = format_data_file_name id in
      let absent = w.fresh id above fits in
      lookup-longer name ∙ ground (arith, list_beq_iff w.file name, w.written, absent)

  longer-headed :
      (f : File) (c : Bytes)
      → lookup f longer.disk.files ≡ some c
      → (rest : Bytes) × (c ≡ data_file_metadata ++ rest)
  longer-headed f c p =
      let q = sym (lookup-longer f) ∙ p in
      elim (Bool-cases (w.file == f)) [
        | inl same ↦
            let r : some (w.text ++ b) ≡ some c = rw same at q in
            let e : c ≡ w.text ++ b = cc in
            let (rest, h) = w.headed w.file w.text w.written in (rest ++ b, e ∙ ap (λ t. t ++ b) h)
        | inr other ↦ w.headed f c (rw other at q)
      ]

  longer-known :
      (f : File) (c : Bytes)
      → lookup f longer.disk.files ≡ some c
      → (f ≡ index_file_name) ⊎ ((id : ℕ) × (lookup id s.regions ≡ some f))
  longer-known f c p =
      let q = sym (lookup-longer f) ∙ p in
      elim (Bool-cases (w.file == f)) [
        | inl same ↦ inr (s.region_id, w.current ∙ ap some (==→≡ w.file f same))
        | inr other ↦ w.known f c (rw other at q)
      ]

  longer-present :
      (id : ℕ) (f : File)
      → lookup id s.regions ≡ some f
      → (c : Bytes) × (lookup f longer.disk.files ≡ some c)
  longer-present id f p =
      let (c, r) = w.present id f p in let (more, x) = longer-Extends.files f c r in (c ++ more, x)

  pub longer-WellFormed : WellFormed env longer
  unfolding advance find_inode append_file
  longer-WellFormed = record {
    shards = w.shards;
    placed = w.placed;
    healthy = w.healthy;
    file = w.file;
    text = w.text ++ b;
    active = w.active;
    current = w.current;
    written = lookup-longer w.file ∙ rw (==-self w.file);
    offset_is = omega (arith, length-append w.text b, size_is, w.offset_is, room);
    below = w.below;
    named = w.named;
    headed = longer-headed;
    known = longer-known;
    present = longer-present;
    fresh = longer-fresh;
    stored = λ inum n p. Stored-Extends (w.stored inum n p) longer-Extends;
  }

module _ (env : Env) (s : LogStructuredFs) (w : WellFormed env s) (seg : Segment)
    (v : IsSegment seg) (room : s.offset + size seg < 2 ^ 64) where
  abbrev pub ser : Bytes
  ser = serialized_segment env.hashes seg

  pub length_is : length ser ≡ size seg
  length_is = length-serialized_segment env.hashes seg v

  -- The state after the record was added.
  abbrev pub grown : LogStructuredFs
  grown = longer env s w ser (size seg) length_is room

  pub lookup-grown :
      (g : File)
      → lookup g grown.disk.files
        ≡ (if w.file == g then some (w.text ++ ser) else lookup g s.disk.files)
  lookup-grown g = lookup-longer env s w ser (size seg) length_is room g

  pub grown-Extends : Extends s grown
  grown-Extends = longer-Extends env s w ser (size seg) length_is room

  pub grown-WellFormed : WellFormed env grown
  grown-WellFormed = longer-WellFormed env s w ser (size seg) length_is room

  -- An entry at the old end points to the record.
  pub grown-StoredAs :
      (n : INode) → n.region_id ≡ s.region_id → n.position ≡ s.offset → StoredAs env grown n seg
  unfolding advance
  grown-StoredAs n region position = record {
    file = w.file;
    pre = w.text;
    post = [];
    region = rw region w.current;
    bytes = lookup-grown w.file ∙ rw (==-self w.file, append-nil);
    position = position ∙ w.offset_is;
    valid = v;
  }

module _ (env : Env) (s : LogStructuredFs) (w : WellFormed env s) where
  -- Any change of the index that leaves each entry with a stored record.
  pub changed_index :
      (indexs : List (Option IndexMap))
      → HasShards indexs
      → IsPlaced indexs
      → ((j : ℕ) (n : INode)
          → find_inode (record s { indexs = indexs }) j ≡ some n
          → Stored env s j n)
      → WellFormed env (record s { indexs = indexs })
  changed_index indexs shards placed stored = record {
    shards = shards;
    placed = placed;
    healthy = w.healthy;
    file = w.file;
    text = w.text;
    active = w.active;
    current = w.current;
    written = w.written;
    offset_is = w.offset_is;
    below = w.below;
    named = w.named;
    headed = w.headed;
    known = w.known;
    present = w.present;
    fresh = w.fresh;
    stored = λ j n p.
        Stored-Extends (stored j n p)
          (record { regions = λ id f q. q; files = (Extends-refl s).files });
  }

  Stored-or_new :
      (inum j : ℕ) (n k : INode)
      → Stored env s inum n
      → (if inum == j then some n else find_inode s j) ≡ some k
      → Stored env s j k
  Stored-or_new inum j n k st p = elim (Bool-cases (inum == j)) [
    | inl same ↦
        let q : some n ≡ some k = rw same at p in
        let e : n ≡ k = cc in subst₂ (Stored env s) ((nat_beq_iff inum j).0 same) e st
    | inr other ↦ w.stored j k (rw other at p)
  ]

  pub store_inode-WellFormed :
      (inum : ℕ) (n : INode) → Stored env s inum n → WellFormed env (store_inode inum n s)
  unfolding store_inode
  store_inode-WellFormed inum n st =
      changed_index (update_shard (insert inum n) inum s.indexs)
        (update_shard-HasShards (insert inum n) inum s.indexs w.shards)
        (store_inode-IsPlaced inum n s w.placed)
        (λ j k p.
          Stored-or_new inum j n k st (sym (find_inode-store_inode s w.shards inum j n) ∙ p))

  pub delete_inode-WellFormed : (inum : ℕ) → WellFormed env (delete_inode inum s)
  unfolding delete_inode
  delete_inode-WellFormed inum =
      changed_index (update_shard (delete inum) inum s.indexs)
        (update_shard-HasShards (delete inum) inum s.indexs w.shards)
        (delete_inode-IsPlaced inum s w.placed)
        (λ j k p.
          let q = sym (find_inode-delete_inode s w.shards inum j) ∙ p in
          w.stored j k (ground (arith, q)))

-- The index is no part of what a step adds to.
pub store_inode-Extends :
    (inum : ℕ) (n : INode) (s : LogStructuredFs) → Extends s (store_inode inum n s)
unfolding store_inode
store_inode-Extends inum n s = record { regions = λ id f p. p; files = (Extends-refl s).files }

pub delete_inode-Extends : (inum : ℕ) (s : LogStructuredFs) → Extends s (delete_inode inum s)
unfolding delete_inode
delete_inode-Extends inum s = record { regions = λ id f p. p; files = (Extends-refl s).files }

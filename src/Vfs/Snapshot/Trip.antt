-- ===== src/Vfs/Snapshot/Trip.antt =====
-- The index that is read back from an exported snapshot.
use mathlib.Core.List.{append_assoc}
use wiredkv.Prelude.{
  ℕ, zero, suc, ◌+◌, ◌^◌, ◌<◌, ◌≡◌, refl, sym, ap, ◌∙◌, arith, List, [], ◌∷◌, ◌++◌, Option, none,
  some, Bool, true, false, ◌==◌, nat_eq, list_eq, Result, ok, leb, le→leb, nat_beq, if◌then◌else◌,
  length, length-append, All, Option-cases, inl, inr, nat_beq_iff, Bool-cases,
}
use wiredkv.Prelude.Bytes.{Bytes}
use wiredkv.Prelude.Map.{insert}
use wiredkv.Vfs.Hash.{Hashes, IsHashes}
use wiredkv.Vfs.Codec.{INode, serialized_index, read_at}
use wiredkv.Vfs.Codec.Parts.{read_at-append}
use wiredkv.Vfs.Codec.IndexTrip.{
  IsINode, length-serialized_index, deserialized_index-serialized_index,
}
use wiredkv.Vfs.Fs.{LogStructuredFs, IndexMap, find_inode, store_inode}
use wiredkv.Vfs.Lfs.{data_file_metadata}
use wiredkv.Vfs.Lfs.Index.{HasShards, shard_present, update_shard-HasShards, find_inode-store_inode}
use wiredkv.Vfs.Lfs.Placed.{store_inode-IsPlaced, IsPlaced}
use wiredkv.Vfs.Lfs.Fresh.{
  empty_shards-IsPlaced, empty_shards, found_in_empty, empty_shards-HasShards,
}
use wiredkv.Vfs.Snapshot.{import_entry, import_index, recover_snapshot}
use wiredkv.Vfs.Snapshot.Entries.{Entry, entries, has_key, entries_found, find_inode-has_key}
use wiredkv.Vfs.Snapshot.Export.{laid_entries}

abbrev pub reset : INode → INode
reset n = record n { mvcc = 0 }

-- The numbers and fields of the entries have their Go types.
abbrev pub AreTyped : List Entry → Type 0
AreTyped es = All (λ (e : Entry). (e.0 < 2 ^ 64) × IsINode e.1) es

-- What is found for a number after the entries were stored, when it was `o` before.
abbrev pub imported : ℕ → List Entry → Option INode → Option INode
imported j [] o = o
imported j ((i, n) ∷ es) o = imported j es (if i == j then some (reset n) else o)

-- An import that succeeds with the entries stored over those of `s`.
record Imports (s : LogStructuredFs) (es : List Entry) (result : Result (List (Option IndexMap)))
    : Type 0 where
  pub indexs : List (Option IndexMap)
  pub returned : result ≡ ok indexs
  pub shards : HasShards indexs
  pub placed : IsPlaced indexs
  pub found : (j : ℕ) → find_inode (record s { indexs = indexs }) j ≡ imported j es (find_inode s j)

import_entry_lem :
    (s : LogStructuredFs) (i : ℕ) (n : INode)
    → HasShards s.indexs
    → import_entry (i, n) s.indexs ≡ ok (store_inode i n s).indexs
unfolding import_entry store_inode
import_entry_lem s i n h = let (m, e) = shard_present s.indexs i h in rw (e)

module _ (h : Hashes) (hv : IsHashes h) where
  import_index-Imports :
      (es : List Entry) (s : LogStructuredFs) (fuel : ℕ) (pre file : Bytes) (offset : ℕ)
      → AreTyped es
      → HasShards s.indexs
      → IsPlaced s.indexs
      → file ≡ pre ++ laid_entries h es
      → offset ≡ length pre
      → length file < offset + fuel
      → Imports s es (import_index h fuel file offset s.indexs)
  unfolding import_index store_inode
  import_index-Imports es s zero pre file offset typed hs hp shape at enough =
      absurd (omega (arith, shape, ap length shape, length-append pre (laid_entries h es)))
  import_index-Imports [] s (suc fuel) pre file offset typed hs hp shape at enough =
      let over : leb (length file) offset ≡ true =
        le→leb (length file) offset (omega (arith, ap length shape, length-append pre [])) in
      rw (over)
        (record { indexs = s.indexs; returned = refl; shards = hs; placed = hp; found = λ j. refl })
  import_index-Imports ((i, n) ∷ es) s (suc fuel) pre file offset ((small, v), typed) hs hp shape at
        enough =
      let b = serialized_index h i n in
      let s' = store_inode i (reset n) s in
      let all_length = length-append pre (b ++ laid_entries h es) in
      let own_length = length-append b (laid_entries h es) in
      let size = length-serialized_index h i n in
      let len = ap length shape in
      let inside : leb (length file) offset ≡ false =
        ground (arith, at, len, all_length, own_length, size) in
      let got : read_at file offset 48 ≡ ok b =
        ap (λ f. read_at f offset 48) shape
        ∙ read_at-append pre b (laid_entries h es) offset 48 at (sym size) in
      let rest =
        import_index-Imports es s' fuel (pre ++ b) file (offset + 48) typed
          (update_shard-HasShards (insert i (reset n)) i s.indexs hs)
          (store_inode-IsPlaced i (reset n) s hp)
          (shape ∙ sym (append_assoc pre b (laid_entries h es)))
          (omega (arith, at, length-append pre b, size)) (omega (arith, enough)) in
      rw
        (
          inside,
          got,
          deserialized_index-serialized_index h i n hv small v,
          import_entry_lem s i (reset n) hs,
        )
        (record {
          indexs = rest.indexs;
          returned = rest.returned;
          shards = rest.shards;
          placed = rest.placed;
          found =
              λ j. rest.found j ∙ ap (imported j es) (find_inode-store_inode s hs i j (reset n));
        })

abbrev pub reset_found : Option INode → Option INode
reset_found none = none
reset_found (some n) = some (reset n)

if_same : (b : Bool) (o : Option INode) → (if b then o else o) ≡ o
if_same true o = refl
if_same false o = refl

imported_lem :
    (f : ℕ → Option INode) (j : ℕ) (es : List Entry) (o : Option INode)
    → All (λ (e : Entry). f e.0 ≡ some e.1) es
    → imported j es o ≡ (if has_key j es then reset_found (f j) else o)
imported_lem f j [] o all = refl
imported_lem f j ((i, n) ∷ es) o (p, all) =
    let rest = imported_lem f j es (if i == j then some (reset n) else o) all in
    rest ∙ elim (Bool-cases (nat_beq i j)) [
      | inl same ↦
          let q : f j ≡ some n = ap f (sym ((nat_beq_iff i j).0 same)) ∙ p in
          rw (same, q) (if_same (has_key j es) (some (reset n)))
      | inr other ↦ rw (other) refl
    ]

found_reset :
    (s : LogStructuredFs) (j : ℕ)
    → IsPlaced s.indexs
    → imported j (entries s.indexs) none ≡ reset_found (find_inode s j)
found_reset s j placed =
    imported_lem (find_inode s) j (entries s.indexs) none (entries_found s placed)
    ∙ elim (Option-cases (find_inode s j)) [
      | inl p ↦ rw p (if_same (has_key j (entries s.indexs)) none)
      | inr (n, p) ↦ rw (find_inode-has_key s j n p)
    ]

-- What a snapshot of `s` is restored to over the files of `t`: its entries with their versions at 0.
pub record IsSnapshotOf (s t : LogStructuredFs) (result : Result (List (Option IndexMap)))
    : Type 0 where
  pub indexs : List (Option IndexMap)
  pub returned : result ≡ ok indexs
  pub shards : HasShards indexs
  pub placed : IsPlaced indexs
  pub found : (j : ℕ) → find_inode (record t { indexs = indexs }) j ≡ reset_found (find_inode s j)

pub recover_snapshot-IsSnapshotOf :
    (h : Hashes) (s t : LogStructuredFs)
    → IsHashes h
    → AreTyped (entries s.indexs)
    → IsPlaced s.indexs
    → t.indexs ≡ empty_shards
    → IsSnapshotOf s t
        (recover_snapshot h (data_file_metadata ++ laid_entries h (entries s.indexs)) t.indexs)
unfolding recover_snapshot
recover_snapshot-IsSnapshotOf h s t hv typed placed empty =
    let file = data_file_metadata ++ laid_entries h (entries s.indexs) in
    let shards : HasShards t.indexs = rw empty empty_shards-HasShards in
    let placed_shards : IsPlaced t.indexs = rw empty empty_shards-IsPlaced in
    let run =
      import_index-Imports h hv (entries s.indexs) t (suc (length file)) data_file_metadata file
        (length data_file_metadata) typed shards placed_shards refl refl (omega arith) in
    record {
      indexs = run.indexs;
      returned = run.returned;
      shards = run.shards;
      placed = run.placed;
      found = λ j.
          run.found j
          ∙ ap (imported j (entries s.indexs)) (found_in_empty t empty j)
          ∙ found_reset s j placed;
    }

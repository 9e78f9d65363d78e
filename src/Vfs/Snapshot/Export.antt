-- ===== src/Vfs/Snapshot/Export.antt =====
-- An export writes the metadata and the entries of the index to the index file.
use mathlib.Core.List.{append-nil, append_assoc}
use wiredkv.Prelude.{
  ℕ, suc, ◌^◌, ◌<◌, ◌≡◌, refl, sym, ap, ◌∙◌, arith, List, [], ◌∷◌, ◌++◌, Option, none, some, false,
  ◌==◌, nat_eq, list_eq, Result, ok, length, get_elem?, All, ==-self,
}
use wiredkv.Prelude.Bytes.{Bytes}
use wiredkv.Prelude.Map.{lookup, insert, lookup-insert, lookup-insert_self}
use wiredkv.Vfs.Hash.{Hashes}
use wiredkv.Vfs.Codec.{INode, serialized_index}
use wiredkv.Vfs.Codec.IndexTrip.{IsINode}
use wiredkv.Vfs.Disk.{File, Disk, append_file, truncate_file, contents}
use wiredkv.Vfs.Disk.Laws.{IsHealthy, write_healthy, lookup-append_file}
use wiredkv.Vfs.Fs.{Env, LogStructuredFs, IndexMap}
use wiredkv.Vfs.Lfs.{index_file_name, data_file_metadata}
use wiredkv.Vfs.Lfs.Index.{HasShards}
use wiredkv.Vfs.Snapshot.{export_entries, export_shards, export_snapshot_index, export_to}
use wiredkv.Vfs.Snapshot.Entries.{Entry, entries}

-- The bytes of the entries, one after the other.
abbrev pub laid_entries : Hashes → List Entry → Bytes
laid_entries h [] = []
laid_entries h ((inum, n) ∷ es) = serialized_index h inum n ++ laid_entries h es

abbrev pub reset : INode → INode
reset n = record n { mvcc = 0 }

-- The numbers and fields of the entries have their Go types.
abbrev pub AreTyped : List Entry → Type 0
AreTyped es = All (λ (e : Entry). (e.0 < 2 ^ 64) × IsINode e.1) es

-- A run that adds bytes to the end of a file and succeeds.
record Adds (fd : File) (b : Bytes) (d : Disk) (result : Result (Unit {0}) × Disk) : Type 0 where
  after : Disk
  returned : result ≡ (ok tt, after)
  healthy : IsHealthy after
  text : (c : Bytes) → lookup fd d.files ≡ some c → lookup fd after.files ≡ some (c ++ b)
  others : (g : File) → (fd == g) ≡ false → lookup g after.files ≡ lookup g d.files

abbrev pub IsPresent : Option IndexMap → Type 0
IsPresent none = ⊥
IsPresent (some m) = Unit {0}

abbrev pub AllPresent : List (Option IndexMap) → Type 0
AllPresent ms = All IsPresent ms

all_present :
    (ms : List (Option IndexMap))
    → ((i : ℕ) → i < length ms → (m : IndexMap) × (get_elem? ms i ≡ some (some m)))
    → AllPresent ms
all_present [] each = tt
all_present (none ∷ ms) each = let (m, e) = each 0 (omega arith) in cc
all_present (some k ∷ ms) each = (tt, all_present ms (λ i lt. each (suc i) (omega (arith, lt))))

laid_entries-append :
    (h : Hashes) (xs ys : List Entry)
    → laid_entries h (xs ++ ys) ≡ laid_entries h xs ++ laid_entries h ys
laid_entries-append h [] ys = refl
laid_entries-append h ((inum, n) ∷ xs) ys =
    ap (λ b. serialized_index h inum n ++ b) (laid_entries-append h xs ys)
    ∙ sym (append_assoc (serialized_index h inum n) (laid_entries h xs) (laid_entries h ys))

added :
    (fd : File) (b : Bytes) (d : Disk) (c : Bytes)
    → lookup fd d.files ≡ some c
    → lookup fd (append_file fd b d).files ≡ some (c ++ b)
unfolding contents
added fd b d c p = lookup-append_file fd fd b d ∙ rw (==-self fd, p) refl

append_file-IsHealthy :
    (fd : File) (b : Bytes) (d : Disk) → IsHealthy d → IsHealthy (append_file fd b d)
unfolding append_file
append_file-IsHealthy fd b d p = p

module _ (h : Hashes) (fd : File) where
  export_entries-Adds :
      (m : List Entry) (d : Disk) (c : Bytes)
      → IsHealthy d
      → lookup fd d.files ≡ some c
      → Adds fd (laid_entries h m) d (export_entries h fd m d)
  unfolding export_entries
  export_entries-Adds [] d c healthy at = record {
    after = d;
    returned = refl;
    healthy = healthy;
    text = λ c' p. p ∙ ap some (sym (append-nil c'));
    others = λ g ne. refl;
  }
  export_entries-Adds ((inum, n) ∷ m) d c healthy at =
      let b = serialized_index h inum n in
      let d' = append_file fd b d in
      let at' : lookup fd d'.files ≡ some (c ++ b) = added fd b d c at in
      let rest = export_entries-Adds m d' (c ++ b) (append_file-IsHealthy fd b d healthy) at' in
      rw (write_healthy fd b d healthy) (record {
        after = rest.after;
        returned = rest.returned;
        healthy = rest.healthy;
        text = λ c' p.
            rest.text (c' ++ b) (added fd b d c' p)
            ∙ ap some (append_assoc c' b (laid_entries h m));
        others = λ g ne. rest.others g ne ∙ lookup-append_file fd g b d ∙ rw ne refl;
      })

  export_shards-Adds :
      (ms : List (Option IndexMap)) (d : Disk) (c : Bytes)
      → AllPresent ms
      → IsHealthy d
      → lookup fd d.files ≡ some c
      → Adds fd (laid_entries h (entries ms)) d (export_shards h fd ms d)
  unfolding export_shards
  export_shards-Adds [] d c all healthy at = record {
    after = d;
    returned = refl;
    healthy = healthy;
    text = λ c' p. p ∙ ap some (sym (append-nil c'));
    others = λ g ne. refl;
  }
  export_shards-Adds (none ∷ ms) d c (e, all) healthy at = absurd e
  export_shards-Adds (some m ∷ ms) d c (e, all) healthy at =
      let first = export_entries-Adds m d c healthy at in
      let rest =
        export_shards-Adds ms first.after (c ++ laid_entries h m) all first.healthy
          (first.text c at) in
      rw (first.returned) (record {
        after = rest.after;
        returned = rest.returned;
        healthy = rest.healthy;
        text = λ c' p.
            rest.text (c' ++ laid_entries h m) (first.text c' p)
            ∙ ap some (
                append_assoc c' (laid_entries h m) (laid_entries h (entries ms))
                ∙ ap (λ b. c' ++ b) (sym (laid_entries-append h m (entries ms))));
        others = λ g ne. rest.others g ne ∙ first.others g ne;
      })

truncate_file_healthy :
    (f : File) (d : Disk)
    → IsHealthy d
    → truncate_file f d ≡ (ok f, record d { files = insert f [] d.files })
unfolding truncate_file
truncate_file_healthy f d h = ground arith

exported :
    (h : Hashes) (ms : List (Option IndexMap)) (d : Disk)
    → AllPresent ms
    → IsHealthy d
    → Adds index_file_name
        (data_file_metadata ++ laid_entries h (entries ms))
        (record d { files = insert index_file_name [] d.files })
        (export_to h ms (truncate_file index_file_name d))
exported h ms d all healthy =
    let f = index_file_name in
    let b = data_file_metadata in
    let d0 : Disk = record d { files = insert f [] d.files } in
    let empty : lookup f d0.files ≡ some [] = lookup-insert_self f [] d.files in
    let rest =
      export_shards-Adds h f ms (append_file f b d0) b all (append_file-IsHealthy f b d0 healthy)
        (added f b d0 [] empty) in
    rw (truncate_file_healthy f d healthy, write_healthy f b d0 healthy)
      (record {
        after = rest.after;
        returned = rest.returned;
        healthy = rest.healthy;
        text = λ c p.
            rest.text (c ++ b) (added f b d0 c p)
            ∙ ap some (append_assoc c b (laid_entries h (entries ms)));
        others = λ g ne. rest.others g ne ∙ lookup-append_file f g b d0 ∙ rw ne refl;
      })

-- What an export leaves: the metadata and after it the entries, each once, in the index file, and all
-- other files as they were.
pub record Exports (env : Env) (s : LogStructuredFs) (result : Result (Unit {0}) × LogStructuredFs)
    : Type 0 where
  pub disk : Disk
  pub returned : result ≡ (ok tt, record s { disk = disk })
  pub healthy : IsHealthy disk
  pub text :
      lookup index_file_name disk.files
      ≡ some (data_file_metadata ++ laid_entries env.hashes (entries s.indexs))
  pub others :
      (g : File) → (index_file_name == g) ≡ false → lookup g disk.files ≡ lookup g s.disk.files

pub export_snapshot_index-Exports :
    (env : Env) (s : LogStructuredFs)
    → HasShards s.indexs
    → IsHealthy s.disk
    → Exports env s (export_snapshot_index env s)
unfolding export_snapshot_index
export_snapshot_index-Exports env s hs healthy =
    let f = index_file_name in
    let run =
      exported env.hashes s.indexs s.disk
        (all_present s.indexs (λ i lt. hs.each i (omega (arith, lt, hs.count)))) healthy in
    record {
      disk = run.after;
      returned = rw (run.returned) refl;
      healthy = run.healthy;
      text = run.text [] (lookup-insert_self f [] s.disk.files);
      others = λ g ne. run.others g ne ∙ lookup-insert f g [] s.disk.files ∙ rw ne refl;
    }

-- ===== src/Vfs/Fs.antt =====
-- The state of the storage engine, the type LogStructuredFS of vfs/lfs.go, and the actions on it:
-- an operation returns a result and the state that it leaves, also when it fails. Each operation
-- runs alone; Updates is about updates that do not.
use wiredkv.Prelude.{ℕ, Option, none, some, List, Result, ok, err, get_elem?, set, ◌%◌, ◌^◌, ◌+◌}
use wiredkv.Prelude.Bytes.{Bytes}
use wiredkv.Prelude.Map.{Map, lookup, insert, delete}
use wiredkv.Prelude.{nat_eq}
use wiredkv.Vfs.Hash.{Hashes}
use wiredkv.Vfs.Transformer.{Transformer, new_transformer}
use wiredkv.Vfs.Codec.{INode}
use wiredkv.Vfs.Disk.{File, Disk}

-- The package variables that the operations read.
pub record Env : Type 0 where
  pub hashes : Hashes
  pub transformer : Transformer
  pub region_threshold : ℕ

-- The package variables of a process that opens a store: it sets the transformer afterwards.
abbrev pub fresh_env : Env → Env
fresh_env env = record env { transformer = new_transformer }

abbrev pub index_shard : ℕ
index_shard = 10

pub data GcState : Type 0 where
  gc_init gc_active gc_inactive : GcState

abbrev pub IndexMap : Type 0
IndexMap = Map ℕ INode

-- A shard that is a nil pointer is `none`, and so is `active` before a region is open. The disk is
-- the directory's, which the Go value reaches by its path.
pub record LogStructuredFs : Type 0 where
  pub offset : ℕ
  pub region_id : ℕ
  pub directory : Bytes
  pub indexs : List (Option IndexMap)
  pub active : Option File
  pub regions : Map ℕ File
  pub gcstate : GcState
  pub dirty_region : List File
  pub disk : Disk

abbrev pub Fs : Type 0 → Type 0
Fs A = LogStructuredFs → Result A × LogStructuredFs

abbrev pub proceed :
    {A B : Type 0} → Result A × LogStructuredFs → (A → Fs B) → Result B × LogStructuredFs
proceed (ok a, s) f = f a s
proceed (err e, s) f = (err e, s)

infixl 5 ◌>>=◌ ◌>>◌
unfoldable pub ◌>>=◌ : {A B : Type 0} → Fs A → (A → Fs B) → Fs B
◌>>=◌ m f s = proceed (m s) f

unfoldable pub ◌>>◌ : {B : Type 0} → Fs (Unit {0}) → Fs B → Fs B
◌>>◌ m k s = proceed (m s) (λ _. k)

abbrev pub lift : {A : Type 0} → Result A → Fs A
lift r s = (r, s)

abbrev pub modify : (LogStructuredFs → LogStructuredFs) → Fs (Unit {0})
modify f s = (ok tt, f s)

abbrev pub gets : {A : Type 0} → (LogStructuredFs → A) → Fs A
gets f s = (ok (f s), s)

-- A system call.
abbrev pub on_disk : {A : Type 0} → (Disk → Result A × Disk) → Fs A
on_disk f s = let (r, d) = f s.disk in (r, record s { disk = d })

abbrev pub present : {A : Type 0} → Option (Option A) → Option A
present none = none
present (some o) = o

-- lfs.indexs[inum%uint64(indexShard)]; there are as many shards, so the index is in range.
unfoldable pub select_shard : List (Option IndexMap) → ℕ → Option IndexMap
select_shard indexs inum = present (get_elem? indexs (inum % index_shard))

abbrev pub changed_shard :
    Option IndexMap → (IndexMap → IndexMap) → List (Option IndexMap) → ℕ → List (Option IndexMap)
changed_shard none f indexs inum = indexs
changed_shard (some m) f indexs inum = set indexs (inum % index_shard) (some (f m))

-- The shard of `inum` is a map that the operations change in place.
unfoldable pub update_shard :
    (IndexMap → IndexMap) → ℕ → List (Option IndexMap) → List (Option IndexMap)
update_shard f inum indexs = changed_shard (select_shard indexs inum) f indexs inum

abbrev pub entry_of : Option IndexMap → ℕ → Option INode
entry_of none inum = none
entry_of (some m) inum = lookup inum m

-- imap.index[inum]
unfoldable pub find_inode : LogStructuredFs → ℕ → Option INode
find_inode s inum = entry_of (select_shard s.indexs inum) inum

-- imap.index[inum] = n
unfoldable pub store_inode : ℕ → INode → LogStructuredFs → LogStructuredFs
store_inode inum n s = record s { indexs = update_shard (insert inum n) inum s.indexs }

-- delete(imap.index, inum)
unfoldable pub delete_inode : ℕ → LogStructuredFs → LogStructuredFs
delete_inode inum s = record s { indexs = update_shard (delete inum) inum s.indexs }

-- lfs.offset += n
unfoldable pub advance : ℕ → LogStructuredFs → LogStructuredFs
advance n s = record s { offset = (s.offset + n) % 2 ^ 64 }

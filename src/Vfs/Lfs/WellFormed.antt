-- ===== src/Vfs/Lfs/WellFormed.antt =====
-- The invariant of the storage engine.
use wiredkv.Prelude.{ℕ, ◌⊎◌, ◌++◌, ◌^◌, ◌<◌, ◌≤◌, ◌≡◌, none, some, length, list_eq, nat_eq}
use wiredkv.Prelude.Bytes.{Bytes}
use wiredkv.Prelude.Map.{lookup}
use wiredkv.Vfs.Codec.{INode}
use wiredkv.Vfs.FileName.{format_data_file_name}
use wiredkv.Vfs.Disk.{File}
use wiredkv.Vfs.Disk.Laws.{IsHealthy}
use wiredkv.Vfs.Fs.{Env, LogStructuredFs, find_inode}
use wiredkv.Vfs.Lfs.{data_file_metadata, index_file_name}
use wiredkv.Vfs.Lfs.Index.{HasShards}
use wiredkv.Vfs.Lfs.Placed.{IsPlaced}
use wiredkv.Vfs.Lfs.Stored.{Stored}

-- All shards are there, and each holds the numbers that belong to it, none twice; no fault is planned;
-- the active file is the current region's and `offset` is its length; no region has a higher number,
-- or another file than the one named for it; no file of a higher number exists; every
-- file begins with the metadata and is the index snapshot or a region's, and every region has its
-- file; and each entry points to a record of its key.
pub record WellFormed (env : Env) (s : LogStructuredFs) : Type 0 where
  pub shards : HasShards s.indexs
  pub placed : IsPlaced s.indexs
  pub healthy : IsHealthy s.disk
  pub file : File
  pub text : Bytes
  pub active : s.active ≡ some file
  pub current : lookup s.region_id s.regions ≡ some file
  pub written : lookup file s.disk.files ≡ some text
  pub offset_is : s.offset ≡ length text
  pub below : (id : ℕ) (f : File) → lookup id s.regions ≡ some f → id ≤ s.region_id
  pub named :
      (id : ℕ) (f : File)
      → lookup id s.regions ≡ some f
      → (id < 10 ^ 9) × (f ≡ format_data_file_name id)
  pub fresh :
      (id : ℕ)
      → s.region_id < id
      → id < 10 ^ 9
      → lookup (format_data_file_name id) s.disk.files ≡ none
  pub headed :
      (f : File) (b : Bytes)
      → lookup f s.disk.files ≡ some b
      → (rest : Bytes) × (b ≡ data_file_metadata ++ rest)
  pub known :
      (f : File) (b : Bytes)
      → lookup f s.disk.files ≡ some b
      → (f ≡ index_file_name) ⊎ ((id : ℕ) × (lookup id s.regions ≡ some f))
  pub present :
      (id : ℕ) (f : File)
      → lookup id s.regions ≡ some f
      → (b : Bytes) × (lookup f s.disk.files ≡ some b)
  pub stored : (inum : ℕ) (n : INode) → find_inode s inum ≡ some n → Stored env s inum n

-- ===== src/Vfs/Lfs/Runs.antt =====
-- What the operations do step by step on a disk without faults, as equations between states.
use wiredkv.Prelude.{
  ℕ, ◌+◌, ◌%◌, ◌^◌, ◌<◌, ◌≡◌, refl, ap, ◌∙◌, arith, Option, none, some, ok, err, list_eq, nat_eq,
  lt→ltb, true, ◌≢◌, version_conflict, index_not_found, nat_beq, nat_beq_iff,
}
use wiredkv.Prelude.Bytes.{Bytes}
use wiredkv.Prelude.Map.{lookup, insert}
use wiredkv.Vfs.Hash.{inode_num}
use wiredkv.Vfs.Segment.{Segment, size, new_tombstone_segment}
use wiredkv.Vfs.Codec.{INode, serialized_segment}
use wiredkv.Vfs.FileName.{format_data_file_name, generate_file_name}
use wiredkv.Vfs.FileName.Limit.{generate_file_name_lem}
use wiredkv.Vfs.Disk.{File, Disk, append_file, create_file}
use wiredkv.Vfs.Disk.Laws.{IsHealthy, write_healthy, open_file_healthy}
use wiredkv.Vfs.Fs.{
  Env, LogStructuredFs, IndexMap, ◌>>=◌, ◌>>◌, select_shard, find_inode, store_inode, delete_inode,
  advance,
}
use wiredkv.Vfs.Lfs.{
  append_to_active_region, create_active_region, rotate_if_full, put_segment, delete_segment,
  update_segment_with_cas, inode_at, moved_inode, data_file_metadata,
}

-- The state with bytes added to a file.
abbrev pub appended : File → Bytes → LogStructuredFs → LogStructuredFs
appended f b s = record s { disk = append_file f b s.disk }

append_run :
    (s : LogStructuredFs) (f : File) (b : Bytes)
    → IsHealthy s.disk
    → append_to_active_region (some f) b s ≡ (ok tt, appended f b s)
unfolding append_to_active_region ◌>>=◌
append_run s f b healthy = rw (write_healthy f b s.disk healthy) (ground arith)

pub append_active :
    (s : LogStructuredFs) (f : File) (b : Bytes)
    → IsHealthy s.disk
    → s.active ≡ some f
    → append_to_active_region s.active b s ≡ (ok tt, appended f b s)
append_active s f b healthy active =
    ap (λ o. append_to_active_region o b s) active ∙ append_run s f b healthy

-- The state with the region `id` opened and its metadata written.
abbrev pub with_region : ℕ → LogStructuredFs → LogStructuredFs
with_region id s = record s {
  region_id = id;
  active = some (format_data_file_name id);
  offset = 4;
  regions = insert id (format_data_file_name id) s.regions;
  disk = append_file (format_data_file_name id) data_file_metadata (
      create_file (lookup (format_data_file_name id) s.disk.files) (format_data_file_name id)
        s.disk);
}

create_file-IsHealthy :
    (o : Option Bytes) (f : File) (d : Disk) → IsHealthy d → IsHealthy (create_file o f d)
create_file-IsHealthy none f d h = h
create_file-IsHealthy (some b) f d h = h

module _ (s : LogStructuredFs) (healthy : IsHealthy s.disk) (small : s.region_id + 1 < 10 ^ 9) where
  name_of_next : generate_file_name (s.region_id + 1) ≡ ok (format_data_file_name (s.region_id + 1))
  name_of_next =
      rw (generate_file_name_lem (s.region_id + 1) (omega arith), lt→ltb (s.region_id + 1) _ small)

  -- Below 10 ^ 9 regions a disk without faults gets the next one.
  pub create_run : create_active_region s ≡ (ok tt, with_region (s.region_id + 1) s)
  unfolding create_active_region ◌>>=◌ ◌>>◌
  create_run =
      let id = s.region_id + 1 in
      let wrap : (s.region_id + 1) % 2 ^ 64 ≡ s.region_id + 1 = omega arith in
      let name = format_data_file_name id in
      let d = create_file (lookup name s.disk.files) name s.disk in
      rw (wrap, name_of_next, open_file_healthy name s.disk healthy)
        (rw
          (write_healthy name data_file_metadata d
            (create_file-IsHealthy (lookup name s.disk.files) name s.disk healthy))
          refl)

module _ (env : Env) (key : Bytes) (seg : Segment) (f : File) where
  -- A put, before a new region is opened.
  abbrev pub after_put : LogStructuredFs → LogStructuredFs
  after_put s = advance (size seg) (
      store_inode (inode_num env.hashes key) (inode_at env seg s)
        (appended f (serialized_segment env.hashes seg) s))

  -- An update of the entry `n` to the given version, before a new region is opened.
  abbrev pub after_cas : ℕ → INode → LogStructuredFs → LogStructuredFs
  after_cas version n s = advance (size seg) (
      store_inode (inode_num env.hashes key) (moved_inode seg version s n) (
        appended f (serialized_segment env.hashes seg)
          (store_inode (inode_num env.hashes key) (record n { mvcc = version }) s)))

module _ (env : Env) (s : LogStructuredFs) (healthy : IsHealthy s.disk) (f : File) (m : IndexMap)
    (key : Bytes) (active : s.active ≡ some f)
    (shard : select_shard s.indexs (inode_num env.hashes key) ≡ some m) where
  pub put_run :
      (seg : Segment) → put_segment env key seg s ≡ rotate_if_full env (after_put env key seg f s)
  unfolding put_segment ◌>>=◌ ◌>>◌ inode_at
  put_run seg = rw (append_active s f (serialized_segment env.hashes seg) healthy active, shard)

  pub delete_run :
      (now : ℕ)
      → delete_segment env now key s ≡ (
        ok tt,
        delete_inode (inode_num env.hashes key) (
            advance
              (size (new_tombstone_segment now key))
              (appended f (serialized_segment env.hashes (new_tombstone_segment now key)) s)),
      )
  unfolding delete_segment ◌>>=◌ ◌>>◌ advance
  delete_run now = rw (
    append_active s f (serialized_segment env.hashes (new_tombstone_segment now key)) healthy
        active,
    shard,
  )

  -- No entry: an error, and nothing changes.
  pub cas_missing :
      (expected : ℕ) (seg : Segment)
      → find_inode s (inode_num env.hashes key) ≡ none
      → update_segment_with_cas env key expected seg s ≡ (err index_not_found, s)
  unfolding update_segment_with_cas ◌>>=◌ ◌>>◌
  cas_missing expected seg missing = rw (shard, missing)

  module _ (n : INode) (expected : ℕ) (seg : Segment)
      (found : find_inode s (inode_num env.hashes key) ≡ some n) where
    -- The version that was expected: the update is made.
    pub cas_run :
        n.mvcc ≡ expected
        → update_segment_with_cas env key expected seg s
          ≡ rotate_if_full env (after_cas env key seg f ((expected + 1) % 2 ^ 64) n s)
    unfolding update_segment_with_cas ◌>>=◌ ◌>>◌ store_inode moved_inode
    cas_run same =
        let inum = inode_num env.hashes key in
        let test : nat_beq n.mvcc expected ≡ true = (nat_beq_iff n.mvcc expected).1 same in
        let t = store_inode inum (record n { mvcc = (expected + 1) % 2 ^ 64 }) s in
        rw
          (shard, found, test, append_active t f (serialized_segment env.hashes seg) healthy active)

    -- Any other version: an error, and nothing changes.
    pub cas_conflict :
        n.mvcc ≢ expected
        → update_segment_with_cas env key expected seg s ≡ (err version_conflict, s)
    unfolding update_segment_with_cas ◌>>=◌ ◌>>◌
    cas_conflict other = rw (shard, found) (ground arith)

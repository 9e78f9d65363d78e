-- ===== src/Vfs/Updates.antt =====
-- Calls of UpdateSegmentWithCAS of vfs/lfs.go that run at the same time, as a step relation. A step is
-- one access to what the calls share: the index under its lock, one atomic operation, or one section
-- under lfs.mu. No other operation runs meanwhile, so the entry that a call found is the one that the
-- index has for its key.
pub mod Keeps
pub mod Once
pub mod Arrives
pub mod Overwrite
pub mod Alone
pub mod Serial
pub mod Seen
pub mod Race
use Prim.Native.Nat.{◌%◌}
use wiredkv.Prelude.{
  ℕ, ◌+◌, ◌^◌, ◌≡◌, ◌≢◌, Option, none, some, Result, ok, err, Error, leb, true, false, nat_eq, ◌==◌,
  if◌then◌else◌, shard_not_found, index_not_found, version_conflict,
}
use wiredkv.Prelude.Bytes.{Bytes}
use wiredkv.Vfs.Hash.{inode_num}
use wiredkv.Vfs.Segment.{Segment, size}
use wiredkv.Vfs.Codec.{INode, serialized_segment}
use wiredkv.Vfs.Fs.{Env, LogStructuredFs, select_shard, find_inode, store_inode, advance}
use wiredkv.Vfs.Lfs.{append_to_active_region, create_active_region}

-- The arguments of a call.
pub record Update : Type 0 where
  pub key : Bytes
  pub expected : ℕ
  pub newseg : Segment

-- The fields of an entry that an update sets, in the order in which it sets them.
pub data Field : Type 0 where
  at_position at_created_at at_expired_at at_region_id at_length : Field

-- Where a call is: at its start, with the entry found, with the version raised, about to set a field,
-- with all fields set, with the offset advanced, about to create a region, and at its end.
pub data Phase : Type 0 where
  called found swapped : Phase
  noting : Field → Phase
  noted counted full : Phase
  returned : Result (Unit {0}) → Phase

-- Calls are numbered.
pub record Updates : Type 0 where
  pub store : LogStructuredFs
  pub phases : ℕ → Phase

abbrev pub moved : ℕ → Phase → LogStructuredFs → Updates → Updates
moved u p s c = record { store = s; phases = λ v. if u == v then p else c.phases v }

-- One atomic store.
abbrev pub set_field : Field → Segment → LogStructuredFs → INode → INode
set_field at_position newseg s n = record n { position = s.offset }
set_field at_created_at newseg s n = record n { created_at = newseg.created_at }
set_field at_expired_at newseg s n = record n { expired_at = newseg.expired_at }
set_field at_region_id newseg s n = record n { region_id = s.region_id }
set_field at_length newseg s n = record n { length = size newseg }

abbrev pub after_field : Field → Phase
after_field at_position = noting at_created_at
after_field at_created_at = noting at_expired_at
after_field at_expired_at = noting at_region_id
after_field at_region_id = noting at_length
after_field at_length = noted

-- One step of call `u`.
pub data Step (env : Env) (calls : ℕ → Update) (u : ℕ) : Updates → Updates → Type 0 where
  no_shard :
      (c : Updates)
      → c.phases u ≡ called
      → select_shard c.store.indexs (inode_num env.hashes (calls u).key) ≡ none
      → Step env calls u c (moved u (returned (err shard_not_found)) c.store c)
  missing :
      (c : Updates)
      → c.phases u ≡ called
      → find_inode c.store (inode_num env.hashes (calls u).key) ≡ none
      → Step env calls u c (moved u (returned (err index_not_found)) c.store c)
  find :
      (c : Updates) (n : INode)
      → c.phases u ≡ called
      → find_inode c.store (inode_num env.hashes (calls u).key) ≡ some n
      → Step env calls u c (moved u found c.store c)
  conflict :
      (c : Updates) (n : INode)
      → c.phases u ≡ found
      → find_inode c.store (inode_num env.hashes (calls u).key) ≡ some n
      → n.mvcc ≢ (calls u).expected
      → Step env calls u c (moved u (returned (err version_conflict)) c.store c)
  swap :
      (c : Updates) (n : INode)
      → c.phases u ≡ found
      → find_inode c.store (inode_num env.hashes (calls u).key) ≡ some n
      → n.mvcc ≡ (calls u).expected
      → Step env calls u c (
          moved u swapped
            (store_inode
              (inode_num env.hashes (calls u).key)
              (record n { mvcc = ((calls u).expected + 1) % 2 ^ 64 })
              c.store)
            c)
  append :
      (c : Updates) (t : LogStructuredFs)
      → c.phases u ≡ swapped
      → append_to_active_region c.store.active
          (serialized_segment env.hashes (calls u).newseg)
          c.store
        ≡ (ok tt, t)
      → Step env calls u c (moved u (noting at_position) t c)
  fail :
      (c : Updates) (e : Error) (t : LogStructuredFs)
      → c.phases u ≡ swapped
      → append_to_active_region c.store.active
          (serialized_segment env.hashes (calls u).newseg)
          c.store
        ≡ (err e, t)
      → Step env calls u c (moved u (returned (err e)) t c)
  note :
      (c : Updates) (f : Field) (n : INode)
      → c.phases u ≡ noting f
      → find_inode c.store (inode_num env.hashes (calls u).key) ≡ some n
      → Step env calls u c (
          moved u
            (after_field f)
            (store_inode
              (inode_num env.hashes (calls u).key)
              (set_field f (calls u).newseg c.store n)
              c.store)
            c)
  count :
      (c : Updates)
      → c.phases u ≡ noted
      → Step env calls u c (moved u counted (advance (size (calls u).newseg) c.store) c)
  keep :
      (c : Updates)
      → c.phases u ≡ counted
      → leb env.region_threshold c.store.offset ≡ false
      → Step env calls u c (moved u (returned (ok tt)) c.store c)
  fill :
      (c : Updates)
      → c.phases u ≡ counted
      → leb env.region_threshold c.store.offset ≡ true
      → Step env calls u c (moved u full c.store c)
  rotate :
      (c : Updates) (r : Result (Unit {0})) (t : LogStructuredFs)
      → c.phases u ≡ full
      → create_active_region c.store ≡ (r, t)
      → Step env calls u c (moved u (returned r) t c)

-- Any number of steps, of any calls.
pub data Steps (env : Env) (calls : ℕ → Update) : Updates → Updates → Type 0 where
  here : {c : Updates} → Steps env calls c c
  after :
      (u : ℕ) {c d e : Updates} → Step env calls u c d → Steps env calls d e → Steps env calls c e

-- All calls are at their start.
abbrev pub at_start : LogStructuredFs → Updates
at_start s = record { store = s; phases = λ u. called }

-- ===== src/Vfs/Updates/Seen.antt =====
-- What the steps of two updates read of a store, and how the steps of one change it.
use wiredkv.Prelude.{
  ℕ, ◌+◌, ◌%◌, ◌^◌, ◌≡◌, refl, sym, ap, ◌∙◌, false, some, ok, nat_eq, ◌==◌, ==-self, leb, list_eq,
}
use wiredkv.Vfs.Hash.{inode_num}
use wiredkv.Vfs.Segment.{Segment, size}
use wiredkv.Vfs.Disk.{File, Disk, append_file}
use wiredkv.Vfs.Disk.Laws.{IsHealthy}
use wiredkv.Vfs.Codec.{INode, serialized_segment}
use wiredkv.Vfs.Fs.{Env, LogStructuredFs, find_inode, store_inode, advance}
use wiredkv.Vfs.Lfs.Index.{HasShards, find_inode-store_inode}
use wiredkv.Vfs.Lfs.Runs.{append_active, appended}
use wiredkv.Vfs.Updates.{
  Update, Field, at_position, at_created_at, at_expired_at, at_region_id, at_length, called, found,
  swapped, noting, noted, counted, returned, Updates, set_field, after_field, find, swap, append,
  note, count, keep,
}
use wiredkv.Vfs.Updates.Keeps.{store_inode-HasShards}
use wiredkv.Vfs.Updates.Arrives.{set_field-same, Arrives, arrive, next}

-- What the steps read of a store: its disk, its offset, and the entries of two inode numbers; all else
-- is as in `s`.
pub record Seen (s : LogStructuredFs) (d : Disk) (offset : ℕ) (x : ℕ) (nx : INode) (y : ℕ)
    (ny : INode) (t : LogStructuredFs) : Type 0 where
  pub disk_is : t.disk ≡ d
  pub offset_is : t.offset ≡ offset
  pub region_is : t.region_id ≡ s.region_id
  pub regions_are : t.regions ≡ s.regions
  pub active_is : t.active ≡ s.active
  pub shards : HasShards t.indexs
  pub one : find_inode t x ≡ some nx
  pub two : find_inode t y ≡ some ny

pub turned :
    {s : LogStructuredFs} {d : Disk} {offset x y : ℕ} {nx ny : INode} (t : LogStructuredFs)
    → Seen s d offset x nx y ny t
    → Seen s d offset y ny x nx t
turned t seen = record {
  disk_is = seen.disk_is;
  offset_is = seen.offset_is;
  region_is = seen.region_is;
  regions_are = seen.regions_are;
  active_is = seen.active_is;
  shards = seen.shards;
  one = seen.two;
  two = seen.one;
}

-- The entry with all fields set.
abbrev pub rewritten : LogStructuredFs → Segment → INode → INode
rewritten s newseg n = record {
  region_id = s.region_id;
  position = s.offset;
  length = size newseg;
  expired_at = newseg.expired_at;
  created_at = newseg.created_at;
  mvcc = n.mvcc;
}

-- The entry with the version raised.
abbrev pub bumped : INode → INode
bumped n = record n { mvcc = (n.mvcc + 1) % 2 ^ 64 }

module _ (env : Env) (calls : ℕ → Update) (s : LogStructuredFs) (u y : ℕ)
    (apart : (inode_num env.hashes (calls u).key == y) ≡ false) where
  abbrev iu : ℕ
  iu = inode_num env.hashes (calls u).key

  -- An entry is stored.
  Seen-store_inode :
      {d : Disk} {offset : ℕ} {n m : INode} (k : INode) (t : LogStructuredFs)
      → Seen s d offset iu n y m t
      → Seen s d offset iu k y m (store_inode iu k t)
  unfolding store_inode
  Seen-store_inode k t seen = record {
    disk_is = seen.disk_is;
    offset_is = seen.offset_is;
    region_is = seen.region_is;
    regions_are = seen.regions_are;
    active_is = seen.active_is;
    shards = store_inode-HasShards iu k t seen.shards;
    one = find_inode-store_inode t seen.shards iu iu k ∙ rw ==-self refl;
    two = find_inode-store_inode t seen.shards iu y k ∙ rw apart seen.two;
  }

  pub swaps :
      {d : Disk} {offset : ℕ} {n m : INode} (c : Updates)
      → c.phases u ≡ called
      → n.mvcc ≡ (calls u).expected
      → Seen s d offset iu n y m c.store
      → Arrives env calls u swapped
          (Seen s d offset iu (record n { mvcc = (n.mvcc + 1) % 2 ^ 64 }) y m)
          c
  swaps {d} {offset} {n} {m} c at same seen =
      next env calls {P = Seen s d offset iu n y m}
        (arrive env calls u found (Seen s d offset iu n y m) c c.store (find c n at seen.one) seen)
        (λ e at_e seen_e.
          let k : INode = record n { mvcc = (n.mvcc + 1) % 2 ^ 64 } in
          let k' : INode = record n { mvcc = ((calls u).expected + 1) % 2 ^ 64 } in
          let k_is : k' ≡ k = ap (λ v. record n { mvcc = (v + 1) % 2 ^ 64 }) (sym same) in
          arrive env calls u swapped (Seen s d offset iu k y m) e (store_inode iu k' e.store)
            (swap e n at_e seen_e.one same) (rw k_is (Seen-store_inode k e.store seen_e)))

  pub appends :
      {d : Disk} {offset : ℕ} {n m : INode} (f : File) (c : Updates)
      → s.active ≡ some f
      → IsHealthy d
      → c.phases u ≡ swapped
      → Seen s d offset iu n y m c.store
      → Arrives env calls u
          (noting at_position)
          (Seen s
            (append_file f (serialized_segment env.hashes (calls u).newseg) d)
            offset
            iu
            n
            y
            m)
          c
  unfolding find_inode
  appends {d} {offset} {n} {m} f c active healthy at seen =
      let b = serialized_segment env.hashes (calls u).newseg in
      let calm : IsHealthy c.store.disk = ap (λ x. x.outcomes) seen.disk_is ∙ healthy in
      arrive env calls u (noting at_position) (Seen s (append_file f b d) offset iu n y m) c
        (appended f b c.store)
        (append c (appended f b c.store) at
          (append_active c.store f b calm (seen.active_is ∙ active)))
        (record {
          disk_is = ap (append_file f b) seen.disk_is;
          offset_is = seen.offset_is;
          region_is = seen.region_is;
          regions_are = seen.regions_are;
          active_is = seen.active_is;
          shards = seen.shards;
          one = seen.one;
          two = seen.two;
        })

  one_note :
      {d : Disk} {n m : INode} (f : Field) (c : Updates)
      → c.phases u ≡ noting f
      → Seen s d s.offset iu n y m c.store
      → Arrives env calls u
          (after_field f)
          (Seen s d s.offset iu (set_field f (calls u).newseg s n) y m)
          c
  one_note {d} {n} {m} f c at seen =
      let k : INode = set_field f (calls u).newseg s n in
      let k' : INode = set_field f (calls u).newseg c.store n in
      let k_is : k' ≡ k =
        set_field-same f (calls u).newseg s c.store n seen.offset_is seen.region_is in
      arrive env calls u (after_field f) (Seen s d s.offset iu k y m) c (store_inode iu k' c.store)
        (note c f n at seen.one) (rw k_is (Seen-store_inode k c.store seen))

  pub notes :
      {d : Disk} {n m : INode} (c : Updates)
      → c.phases u ≡ noting at_position
      → Seen s d s.offset iu n y m c.store
      → Arrives env calls u noted (Seen s d s.offset iu (rewritten s (calls u).newseg n) y m) c
  notes c at seen =
      next env calls
        (next env calls
          (next env calls (next env calls (one_note at_position c at seen) (one_note at_created_at))
            (one_note at_expired_at))
          (one_note at_region_id))
        (one_note at_length)

  pub ends :
      {d : Disk} {offset : ℕ} {n m : INode} (c : Updates)
      → c.phases u ≡ noted
      → leb env.region_threshold ((offset + size (calls u).newseg) % 2 ^ 64) ≡ false
      → Seen s d offset iu n y m c.store
      → Arrives env calls u
          (returned (ok tt))
          (Seen s d ((offset + size (calls u).newseg) % 2 ^ 64) iu n y m)
          c
  unfolding advance find_inode
  ends {d} {offset} {n} {m} c at below seen =
      let offset' = (offset + size (calls u).newseg) % 2 ^ 64 in
      next env calls {P = Seen s d offset' iu n y m}
        (arrive env calls u counted (Seen s d offset' iu n y m) c
          (advance (size (calls u).newseg) c.store) (count c at)
          (record {
            disk_is = seen.disk_is;
            offset_is = ap (λ o. (o + size (calls u).newseg) % 2 ^ 64) seen.offset_is;
            region_is = seen.region_is;
            regions_are = seen.regions_are;
            active_is = seen.active_is;
            shards = seen.shards;
            one = seen.one;
            two = seen.two;
          }))
        (λ e at_e seen_e.
          arrive env calls u (returned (ok tt)) (Seen s d offset' iu n y m) e e.store
            (keep e at_e (ap (leb env.region_threshold) seen_e.offset_is ∙ below)) seen_e)

-- ===== src/Vfs/Collector/Never.antt =====
-- A collection of a region with records in it does not come to an end: it waits for the lock that it
-- holds, or looks at one record again and again.
use wiredkv.Prelude.{
  ℕ, zero, suc, ◌<◌, ◌≤◌, ◌≡◌, refl, arith, true, false, List, [], ◌∷◌, Option, none, some, Result,
  ok, err, leb, le→leb, length, take, Bool-cases, inl, inr, nat_eq,
}
use wiredkv.Prelude.Bytes.{Bytes}
use wiredkv.Prelude.Map.{lookup}
use wiredkv.Vfs.Segment.{Segment}
use wiredkv.Vfs.Codec.{INode, read_segment, segment_padding}
use wiredkv.Vfs.Disk.{File, contents}
use wiredkv.Vfs.Disk.Laws.{IsHealthy}
use wiredkv.Vfs.Fs.{Env, LogStructuredFs, gc_active}
use wiredkv.Vfs.Lfs.{data_file_metadata}
use wiredkv.Vfs.Lfs.Index.{HasShards, shard_present}
use wiredkv.Vfs.Open.Directory.{checked_healthy}
use wiredkv.Vfs.Recovery.{sorted_ids}
use wiredkv.Vfs.Collector.{
  Held, Gc, go_on, ◌>>=◌, ◌>>◌, lock, is_valid, handle_entry, clean_region, clean_regions,
  cleanup_dirty_region, deferred, returns, files_of,
}
use wiredkv.Vfs.Collector.Safety.{keep_record_blocked}

go_on-returns :
    (r : Result (Unit {0}) × Held) (next : Unit {0} → Gc (Unit {0}))
    → returns r.0 ≡ false
    → returns (go_on r next).0 ≡ false
go_on-returns (ok u, h) next p = cc
go_on-returns (err e, h) next p = p

deferred_result : (f : Held → Held) (r : Result (Unit {0}) × Held) → (deferred f r).0 ≡ r.0
deferred_result f (r, h) = refl

-- The oldest region, with its first record.
pub record HasOldest (env : Env) (s : LogStructuredFs) : Type 0 where
  pub id : ℕ
  pub ids : List ℕ
  pub file : File
  pub inum : ℕ
  pub seg : Segment
  pub sorted : sorted_ids s.regions ≡ id ∷ ids
  pub region : lookup id s.regions ≡ some file
  pub first :
      read_segment env.hashes env.transformer
        (contents file s.disk)
        (length data_file_metadata)
        segment_padding
      ≡ ok (inum, seg)
  pub nonempty : length data_file_metadata < length (contents file s.disk)

module _ (env : Env) (now : ℕ) (named : File → Option File) where
  handle_entry-returns :
      (fd : File) (next : ℕ → Gc (Unit {0})) (offset inum : ℕ) (seg : Segment) (o : Option INode)
      (h : Held)
      → h.mu ≡ true
      → returns (next offset h).0 ≡ false
      → returns (handle_entry env now named fd next offset (inum, seg) o h).0 ≡ false
  handle_entry-returns fd next offset inum seg none h held p = p
  handle_entry-returns fd next offset inum seg (some n) h held p =
      elim (Bool-cases (is_valid now seg n)) [
        | inl valid ↦ rw (valid, keep_record_blocked env now named fd inum seg n _ h held) refl
        | inr stale ↦ rw stale p
      ]

  clean_region-returns :
      (fd : File) (text : Bytes) (fuel offset inum : ℕ) (seg : Segment) (h : Held)
      → h.mu ≡ true
      → HasShards h.fs.indexs
      → offset < length text
      → read_segment env.hashes env.transformer text offset segment_padding ≡ ok (inum, seg)
      → returns (clean_region env now named fd text fuel offset h).0 ≡ false
  unfolding clean_region ◌>>=◌
  clean_region-returns fd text zero offset inum seg h held hs more read = refl
  clean_region-returns fd text (suc fuel) offset inum seg h held hs more read =
      let rest = clean_region-returns fd text fuel offset inum seg h held hs more read in
      let inside : leb (length text) offset ≡ false = ground (arith, more) in
      let (m, shard) = shard_present h.fs.indexs inum hs in
      rw (inside, read, shard)
        (handle_entry-returns fd (clean_region env now named fd text fuel) offset inum seg
          (lookup inum m) h held rest)

  clean_regions-returns :
      (fuel : ℕ) (fds : List File) (h : Held) (o : HasOldest env h.fs)
      → h.mu ≡ true
      → IsHealthy h.fs.disk
      → HasShards h.fs.indexs
      → returns (clean_regions env now named fuel (o.file ∷ fds) h).0 ≡ false
  unfolding clean_regions ◌>>=◌ ◌>>◌
  clean_regions-returns fuel fds h o held healthy hs =
      rw (checked_healthy (contents o.file) h.fs.disk healthy) (
        go_on-returns _ _ (
          clean_region-returns o.file (contents o.file h.fs.disk) fuel (length data_file_metadata)
            o.inum o.seg h held hs o.nonempty o.first))

  -- With five regions or more, all shards there, no fault planned and no dirty regions left over, and
  -- with a readable record at the head of the oldest region, a collection that takes the lock never
  -- returns, however long it runs.
  pub cleanup_dirty_region-returns :
      (fuel : ℕ) (h : Held)
      → h.mu ≡ false
      → 5 ≤ length h.fs.regions
      → h.fs.dirty_region ≡ []
      → IsHealthy h.fs.disk
      → HasShards h.fs.indexs
      → HasOldest env h.fs
      → returns (cleanup_dirty_region env now named fuel h).0 ≡ false
  unfolding cleanup_dirty_region lock ◌>>=◌ ◌>>◌
  cleanup_dirty_region-returns fuel h free enough clean healthy hs o =
      let many : leb 5 (length h.fs.regions) ≡ true = le→leb 5 (length h.fs.regions) enough in
      let others = files_of h.fs.regions (take 3 o.ids) in
      let k : Held = record {
        fs = record h.fs { gcstate = gc_active; dirty_region = o.file ∷ others };
        mu = true;
      } in
      let same : HasOldest env k.fs = record {
        id = o.id;
        ids = o.ids;
        file = o.file;
        inum = o.inum;
        seg = o.seg;
        sorted = o.sorted;
        region = o.region;
        first = o.first;
        nonempty = o.nonempty;
      } in
      rw (free, many, clean, o.sorted, o.region)
        (clean_regions-returns fuel others k same refl healthy hs)

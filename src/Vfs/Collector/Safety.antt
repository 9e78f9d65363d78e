-- ===== src/Vfs/Collector/Safety.antt =====
-- A collection loses nothing: it waits for the lock that it holds before it would change a file, the
-- index or the regions.
use wiredkv.Prelude.{
  ℕ, zero, suc, ◌≡◌, refl, ◌∙◌, true, false, List, [], ◌∷◌, ◌++◌, Option, none, some, Result, ok,
  err, blocked, leb, length, take, Bool-cases, inl, inr, nat_eq,
}
use wiredkv.Prelude.Bytes.{Bytes}
use wiredkv.Prelude.Map.{lookup}
use wiredkv.Vfs.Segment.{Segment}
use wiredkv.Vfs.Codec.{INode}
use wiredkv.Vfs.Disk.{
  File, Disk, Outcome, done, failed, short, checked, contents, head_outcome, checked_outcome,
}
use wiredkv.Vfs.Fs.{Env, LogStructuredFs, IndexMap, GcState, gc_active, on_disk}
use wiredkv.Vfs.Lfs.{data_file_metadata}
use wiredkv.Vfs.Recovery.{sorted_ids}
use wiredkv.Vfs.Collector.{
  Held, Gc, go_on, ◌>>=◌, ◌>>◌, lock, is_valid, move_record, keep_record, handle_entry,
  handle_record, clean_region, clean_regions, attempts, collect, collect_if_enough,
  cleanup_dirty_region, deferred, returns, forgotten, files_of,
}

-- What clients can see of a store is the same.
pub record SameData (s t : LogStructuredFs) : Type 0 where
  pub files : t.disk.files ≡ s.disk.files
  pub indexs : t.indexs ≡ s.indexs
  pub regions : t.regions ≡ s.regions
  pub offset : t.offset ≡ s.offset
  pub region_id : t.region_id ≡ s.region_id
  pub active : t.active ≡ s.active

-- The states of the collector and of the disk's faults are no data.
SameData-record :
    (s : LogStructuredFs) (g : GcState) (fds : List File) (outcomes : List Outcome)
    → SameData s
        (record s { gcstate = g; dirty_region = fds; disk = record s.disk { outcomes = outcomes } })
SameData-record s g fds outcomes = record {
  files = refl;
  indexs = refl;
  regions = refl;
  offset = refl;
  region_id = refl;
  active = refl;
}

SameData-refl : (s : LogStructuredFs) → SameData s s
SameData-refl s = SameData-record s s.gcstate s.dirty_region s.disk.outcomes

SameData-trans : {s t u : LogStructuredFs} → SameData s t → SameData t u → SameData s u
SameData-trans p q = record {
  files = q.files ∙ p.files;
  indexs = q.indexs ∙ p.indexs;
  regions = q.regions ∙ p.regions;
  offset = q.offset ∙ p.offset;
  region_id = q.region_id ∙ p.region_id;
  active = q.active ∙ p.active;
}

-- The same data, with the lock held.
record Keeps (h k : Held) : Type 0 where
  held : k.mu ≡ true
  same : SameData h.fs k.fs

Keeps-refl : (h : Held) → h.mu ≡ true → Keeps h h
Keeps-refl h held = record { held = held; same = SameData-refl h.fs }

-- An action that keeps the data when the lock is held.
abbrev IsHarmless : {A : Type 0} → Gc A → Type 0
IsHarmless m = (h : Held) → h.mu ≡ true → Keeps h (m h).1

go_on-Keeps :
    {A B : Type 0} (h : Held) (r : Result A × Held) (next : A → Gc B)
    → Keeps h r.1
    → ((a : A) → IsHarmless (next a))
    → Keeps h (go_on r next).1
go_on-Keeps h (ok a, k) next p harmless =
    let q = harmless a k p.held in record { held = q.held; same = SameData-trans p.same q.same }
go_on-Keeps h (err e, k) next p harmless = p

bind-IsHarmless :
    {A B : Type 0} (m : Gc A) (next : A → Gc B)
    → IsHarmless m
    → ((a : A) → IsHarmless (next a))
    → IsHarmless (m >>= next)
unfolding ◌>>=◌
bind-IsHarmless m next p q h held = go_on-Keeps h (m h) next (p h held) q

then-IsHarmless :
    {B : Type 0} (m : Gc (Unit {0})) (next : Gc B)
    → IsHarmless m
    → IsHarmless next
    → IsHarmless (m >> next)
unfolding ◌>>◌
then-IsHarmless m next p q h held = go_on-Keeps h (m h) (λ u. next) (p h held) (λ u. q)

Keeps-from : {h k r : Held} → SameData h.fs k.fs → Keeps k r → Keeps h r
Keeps-from p q = record { held = q.held; same = SameData-trans p q.same }

-- The lock is held by the collection itself.
pub move_record_blocked :
    (env : Env) (inum : ℕ) (seg : Segment) (n : INode) (h : Held)
    → h.mu ≡ true
    → move_record env inum seg n h ≡ (err blocked, h)
unfolding move_record lock ◌>>=◌ ◌>>◌
move_record_blocked env inum seg n h held = rw held refl

module _ (env : Env) (now : ℕ) (named : File → Option File) (fd : File) where
  pub keep_record_blocked :
      (inum : ℕ) (seg : Segment) (n : INode) (next : Gc (Unit {0})) (h : Held)
      → h.mu ≡ true
      → keep_record env now named fd inum seg n next h ≡ (err blocked, h)
  unfolding ◌>>=◌ ◌>>◌
  keep_record_blocked inum seg n next h held = rw (move_record_blocked env inum seg n h held) refl

  handle_entry-IsHarmless :
      (next : ℕ → Gc (Unit {0})) (offset inum : ℕ) (seg : Segment) (o : Option INode)
      → ((i : ℕ) → IsHarmless (next i))
      → IsHarmless (handle_entry env now named fd next offset (inum, seg) o)
  handle_entry-IsHarmless next offset inum seg none p h held = p offset h held
  handle_entry-IsHarmless next offset inum seg (some n) p h held =
      elim (Bool-cases (is_valid now seg n)) [
        | inl valid ↦ rw (valid, keep_record_blocked inum seg n _ h held) (Keeps-refl h held)
        | inr stale ↦ rw stale (p offset h held)
      ]

  handle_record-IsHarmless :
      (next : ℕ → Gc (Unit {0})) (offset : ℕ) (found : ℕ × Segment) (o : Option IndexMap)
      → ((i : ℕ) → IsHarmless (next i))
      → IsHarmless (handle_record env now named fd next offset found o)
  handle_record-IsHarmless next offset found none p h held = Keeps-refl h held
  handle_record-IsHarmless next offset (inum, seg) (some m) p h held =
      handle_entry-IsHarmless next offset inum seg (lookup inum m) p h held

  clean_region-IsHarmless :
      (text : Bytes) (fuel offset : ℕ) → IsHarmless (clean_region env now named fd text fuel offset)
  unfolding clean_region
  clean_region-IsHarmless text zero offset h held = Keeps-refl h held
  clean_region-IsHarmless text (suc fuel) offset h held =
      let rest = clean_region-IsHarmless text fuel in
      elim (Bool-cases (leb (length text) offset)) [
        | inl over ↦ rw over (Keeps-refl h held)
        | inr more ↦ rw more (
            bind-IsHarmless _ _ (λ k p. Keeps-refl k p)
              (λ found.
                bind-IsHarmless _ _ (λ k p. Keeps-refl k p)
                  (λ shard.
                    handle_record-IsHarmless (clean_region env now named fd text fuel) offset found
                      shard rest))
              h held)
      ]

checked-SameData :
    (f : Disk → Bytes) (o : Outcome) (s : LogStructuredFs) (outcomes : List Outcome)
    → SameData s (record s {
      disk = (checked_outcome o (f s.disk) (record s.disk { outcomes = outcomes })).1;
    })
checked-SameData f done s outcomes = SameData-record s s.gcstate s.dirty_region outcomes
checked-SameData f failed s outcomes = SameData-record s s.gcstate s.dirty_region outcomes
checked-SameData f (short n) s outcomes = SameData-record s s.gcstate s.dirty_region outcomes

stat-IsHarmless : (fd : File) → IsHarmless (attempts (on_disk (checked (contents fd))))
unfolding checked
stat-IsHarmless fd h held = record {
  held = held;
  same = checked-SameData (contents fd) (head_outcome h.fs.disk.outcomes) h.fs _;
}

module _ (env : Env) (now : ℕ) (named : File → Option File) (fuel : ℕ) where
  clean_regions-IsHarmless : (fds : List File) → IsHarmless (clean_regions env now named fuel fds)
  unfolding clean_regions
  clean_regions-IsHarmless [] h held = Keeps-refl h held
  clean_regions-IsHarmless (fd ∷ fds) h held =
      bind-IsHarmless _ _ (stat-IsHarmless fd)
        (λ stat.
          bind-IsHarmless _ _ (λ k p. Keeps-refl k p)
            (λ text.
              then-IsHarmless (clean_region env now named fd text fuel (length data_file_metadata))
                (clean_regions env now named fuel fds)
                (clean_region-IsHarmless env now named fd text fuel (length data_file_metadata))
                (clean_regions-IsHarmless fds)))
        h held

  collect-IsHarmless : IsHarmless (collect env now named fuel)
  unfolding ◌>>◌
  collect-IsHarmless h held =
      let dirty = h.fs.dirty_region ++ files_of h.fs.regions (take 4 (sorted_ids h.fs.regions)) in
      let k : Held = record h { fs = record h.fs { dirty_region = dirty } } in
      let same = SameData-record h.fs h.fs.gcstate dirty h.fs.disk.outcomes in
      Keeps-from same (bind-IsHarmless _ _ (λ j p. Keeps-refl j p) clean_regions-IsHarmless k held)

  deferred-SameData :
      (f : Held → Held) (s : LogStructuredFs) (r : Result (Unit {0}) × Held)
      → ((k : Held) → SameData k.fs (f k).fs)
      → SameData s r.1.fs
      → SameData s (deferred f r).1.fs
  deferred-SameData f s (r, h) step p = elim (Bool-cases (returns r)) [
    | inl back ↦ rw back (SameData-trans p (step h))
    | inr never ↦ rw never p
  ]

  collect_if_enough-SameData :
      (h : Held) → h.mu ≡ true → SameData h.fs (collect_if_enough env now named fuel h).1.fs
  collect_if_enough-SameData h held = elim (Bool-cases (leb 5 (length h.fs.regions))) [
    | inl enough ↦ rw enough (
        deferred-SameData forgotten h.fs (collect env now named fuel h)
          (λ k. SameData-record k.fs k.fs.gcstate [] k.fs.disk.outcomes)
          (collect-IsHarmless h held).same)
    | inr few ↦ rw few (SameData-refl h.fs)
  ]

  -- Whatever the collection comes to, and however long it runs, it leaves the files, the index, the
  -- regions, the active region and its offset as they were.
  pub cleanup_dirty_region-SameData :
      (h : Held) → SameData h.fs (cleanup_dirty_region env now named fuel h).1.fs
  unfolding cleanup_dirty_region lock ◌>>=◌ ◌>>◌
  cleanup_dirty_region-SameData h = elim (Bool-cases h.mu) [
    | inl held ↦ rw held (SameData-refl h.fs)
    | inr free ↦
        let k : Held = record { fs = record h.fs { gcstate = gc_active }; mu = true } in
        let same = SameData-record h.fs gc_active h.fs.dirty_region h.fs.disk.outcomes in
        rw free (
          deferred-SameData (λ j. record j { mu = false }) h.fs
            (collect_if_enough env now named fuel k) (λ j. SameData-refl j.fs)
            (SameData-trans same (collect_if_enough-SameData k refl)))
  ]

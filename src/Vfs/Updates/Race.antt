-- ===== src/Vfs/Updates/Race.antt =====
-- Two updates whose steps are interleaved.
use mathlib.Core.List.{append_assoc}
use wiredkv.Prelude.{
  ℕ, ◌+◌, ◌%◌, ◌^◌, ◌<◌, ◌≡◌, ◌≢◌, refl, ap, ◌∙◌, arith, false, some, ok, err, nat_eq, nat_beq,
  nat_beq_iff, ◌==◌, if◌then◌else◌, ==-self, leb, not, ◌&&◌, map_result, expired, list_eq,
}
use wiredkv.Prelude.Bytes.{Bytes}
use wiredkv.Vfs.Hash.{IsHashes, inode_num}
use wiredkv.Vfs.Segment.{size}
use wiredkv.Vfs.Transformer.{decode}
use wiredkv.Vfs.Disk.{Disk, append_file, contents}
use wiredkv.Vfs.Disk.Laws.{lookup-append_file}
use wiredkv.Vfs.Codec.{INode, serialized_segment}
use wiredkv.Vfs.Codec.SegmentTrip.{IsSegment}
use wiredkv.Vfs.Fs.{Env, LogStructuredFs, find_inode}
use wiredkv.Vfs.Lfs.{fetch_segment, is_expired}
use wiredkv.Vfs.Lfs.Stored.{StoredAs, fetch_inode-StoredAs}
use wiredkv.Vfs.Lfs.WellFormed.{WellFormed}
use wiredkv.Vfs.Lfs.View.{view, fetch_run}
use wiredkv.Vfs.Updates.{
  Update, at_position, Phase, called, swapped, noting, noted, returned, Updates, Steps, here,
  at_start,
}
use wiredkv.Vfs.Updates.Arrives.{Steps-trans, Arrives}
use wiredkv.Vfs.Updates.Seen.{Seen, turned, rewritten, bumped, swaps, appends, notes, ends}

-- The state of a race: both calls are at the given phases.
record Racing (env : Env) (calls : ℕ → Update) (s : LogStructuredFs) (u v : ℕ) (p q : Phase)
    (P : LogStructuredFs → Type 0) : Type 0 where
  end : Updates
  steps : Steps env calls (at_start s) end
  at_u : end.phases u ≡ p
  at_v : end.phases v ≡ q
  holds : P end.store

module _ (env : Env) (hv : IsHashes env.hashes) (calls : ℕ → Update) (s : LogStructuredFs)
    (w : WellFormed env s) (u v : ℕ) (ne : u ≢ v)
    (keys : inode_num env.hashes (calls u).key ≢ inode_num env.hashes (calls v).key) (nu nv : INode)
    (found_u : find_inode s (inode_num env.hashes (calls u).key) ≡ some nu)
    (found_v : find_inode s (inode_num env.hashes (calls v).key) ≡ some nv)
    (same_u : nu.mvcc ≡ (calls u).expected) (same_v : nv.mvcc ≡ (calls v).expected)
    (valid : IsSegment (calls u).newseg)
    (room : s.offset + size (calls u).newseg + size (calls v).newseg < 2 ^ 64)
    (below : s.offset + size (calls u).newseg + size (calls v).newseg < env.region_threshold) where
  abbrev iu : ℕ
  iu = inode_num env.hashes (calls u).key

  abbrev iv : ℕ
  iv = inode_num env.hashes (calls v).key

  abbrev ser : ℕ → Bytes
  ser x = serialized_segment env.hashes (calls x).newseg

  -- Both records are in the file.
  abbrev both : Disk
  both = append_file w.file (ser v) (append_file w.file (ser u) s.disk)

  apart_u : (u == v) ≡ false
  apart_u = ground (arith, nat_beq_iff u v, ne)

  apart_v : (v == u) ≡ false
  apart_v = ground (arith, nat_beq_iff v u, ne)

  keys_u : (iu == iv) ≡ false
  keys_u = ground (arith, nat_beq_iff iu iv, keys)

  keys_v : (iv == iu) ≡ false
  keys_v = ground (arith, nat_beq_iff iv iu, keys)

  abbrev SeenBy : Disk → ℕ → INode → INode → LogStructuredFs → Type 0
  SeenBy d offset n m = Seen s d offset iu n iv m

  by_u :
      {p p' q : Phase} {P Q : LogStructuredFs → Type 0}
      → Racing env calls s u v p q P
      → ((c : Updates) → c.phases u ≡ p → P c.store → Arrives env calls u p' Q c)
      → Racing env calls s u v p' q Q
  by_u r more =
      let a = more r.end r.at_u r.holds in
      record {
        end = a.end;
        steps = Steps-trans r.steps a.steps;
        at_u = a.at;
        at_v = a.others v apart_u ∙ r.at_v;
        holds = a.holds;
      }

  by_v :
      {p q q' : Phase} {P Q : LogStructuredFs → Type 0}
      → Racing env calls s u v p q P
      → ((c : Updates) → c.phases v ≡ q → P c.store → Arrives env calls v q' Q c)
      → Racing env calls s u v p q' Q
  by_v r more =
      let a = more r.end r.at_v r.holds in
      record {
        end = a.end;
        steps = Steps-trans r.steps a.steps;
        at_u = a.others u apart_v ∙ r.at_u;
        at_v = a.at;
        holds = a.holds;
      }

  turned_end :
      {p q : Phase} {d : Disk} {offset : ℕ} {n m : INode}
      → Racing env calls s u v p q (Seen s d offset iv m iu n)
      → Racing env calls s u v p q (Seen s d offset iu n iv m)
  turned_end r = record {
    end = r.end;
    steps = r.steps;
    at_u = r.at_u;
    at_v = r.at_v;
    holds = turned r.end.store r.holds;
  }

  start : Racing env calls s u v called called (Seen s s.disk s.offset iu nu iv nv)
  start = record {
    end = at_start s;
    steps = here;
    at_u = refl;
    at_v = refl;
    holds = record {
      disk_is = refl;
      offset_is = refl;
      region_is = refl;
      regions_are = refl;
      active_is = refl;
      shards = w.shards;
      one = found_u;
      two = found_v;
    };
  }

  both_swapped :
      Racing env calls s u v swapped swapped (Seen s s.disk s.offset iu (bumped nu) iv (bumped nv))
  both_swapped =
      let r = by_u start (λ c at seen. swaps env calls s u iv keys_u c at same_u seen) in
      turned_end
        (by_v r (λ c at seen. swaps env calls s v iu keys_v c at same_v (turned c.store seen)))

  both_appended :
      Racing env calls s u v
        (noting at_position)
        (noting at_position)
        (Seen s both s.offset iu (bumped nu) iv (bumped nv))
  unfolding append_file
  both_appended =
      let r =
        by_u both_swapped
          (λ c at seen. appends env calls s u iv keys_u w.file c w.active w.healthy at seen) in
      turned_end (
        by_v r (λ c at seen.
          appends env calls s v iu keys_v w.file c w.active w.healthy at (turned c.store seen)))

  both_noted : Racing env calls s u v noted noted (
      Seen s both s.offset iu
        (rewritten s (calls u).newseg (bumped nu))
        iv
        (rewritten s (calls v).newseg (bumped nv)))
  both_noted =
      let r = by_u both_appended (λ c at seen. notes env calls s u iv keys_u c at seen) in
      turned_end (by_v r (λ c at seen. notes env calls s v iu keys_v c at (turned c.store seen)))

  abbrev middle : ℕ
  middle = (s.offset + size (calls u).newseg) % 2 ^ 64

  abbrev last : ℕ
  last = (middle + size (calls v).newseg) % 2 ^ 64

  both_ended : Racing env calls s u v (returned (ok tt)) (returned (ok tt)) (
      Seen s both last iu
        (rewritten s (calls u).newseg (bumped nu))
        iv
        (rewritten s (calls v).newseg (bumped nv)))
  both_ended =
      let r =
        by_u both_noted
          (λ c at seen. ends env calls s u iv keys_u c at (ground (arith, room, below)) seen) in
      turned_end (
        by_v r (λ c at seen.
          ends env calls s v iu keys_v c at (ground (arith, room, below)) (turned c.store seen)))

  -- The entry of the second call points to the record of the first.
  misplaced :
      (t : LogStructuredFs)
      → SeenBy both last
          (rewritten s (calls u).newseg (bumped nu))
          (rewritten s (calls v).newseg (bumped nv))
          t
      → StoredAs env t (rewritten s (calls v).newseg (bumped nv)) (calls u).newseg
  unfolding contents
  misplaced t seen = record {
    file = w.file;
    pre = w.text;
    post = ser v;
    region = rw seen.regions_are w.current;
    bytes =
        rw
          (
            seen.disk_is,
            lookup-append_file w.file w.file (ser v) (append_file w.file (ser u) s.disk),
            ==-self w.file,
            lookup-append_file w.file w.file (ser u) s.disk,
            ==-self w.file,
            w.written,
          )
          (ap some (append_assoc w.text (ser u) (ser v)));
    position = w.offset_is;
    valid = valid;
  }

  -- From a state that satisfies the invariant, let two calls of UpdateSegmentWithCAS update keys with
  -- different inode numbers, each at the version of its entry, the first to a well-formed record, and
  -- let both records leave the length of the active region in 64 bits and below the threshold.
  -- Then their steps can be interleaved so that both return without an error and from then on a
  -- fetch of the second key answers for the record that the first call wrote, under the second key's
  -- next version, or says expired when the second record is expired.
  pub Steps-misplaced :
      (c : Updates) × Steps env calls (at_start s) c
      × (c.phases u ≡ returned (ok tt))
      × (c.phases v ≡ returned (ok tt))
      × ((now : ℕ)
          → (fetch_segment env now (calls v).key c.store).0 ≡ (
              if leb (calls v).newseg.expired_at now && not (nat_beq (calls v).newseg.expired_at 0)
              then err expired
              else map_result
                  (λ d. ((nv.mvcc + 1) % 2 ^ 64, record (calls u).newseg { value = d }))
                  (decode env.transformer (calls u).newseg.value)))
  unfolding view is_expired
  Steps-misplaced =
      let r = both_ended in
      let n : INode = rewritten s (calls v).newseg (bumped nv) in
      (
        r.end,
        r.steps,
        r.at_u,
        r.at_v,
        λ now.
            rw
              (
                fetch_run env now (calls v).key r.end.store r.holds.shards,
                r.holds.two,
                fetch_inode-StoredAs env r.end.store n (calls u).newseg hv
                    (misplaced r.end.store r.holds),
              )
              refl,
      )

-- ===== src/Vfs/Updates/Alone.antt =====
-- An update whose steps no other call interrupts does what the operation of vfs/lfs.go is taken for.
use mathlib.Core.Path.{subst}
use wiredkv.Prelude.{
  ℕ, ◌+◌, ◌%◌, ◌^◌, ◌≡◌, ◌≢◌, refl, sym, ap, ◌∙◌, arith, true, false, none, some, Result, ok, err,
  Error, version_conflict, index_not_found, nat_eq, nat_beq, nat_beq_iff, ◌==◌, ==-self, Bool-cases,
  Option-cases, inl, inr, leb, list_eq,
}
use wiredkv.Vfs.Hash.{inode_num}
use wiredkv.Vfs.Segment.{Segment, size}
use wiredkv.Vfs.Codec.{INode, serialized_segment}
use wiredkv.Vfs.Fs.{Env, LogStructuredFs, ◌>>=◌, ◌>>◌, find_inode, store_inode, advance}
use wiredkv.Vfs.Lfs.{
  update_segment_with_cas, append_to_active_region, create_active_region, rotate_if_full,
  moved_inode,
}
use wiredkv.Vfs.Lfs.Index.{HasShards, shard_present, find_inode-store_inode}
use wiredkv.Vfs.Lfs.Faults.{Result-cases}
use wiredkv.Vfs.Updates.{
  Update, Field, at_position, at_created_at, at_expired_at, at_region_id, at_length, called, found,
  swapped, noting, noted, counted, full, returned, Updates, set_field, after_field, missing, find,
  conflict, swap, append, fail, note, count, keep, fill, rotate, Steps,
}
use wiredkv.Vfs.Updates.Keeps.{append-indexs, store_inode-HasShards}
use wiredkv.Vfs.Updates.Arrives.{set_field-same, Arrives, arrive, next}
use wiredkv.Vfs.Updates.Overwrite.{store_inode-store_inode, store_inode-stored}

module _ (env : Env) (calls : ℕ → Update) (u : ℕ) where
  abbrev i : ℕ
  i = inode_num env.hashes (calls u).key

  abbrev newseg : Segment
  newseg = (calls u).newseg

  -- Steps of the call lead to that result and that store.
  abbrev Ends : Result (Unit {0}) × LogStructuredFs → Updates → Type 0
  Ends x c = Arrives env calls u (returned x.0) (λ t. t ≡ x.1) c

  note_alone :
      (s : LogStructuredFs)
      → HasShards s.indexs
      → (f : Field) (n : INode) (c : Updates) → c.phases u ≡ noting f
      → c.store ≡ store_inode i n s
      → Arrives env calls u (after_field f) (λ x. x ≡ store_inode i (set_field f newseg s n) s) c
  unfolding store_inode
  note_alone s shards f n c at same =
      let spot : find_inode c.store i ≡ some n =
        ap (λ x. find_inode x i) same ∙ find_inode-store_inode s shards i i n ∙ rw ==-self refl in
      arrive env calls u (after_field f) (λ x. x ≡ store_inode i (set_field f newseg s n) s) c
        (store_inode i (set_field f newseg c.store n) c.store) (note c f n at spot)
        (ap (λ x. store_inode i (set_field f newseg x n) x) same
          ∙ ap (λ k. store_inode i k (store_inode i n s))
              (set_field-same f newseg s (store_inode i n s) n refl refl)
          ∙ store_inode-store_inode i n (set_field f newseg s n) s shards)

  notes_alone :
      (s : LogStructuredFs)
      → HasShards s.indexs
      → (n : INode) (c : Updates) → c.phases u ≡ noting at_position
      → c.store ≡ store_inode i n s
      → Arrives env calls u noted (λ x. x ≡ store_inode i (moved_inode newseg n.mvcc s n) s) c
  unfolding moved_inode
  notes_alone s shards n c at same =
      next env calls
        (next env calls
          (next env calls
            (next env calls (note_alone s shards at_position n c at same)
              (note_alone s shards at_created_at _))
            (note_alone s shards at_expired_at _))
          (note_alone s shards at_region_id _))
        (note_alone s shards at_length _)

  rotate_if_full-Ends :
      (t : LogStructuredFs) (c : Updates)
      → c.phases u ≡ noted
      → c.store ≡ t
      → Ends (rotate_if_full env (advance (size newseg) t)) c
  unfolding rotate_if_full
  rotate_if_full-Ends t c at same =
      let t' : LogStructuredFs = advance (size newseg) t in
      let counts : Arrives env calls u counted (λ x. x ≡ t') c =
        arrive env calls u counted (λ x. x ≡ t') c (advance (size newseg) c.store) (count c at)
          (ap (advance (size newseg)) same) in
      elim (Bool-cases (leb env.region_threshold t'.offset)) [
        | inr room ↦ rw room (
            next env calls counts (λ d at_d same_d.
              arrive env calls u (returned (ok tt)) (λ x. x ≡ t') d d.store
                (keep d at_d (ap (λ x. leb env.region_threshold x.offset) same_d ∙ room)) same_d))
        | inl more ↦ rw more (
            next env calls
              (next env calls counts (λ d at_d same_d.
                arrive env calls u full (λ x. x ≡ t') d d.store
                  (fill d at_d (ap (λ x. leb env.region_threshold x.offset) same_d ∙ more)) same_d))
              (λ d at_d same_d.
                arrive env calls u (returned (create_active_region t').0)
                  (λ x. x ≡ (create_active_region t').1) d (create_active_region t').1
                  (rotate d _ _ at_d (ap create_active_region same_d)) refl))
      ]

  abbrev whole : LogStructuredFs → Result (Unit {0}) × LogStructuredFs
  whole s = update_segment_with_cas env (calls u).key (calls u).expected newseg s

  abbrev bumped : INode → INode
  bumped n = record n { mvcc = ((calls u).expected + 1) % 2 ^ 64 }

  -- What follows the write.
  abbrev finish : INode → LogStructuredFs → Result (Unit {0}) × LogStructuredFs
  finish n t = rotate_if_full env (
      advance (size newseg)
        (store_inode i (moved_inode newseg (((calls u).expected + 1) % 2 ^ 64) t n) t))

  module _ (s : LogStructuredFs) (shards : HasShards s.indexs) (n : INode)
      (spot : find_inode s i ≡ some n) where
    abbrev writing : Result (Unit {0}) × LogStructuredFs
    writing =
        append_to_active_region s.active (serialized_segment env.hashes newseg)
          (store_inode i (bumped n) s)

    refused_run : nat_beq n.mvcc (calls u).expected ≡ false → whole s ≡ (err version_conflict, s)
    unfolding update_segment_with_cas ◌>>=◌ ◌>>◌
    refused_run other =
        let (m, shard) = shard_present s.indexs i shards in rw (shard, spot, other) refl

    failed_run :
        (e : Error)
        → nat_beq n.mvcc (calls u).expected ≡ true
        → writing.0 ≡ err e
        → whole s ≡ (err e, writing.1)
    unfolding update_segment_with_cas ◌>>=◌ ◌>>◌ store_inode
    failed_run e same failed =
        let (m, shard) = shard_present s.indexs i shards in rw (shard, spot, same, failed) refl

    written_run :
        nat_beq n.mvcc (calls u).expected ≡ true → writing.0 ≡ ok tt → whole s ≡ finish n writing.1
    unfolding update_segment_with_cas ◌>>=◌ ◌>>◌ store_inode
    written_run same wrote =
        let (m, shard) = shard_present s.indexs i shards in rw (shard, spot, same, wrote) refl

    swaps_alone :
        (c : Updates)
        → c.phases u ≡ called
        → c.store ≡ s
        → n.mvcc ≡ (calls u).expected
        → Arrives env calls u swapped (λ x. x ≡ store_inode i (bumped n) s) c
    swaps_alone c at there same =
        let spot_in : (t : LogStructuredFs) → t ≡ s → find_inode t i ≡ some n =
          λ t e. ap (λ x. find_inode x i) e ∙ spot in
        next env calls
          (arrive env calls u found (λ x. x ≡ s) c c.store (find c n at (spot_in c.store there))
            there)
          (λ d at_d there_d.
            arrive env calls u swapped (λ x. x ≡ store_inode i (bumped n) s) d
              (store_inode i (bumped n) d.store) (swap d n at_d (spot_in d.store there_d) same)
              (ap (store_inode i (bumped n)) there_d))

    writes_alone :
        (d : Updates)
        → d.phases u ≡ swapped
        → d.store ≡ store_inode i (bumped n) s
        → writing.0 ≡ ok tt
        → Ends (finish n writing.1) d
    unfolding store_inode moved_inode
    writes_alone d at there wrote =
        let b = serialized_segment env.hashes newseg in
        let t : LogStructuredFs = writing.1 in
        let ran : append_to_active_region d.store.active b d.store ≡ (ok tt, t) =
          ap (λ x. append_to_active_region x.active b x) there ∙ ap (λ r. (r, t)) wrote in
        let indexs_are : t.indexs ≡ (store_inode i (bumped n) s).indexs =
          append-indexs s.active b (store_inode i (bumped n) s) in
        let t_shards : HasShards t.indexs =
          subst HasShards (sym indexs_are) (store_inode-HasShards i (bumped n) s shards) in
        next env calls
          (next env calls
            (arrive env calls u (noting at_position) (λ x. x ≡ store_inode i (bumped n) t) d t
              (append d t at ran) (store_inode-stored i (bumped n) s t shards indexs_are))
            (notes_alone t t_shards (bumped n)))
          (rotate_if_full-Ends
            (store_inode i (moved_inode newseg (((calls u).expected + 1) % 2 ^ 64) t n) t))

    made_alone :
        (c : Updates)
        → c.phases u ≡ called
        → c.store ≡ s
        → nat_beq n.mvcc (calls u).expected ≡ true
        → Ends (whole s) c
    unfolding store_inode
    made_alone c at there same =
        let swaps = swaps_alone c at there ((nat_beq_iff _ _).0 same) in
        elim (Result-cases writing.0) [
          | inl (unit, wrote) ↦
              rw (written_run same wrote)
                (next env calls swaps (λ d at_d there_d. writes_alone d at_d there_d wrote))
          | inr (e, failed) ↦ rw (failed_run e same failed) (
              next env calls swaps (λ d at_d there_d.
                let b = serialized_segment env.hashes newseg in
                let ran : append_to_active_region d.store.active b d.store ≡ (err e, writing.1) =
                  ap (λ x. append_to_active_region x.active b x) there_d
                  ∙ ap (λ r. (r, writing.1)) failed in
                arrive env calls u (returned (err e)) (λ x. x ≡ writing.1) d writing.1
                  (fail d e writing.1 at_d ran) refl))
        ]

  -- From any state of the calls where every shard is there and a call is at its start, there are steps
  -- to a state where it has returned the result, and the store is the one, of the operation as a whole
  -- run on the first store, and every other call is where it was.
  pub Steps-alone :
      (c : Updates)
      → HasShards c.store.indexs
      → c.phases u ≡ called
      → (d : Updates) × Steps env calls c d
        × (d.store
            ≡ (update_segment_with_cas env
                (calls u).key
                (calls u).expected
                (calls u).newseg
                c.store).1)
        × (d.phases u
            ≡ returned
                (update_segment_with_cas env
                  (calls u).key
                  (calls u).expected
                  (calls u).newseg
                  c.store).0)
        × ((v : ℕ) → (u == v) ≡ false → d.phases v ≡ c.phases v)
  unfolding update_segment_with_cas ◌>>=◌ ◌>>◌
  Steps-alone c shards at = let a = alone in (a.end, a.steps, a.holds, a.at, a.others)
    where
      missing_run : find_inode c.store i ≡ none → whole c.store ≡ (err index_not_found, c.store)
      missing_run absent =
          let (m, shard) = shard_present c.store.indexs i shards in rw (shard, absent) refl

      alone : Ends (whole c.store) c
      alone = elim (Option-cases (find_inode c.store i)) [
        | inl absent ↦ rw (missing_run absent) (
            arrive env calls u (returned (err index_not_found)) (λ x. x ≡ c.store) c c.store
              (missing c at absent) refl)
        | inr (n, spot) ↦ elim (Bool-cases (nat_beq n.mvcc (calls u).expected)) [
          | inl same ↦ made_alone c.store shards n spot c at refl same
          | inr other ↦
              let differs : n.mvcc ≢ (calls u).expected =
                λ e. ground (arith, other, (nat_beq_iff n.mvcc (calls u).expected).1 e) in
              rw (refused_run c.store shards n spot other) (
                next env calls
                  (arrive env calls u found (λ x. x ≡ c.store) c c.store (find c n at spot) refl)
                  (λ d at_d there_d.
                    arrive env calls u (returned (err version_conflict)) (λ x. x ≡ c.store) d
                      d.store (conflict d n at_d (ap (λ x. find_inode x i) there_d ∙ spot) differs)
                      there_d))
        ]
      ]

-- ===== src/Tests/Races.antt =====
-- Updates that run at the same time, at concrete stores.
use wiredkv.Prelude.{
  ◌+◌, ◌∷◌, ℕ, ◌≡◌, ◌≢◌, refl, arith, [], some, ok, nat_eq, ap, ◌∙◌, leb, ◌&&◌, err, expired, ◌==◌,
  false, if◌then◌else◌,
}
use wiredkv.Prelude.Map.{lookup, insert}
use wiredkv.Vfs.Hash.{inode_num}
use wiredkv.Vfs.Segment.{size}
use wiredkv.Vfs.Transformer.{decode, active_encryptor, active_compressor}
use wiredkv.Vfs.Codec.{INode, serialized_segment, header}
use wiredkv.Vfs.Disk.{write, append_file}
use wiredkv.Vfs.Fs.{
  Env, LogStructuredFs, find_inode, store_inode, update_shard, advance, select_shard, ◌>>=◌, ◌>>◌,
}
use wiredkv.Vfs.Lfs.{
  put_segment, append_to_active_region, rotate_if_full, inode_at, fetch_segment,
  update_segment_with_cas,
}
use wiredkv.Vfs.Lfs.WellFormed.{WellFormed}
use wiredkv.Vfs.Lfs.Put.{Fits, put_segment-WellFormed}
use wiredkv.Vfs.Lfs.Cas.{update_segment_with_cas-WellFormed}
use wiredkv.Vfs.Lfs.Fresh.{nothing_found, with_region-new_fs, new_fs}
use wiredkv.Vfs.Updates.{Update, Updates, called, returned, Steps, at_start}
use wiredkv.Vfs.Updates.Alone.{Steps-alone}
use wiredkv.Vfs.Lfs.Refinement.{Records, put, update, exec, spec, Represents}
use wiredkv.Vfs.Lfs.Refinement.Step.{exec-Refines}
use wiredkv.Vfs.Lfs.Refinement.Sequence.{no_records}
use wiredkv.Vfs.Open.Session.{records_after}
use wiredkv.Vfs.Lfs.{moved_inode}
use wiredkv.Vfs.Updates.Serial.{commands, Answered, Steps-Represents}
use wiredkv.Vfs.Updates.Once.{Steps-once}
use wiredkv.Vfs.Updates.Race.{Steps-misplaced}
use wiredkv.Tests.Sample.{
  sample_hashes, sample_hashes-IsHashes, sample_env, apple, pear, record_of, record_of-IsSegment,
  record_of-Fits, stocked, stocked-WellFormed, stocked-Fits, stocked_state, apple_entry, empty_disk,
  new_store,
}

-- All calls update one key at one version.
abbrev same_updates : ℕ → Update
same_updates u = record { key = apple; expected = 0; newseg = record_of apple 3 }

-- The state after one call.
abbrev after_one : Updates
after_one =
    (Steps-alone sample_env same_updates 7 (at_start stocked) stocked-WellFormed.shards refl).0

one_made : after_one.phases 7 ≡ returned (ok tt)
one_made =
    let (d, steps, store, at, others) =
      Steps-alone sample_env same_updates 7 (at_start stocked) stocked-WellFormed.shards refl in
    at
    ∙ ap returned
        (update_segment_with_cas-WellFormed sample_env sample_hashes-IsHashes stocked
          stocked-WellFormed apple (record_of apple 3) (stocked-Fits b'a' 3) apple_entry
          stocked_state.2).0

Steps-once_example : after_one.phases 8 ≢ returned (ok tt)
Steps-once_example =
    Steps-once sample_env same_updates (λ u. omega arith) stocked stocked-WellFormed.shards
      after_one
      (Steps-alone sample_env same_updates 7 (at_start stocked) stocked-WellFormed.shards refl).1 7
      8 (λ e. omega (arith, e)) refl refl one_made

-- A store with two records, whose regions are larger.
abbrev wide_env : Env
wide_env = record sample_env { region_threshold = 1024 }

new_store-WellFormed_wide : WellFormed wide_env new_store
new_store-WellFormed_wide = with_region-new_fs [] empty_disk wide_env refl refl

abbrev with_apple : LogStructuredFs
with_apple = (put_segment wide_env apple (record_of apple 1) new_store).1

abbrev with_both : LogStructuredFs
with_both = (put_segment wide_env pear (record_of pear 2) with_apple).1

with_apple-WellFormed : WellFormed wide_env with_apple
with_apple-WellFormed =
    (put_segment-WellFormed wide_env sample_hashes-IsHashes new_store new_store-WellFormed_wide
      apple (record_of apple 1) (record_of-Fits b'a' 1)).1

with_apple_state : (with_apple.offset ≡ 36) × (with_apple.region_id ≡ 1)
unfolding put_segment append_to_active_region ◌>>=◌ ◌>>◌ new_fs inode_num serialized_segment header
    write select_shard store_inode update_shard insert advance rotate_if_full inode_at size
    find_inode lookup append_file
with_apple_state = (refl, refl)

with_apple-Fits : Fits with_apple pear (record_of pear 2)
unfolding size
with_apple-Fits =
    let (at, region) = with_apple_state in
    record {
      valid = record_of-IsSegment b'p' 2;
      key_is = refl;
      room = omega (arith, at);
      regions_left = omega (arith, region);
    }

with_both-WellFormed : WellFormed wide_env with_both
with_both-WellFormed =
    (put_segment-WellFormed wide_env sample_hashes-IsHashes with_apple with_apple-WellFormed pear
      (record_of pear 2) with_apple-Fits).1

abbrev pear_entry : INode
pear_entry = record apple_entry { position = 36 }

with_both_state :
    (with_both.offset ≡ 68)
    × (find_inode with_both (inode_num sample_hashes apple) ≡ some apple_entry)
    × (find_inode with_both (inode_num sample_hashes pear) ≡ some pear_entry)
unfolding put_segment append_to_active_region ◌>>=◌ ◌>>◌ new_fs inode_num serialized_segment header
    write select_shard store_inode update_shard insert advance rotate_if_full inode_at size
    find_inode lookup append_file
with_both_state = (refl, refl, refl)

-- The first call updates the apple, the others the pear.
abbrev two_updates : ℕ → Update
two_updates u =
    if u == 0
    then record { key = apple; expected = 0; newseg = record_of apple 3 }
    else record { key = pear; expected = 0; newseg = record_of pear 4 }

Steps-misplaced_example :
    (c : Updates) × Steps wide_env two_updates (at_start with_both) c
    × (c.phases 0 ≡ returned (ok tt))
    × (c.phases 1 ≡ returned (ok tt))
    × ((now : ℕ)
        → (fetch_segment wide_env now pear c.store).0
          ≡ (if leb 0 now && false then err expired else ok (1, record_of apple 3)))
unfolding size inode_num decode active_encryptor active_compressor
Steps-misplaced_example =
    let (at, apple_at, pear_at) = with_both_state in
    Steps-misplaced wide_env sample_hashes-IsHashes two_updates with_both with_both-WellFormed 0 1
      (λ e. omega (arith, e)) (λ e. omega (arith, e)) apple_entry pear_entry apple_at pear_at refl
      refl (record_of-IsSegment b'a' 3) (omega (arith, at)) (omega (arith, at))

-- A store that stands for one apple, and calls that raise its version one after another.
abbrev one_apple : Records
one_apple = (spec wide_env (put apple (record_of apple 1)) no_records).1

new_store-Represents_wide : Represents wide_env new_store no_records
new_store-Represents_wide = record { each = λ inum. rw (nothing_found [] empty_disk inum) tt }

with_apple-Represents : Represents wide_env with_apple one_apple
unfolding exec
with_apple-Represents =
    (exec-Refines wide_env sample_hashes-IsHashes new_store new_store-WellFormed_wide no_records
      new_store-Represents_wide (put apple (record_of apple 1)) (record_of-Fits b'a' 1)).2

abbrev raising : ℕ → Update
raising u = record { key = apple; expected = u; newseg = record_of apple (u + 3) }

apple-Fits : Fits with_apple apple (record_of apple 3)
unfolding size
apple-Fits =
    let (at, region) = with_apple_state in
    record {
      valid = record_of-IsSegment b'a' 3;
      key_is = refl;
      room = omega (arith, at);
      regions_left = omega (arith, region);
    }

abbrev once_raised : LogStructuredFs
once_raised = (exec wide_env (update apple 0 (record_of apple 3)) with_apple).1

once_raised_state : (once_raised.offset ≡ 68) × (once_raised.region_id ≡ 1)
unfolding exec put_segment update_segment_with_cas append_to_active_region ◌>>=◌ ◌>>◌ new_fs
    inode_num serialized_segment header write select_shard store_inode update_shard insert advance
    rotate_if_full inode_at moved_inode size find_inode lookup append_file
once_raised_state = (refl, refl)

raised-Fits : Fits once_raised apple (record_of apple 4)
unfolding size
raised-Fits =
    let (at, region) = once_raised_state in
    record {
      valid = record_of-IsSegment b'a' 4;
      key_is = refl;
      room = omega (arith, at);
      regions_left = omega (arith, region);
    }

Steps-Represents_example :
    (d : Updates) × Steps wide_env raising (at_start with_apple) d
    × WellFormed wide_env d.store
    × Represents wide_env d.store (records_after wide_env (commands raising (0 ∷ 1 ∷ [])) one_apple)
    × Answered raising wide_env d.phases (0 ∷ 1 ∷ []) one_apple
    × ((v : ℕ) → (0 ≢ v) × ((1 ≢ v) × Unit {0}) → d.phases v ≡ called)
Steps-Represents_example =
    Steps-Represents wide_env sample_hashes-IsHashes raising (0 ∷ 1 ∷ []) (at_start with_apple)
      one_apple ((λ e. omega (arith, e), tt), (tt, tt)) (refl, (refl, tt)) with_apple-WellFormed
      with_apple-Represents (apple-Fits, (raised-Fits, tt))

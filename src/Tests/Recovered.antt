-- ===== src/Tests/Recovered.antt =====
-- The recovery of what a session wrote.
use wiredkv.Prelude.{refl, arith, [], ◌∷◌, ◌++◌, ◌≢◌, err, stuck}
use wiredkv.Prelude.Bytes.{Bytes}
use wiredkv.Vfs.Transformer.{decode, active_encryptor, active_compressor}
use wiredkv.Vfs.Codec.{serialized_segment, header}
use wiredkv.Vfs.Fs.{LogStructuredFs}
use wiredkv.Vfs.Lfs.{data_file_metadata}
use wiredkv.Vfs.Lfs.Append.{changed_index}
use wiredkv.Vfs.Lfs.WellFormed.{WellFormed}
use wiredkv.Vfs.Lfs.Fresh.{
  found_in_empty, nothing_found, with_region-new_fs, empty_shards, empty_shards-HasShards,
  empty_shards-IsPlaced,
}
use wiredkv.Vfs.Lfs.Refinement.{Represents}
use wiredkv.Vfs.Lfs.Refinement.Sequence.{no_records}
use wiredkv.Vfs.Recovery.Termination.{scan_region-ends}
use wiredkv.Vfs.Recovery.{scan_region, crash_recovery_all_index, sorted_ids}
use wiredkv.Vfs.Recovery.Scan.{Restores}
use wiredkv.Vfs.Recovery.Regions.{IsLaidOut, regions_logged, crash_recovery_all_index-Restores}
use wiredkv.Vfs.Recovery.Order.{HasRegion, All-step, sorted_ids-All}
use wiredkv.Vfs.Recovery.Journal.{Journal, changed_index-Journal}
use wiredkv.Vfs.Open.Session.{records_after}
use wiredkv.Vfs.Open.Crashed.{store_after-Journal, first-Journal}
use wiredkv.Vfs.Open.Torn.{used}
use wiredkv.Tests.Sample.{
  sample_hashes, sample_hashes-IsHashes, sample_env, empty_disk, new_store, apple, record_of,
}
use wiredkv.Tests.Sequences.{roomy, commands, commands_fit}
use wiredkv.Tests.Crashes.{options, commands_outlast}

-- The store after a session.
abbrev crashed : LogStructuredFs
crashed = used roomy 40 60 options empty_disk refl refl commands

abbrev crashed_state :
    WellFormed roomy crashed × Journal roomy 60 crashed (records_after roomy commands no_records)
crashed_state =
    store_after-Journal roomy 60 commands new_store no_records sample_hashes-IsHashes
      (with_region-new_fs [] empty_disk roomy refl refl)
      (record { each = λ inum. rw (nothing_found [] empty_disk inum) tt })
      (first-Journal roomy 40 60 options empty_disk refl refl) commands_fit commands_outlast

-- It loses its index.
abbrev emptied : LogStructuredFs
emptied = record crashed { indexs = empty_shards }

emptied-WellFormed : WellFormed roomy emptied
emptied-WellFormed =
    changed_index roomy crashed crashed_state.0 empty_shards empty_shards-HasShards
      empty_shards-IsPlaced (λ inum n p. let q = found_in_empty emptied refl inum in cc)

abbrev emptied-Journal : Journal roomy 60 emptied (records_after roomy commands no_records)
emptied-Journal =
    changed_index-Journal roomy 60 crashed crashed_state.0 (records_after roomy commands no_records)
      crashed_state.1 empty_shards

emptied-Represents : Represents roomy emptied no_records
emptied-Represents = record { each = λ inum. rw (found_in_empty emptied refl inum) tt }

crash_recovery_all_index-Restores_example :
    Restores roomy emptied
      (regions_logged sample_hashes 60 emptied-Journal.segs_of
        (sorted_ids emptied.regions)
        no_records)
      (crash_recovery_all_index roomy 60 emptied)
crash_recovery_all_index-Restores_example =
    crash_recovery_all_index-Restores roomy sample_hashes-IsHashes 60 emptied
      emptied-Journal.segs_of no_records
      (All-step (HasRegion emptied.regions)
        (λ id. IsLaidOut roomy emptied id (emptied-Journal.segs_of id)) (sorted_ids emptied.regions)
        (λ id (f, p). emptied-Journal.laid id f p) (sorted_ids-All emptied.regions))
      emptied-WellFormed emptied-Represents

abbrev junk : Bytes
junk =
    data_file_metadata ++ (serialized_segment sample_hashes (record_of apple 1) ++ (1 ∷ 2 ∷ 3 ∷ []))

sample_decode-ne : (b : Bytes) → decode sample_env.transformer b ≢ err stuck
unfolding decode active_encryptor active_compressor
sample_decode-ne b p = cc

scan_region-ends_example : scan_region sample_env 50 1 junk 40 4 [] ≢ err stuck
unfolding serialized_segment header
scan_region-ends_example =
    scan_region-ends sample_env sample_decode-ne junk 39 50 1 4 [] (omega arith) (omega arith)

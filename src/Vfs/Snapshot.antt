-- ===== src/Vfs/Snapshot.antt =====
-- The index snapshot of vfs/lfs.go: ExportSnapshotIndex, which CloseFS calls, and the two
-- functions named recoveryIndex, which OpenFS uses.
pub mod Entries
pub mod Export
pub mod Trip
pub mod Reopened
pub mod Exported
use wiredkv.Prelude.{
  ℕ, zero, suc, ◌+◌, Bool, List, [], ◌∷◌, Option, none, some, Result, ok, err, io_failed,
  partial_write, panicked, stuck, shard_not_found, leb, nat_beq, length, if◌then◌else◌, ◌>>=◌,
  nat_eq,
}
use wiredkv.Prelude.Bytes.{Bytes}
use wiredkv.Prelude.Map.{insert}
use wiredkv.Vfs.Hash.{Hashes}
use wiredkv.Vfs.Codec.{INode, serialized_index, deserialized_index, read_at}
use wiredkv.Vfs.Disk.{File, Disk, write, truncate_file, open_existing, is_exist, contents}
use wiredkv.Vfs.Fs
use wiredkv.Vfs.Fs.{
  Env, LogStructuredFs, IndexMap, Fs, lift, gets, on_disk, select_shard, update_shard,
}
use wiredkv.Vfs.Lfs.{index_file_name, data_file_metadata, done}
use wiredkv.Vfs.Recovery.{crash_recovery_all_index}

-- fd.Write(bytes) of which only the error is looked at.
abbrev pub written : Result ℕ → Result (Unit {0})
written (ok n) = ok tt
written (err e) = err e

abbrev pub then_on :
    Result (Unit {0}) × Disk → (Disk → Result (Unit {0}) × Disk) → Result (Unit {0}) × Disk
then_on (ok u, d) next = next d
then_on (err e, d) next = (err e, d)

abbrev pub write_all : File → Bytes → Disk → Result (Unit {0}) × Disk
write_all fd b d = let (r, d') = write fd b d in (written r, d')

-- The loop over the entries of one shard.
unfoldable pub export_entries : Hashes → File → IndexMap → Disk → Result (Unit {0}) × Disk
export_entries h fd [] d = (ok tt, d)
export_entries h fd ((inum, n) ∷ m) d =
    then_on (write_all fd (serialized_index h inum n) d) (export_entries h fd m)

-- The loop over the shards; a nil shard panics.
unfoldable pub export_shards :
    Hashes → File → List (Option IndexMap) → Disk → Result (Unit {0}) × Disk
export_shards h fd [] d = (ok tt, d)
export_shards h fd (none ∷ ms) d = (err panicked, d)
export_shards h fd (some m ∷ ms) d = then_on (export_entries h fd m d) (export_shards h fd ms)

-- What the deferred FlushToDisk returns is not looked at.
abbrev pub metadata_written : Result ℕ → Result (Unit {0})
metadata_written (ok n) = if nat_beq n (length data_file_metadata) then ok tt else err partial_write
metadata_written (err e) = err e

abbrev pub write_metadata : File → Disk → Result (Unit {0}) × Disk
write_metadata fd d = let (r, d') = write fd data_file_metadata d in (metadata_written r, d')

abbrev pub export_to :
    Hashes → List (Option IndexMap) → Result File × Disk → Result (Unit {0}) × Disk
export_to h indexs (err e, d) = (err e, d)
export_to h indexs (ok fd, d) = then_on (write_metadata fd d) (export_shards h fd indexs)

-- What the deferred FlushToDisk returns is not looked at.
unfoldable pub export_snapshot_index : Env → Fs (Unit {0})
export_snapshot_index env s =
    on_disk (λ d. export_to env.hashes s.indexs (truncate_file index_file_name d)) s

abbrev pub import_in :
    Option IndexMap → ℕ × INode → List (Option IndexMap) → Result (List (Option IndexMap))
import_in none (inum, n) indexs = err shard_not_found
import_in (some m) (inum, n) indexs = ok (update_shard (insert inum n) inum indexs)

-- What the consumer does with one entry.
unfoldable pub import_entry : ℕ × INode → List (Option IndexMap) → Result (List (Option IndexMap))
import_entry (inum, n) indexs = import_in (select_shard indexs inum) (inum, n) indexs

-- recoveryIndex(fd, indexs): `for offset < finfo.Size()`, on fuel. The two goroutines hand entry
-- after entry through a channel, so they do what one loop does; an error ends both.
unfoldable pub import_index :
    Hashes → ℕ → Bytes → ℕ → List (Option IndexMap) → Result (List (Option IndexMap))
import_index h zero file offset indexs = err stuck
import_index h (suc fuel) file offset indexs = if leb (length file) offset then ok indexs else do
  buf ← read_at file offset 48
  found ← deserialized_index h buf
  indexs' ← import_entry found indexs
  import_index h fuel file (offset + 48) indexs'

unfoldable pub recover_snapshot :
    Hashes → Bytes → List (Option IndexMap) → Result (List (Option IndexMap))
recover_snapshot h file indexs =
    import_index h (suc (length file)) file (length data_file_metadata) indexs

abbrev pub replayed :
    LogStructuredFs → Result (List (Option IndexMap)) → Result (Unit {0}) × LogStructuredFs
replayed s (err e) = (err e, s)
replayed s (ok indexs) = (ok tt, record s { indexs = indexs })

abbrev pub recovered :
    Env → LogStructuredFs → Result File × Disk → Result (Unit {0}) × LogStructuredFs
recovered env s (err e, d) = (err e, record s { disk = d })
recovered env s (ok fd, d) =
    replayed (record s { disk = d }) (recover_snapshot env.hashes (contents fd d) s.indexs)

-- The method recoveryIndex. On an error OpenFS gives up, so entries that were stored before it are
-- not seen.
unfoldable pub recovery_index : Env → ℕ → Fs (Unit {0})
recovery_index env now s =
    if is_exist index_file_name s.disk
    then recovered env s (open_existing index_file_name s.disk)
    else replayed s (crash_recovery_all_index env now s)

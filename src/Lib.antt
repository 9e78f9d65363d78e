-- ===== src/Lib.antt =====
-- wiredkv, a key-value database over a log-structured file system.
--
-- vfs keeps the values. Each key is hashed to an inode number, and a sharded index in memory maps
-- inode numbers to entries: the region file, the position and length of the key's newest record, its
-- times, and a version number for optimistic updates. Records are appended to the active region
-- file; a new region is opened when it reaches a threshold. A delete appends a tombstone and drops
-- the entry. Values are encoded by a transformer (compression, then encryption) when a record is
-- built, and decoded when it is read. When a store is closed it exports a snapshot of its index, and
-- when a directory is opened the index is read from the snapshot, or from the region files where there
-- is none. types holds the values that clients store, conf the options of the server, server the HTTP
-- interface that calls vfs, and cmd starts all of them.
--
-- Which file models what:
-- - Vfs/Lfs.antt: the operations of vfs/lfs.go on keys (PutSegment, DeleteSegment, FetchSegment,
--   BatchFetchSegments, UpdateSegmentWithCAS, KeysCount, createActiveRegion,
--   appendToActiveRegion) as actions on the state of Vfs/Fs.antt, which is the Go struct
--   LogStructuredFS with the data directory beside it. Below it stand Index (the shards as one map),
--   Stored (entries and their records), WellFormed (the invariant), Rotated (the next region),
--   Runs and Append (the steps of the operations), View (what a client sees), Put, Delete and Cas
--   (the operations), Fresh (the state that OpenFS makes for a new directory), and Faults (operations
--   whose writes or opens fail; Vfs/Disk/Faults.antt is about the disk then). Refinement is the
--   abstract specification, a map from inode numbers to versioned records with the commands on it,
--   and relates the two.
-- - Vfs/Updates.antt: calls of UpdateSegmentWithCAS that run at the same time, as steps on what they
--   share. Alone, with Overwrite, relates the steps of one call to the operation, and Serial those of calls
--   one after another to the map of Refinement; Once, with Keeps, and Race are about any order, and
--   Arrives and Seen about the steps of one call among several.
-- - Vfs/Recovery.antt: crashRecoveryAllIndex, the replay of all region files; Log reads a file as
--   records, Scan is about one file, Regions about all, Order about their order, and Termination about
--   files of any content. Journal says when the files agree with what a store stands for, and Commands
--   that commands keep this; Stops is about files that end in bytes that are no record.
-- - Vfs/Snapshot.antt: ExportSnapshotIndex and the two functions named recoveryIndex. Entries has the
--   index as a list, Export and Trip the two directions, Exported and Reopened what they mean for the
--   records of a store.
-- - Vfs/Open.antt: checkFileSystem, recoverRegions, OpenFS and CloseFS. A process opens its store before
--   it sets the transformer, so the opening reads with a new one (fresh_env of Vfs/Fs.antt). Directory is about the check,
--   Regions and Newest about the regions that are found, Trip and Reopened about opening what was
--   closed, Refused about directories that are not opened, Empty about a new directory, and Session
--   about everything from opening a new directory to opening it again. Crashed is about a session that
--   ends without closing the store, Broken and Torn about sessions after which the directory is not
--   opened.
-- - Vfs/Collector.antt: cleanupDirtyRegion, isValid and changeRegions, with the lock lfs.mu as part
--   of the state. Safety and Never are about what a collection changes and whether it returns.
--   Below it Worker has StartRegionGC, StopRegionGC and their goroutines as a step relation, Owned who
--   collects, and Exit that goroutines end.
-- - Vfs/Disk.antt: the directory's files as package os shows them. Each call that can fail takes the
--   next of a list of planned outcomes; a healthy disk has none left and does not fail.
-- - Vfs/Codec.antt: serializedSegment, readSegment, serializedIndex and deserializedIndex. Torn is about
--   records that were not written to their end.
-- - Vfs/FileName.antt: formatDataFileName, generateFileName and parseDataFileName.
-- - Vfs/Segment.antt: vfs/segment.go. Vfs/Transformer.antt: vfs/transformer.go. Vfs/Hash.antt: the
--   hashes of other packages and InodeNum.
-- - Types/Set.antt, Types/Text.antt, Types/AnyList.antt, Types/Number.antt, Types/Table.antt,
--   Types/ZSet.antt: types/set.go, types/text.go, types/list.go, types/number.go, types/table.go,
--   types/zset.go.
-- - Server/Controllers.antt: the controllers of server/db_service.go. Server/Routes.antt and
--   Server/Access.antt: the routes and authMiddleware of server/api.go. Groups, Trip and Removal are
--   about requests that follow one another. Server/Start.antt: New, SetAllowIP, Shutdown and
--   closeStorage of server/server.go, and init and runServer of cmd/process.go.
-- - Utils.antt: the arguments of the daemon, utils/str.go.
-- - Conf.antt: the options of conf/server_options.go and their validation.
-- - Prelude.antt: shared names and lemmas. Tests.antt: runs and concrete instances.
--
-- Numbers: a uint64 or uint32 is a natural number, with its wrap-around written out where the code
-- adds; an int64 value of types/number.go is its bit pattern. Strings and files are lists of bytes.
-- A Go map is an association list. Errors are the constructors of one type; their texts are not
-- modelled. A run-time panic is the error `panicked`. Readings of the clock are arguments.
--
-- Fuel: the digits of a region number are produced by at most 20 rounds, and a uint64 has at most 20
-- digits. The scan of a region file and the import of a snapshot have a round for each byte of the file
-- and one more; a record takes 30 bytes at least and an entry 48. The loop of a collection over one
-- file takes its fuel as an argument, since it need not end. No other loop has fuel.
--
-- The errors `stuck`, out of fuel, and `blocked`, waiting for a lock for ever, are no Go values: a
-- function that ends in one of them does not return, and its deferred calls do not run.
--
-- Not modelled: the locks, but for lfs.mu during a collection and in Vfs/Updates.antt, so each other
-- operation runs alone; time, so a ticker may tick at any step; data races on gcstate, whose reads and writes are steps of their
-- own; the loop of net/http, logging, the parsing of flags, signals and the daemon; loading and saving
-- of options; permissions of files, and directories inside the data directory; utils.RandomString. A
-- scan or an import of an open file fails at its end only; the other calls of package os can fail.
--
-- Parameters, with what is assumed of them where a theorem needs it: murmur3 and crc32 (their results
-- fit 64 and 32 bits), the compressor and encryptor (they undo their own work), AES and CBC (the two
-- modes undo one another on whole blocks and keep the length), bson (what it gives back shows the same
-- value), gin and its binding of JSON, the statistics of the machine, the comparison of scores (an
-- order), and what filepath.Join makes of a file's name in a collection.
pub mod Prelude
pub mod Conf
pub mod Types
pub mod Vfs
pub mod Utils
pub mod Server
pub mod Tests

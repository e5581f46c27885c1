-- ===== src/Lib.antt =====
-- Verification of the blob archive library (Go: core, its internal packages, and registry).
--
-- A blob archive is an index of entries, sorted by path, beside the bytes of the files, which are read
-- by ranges from a local or a remote source. Readers compare a content with the SHA-256 hash and the size
-- that its entry records. The parts, and how they work together:
--
-- Sizing, Stream: core/internal/sizing/size.go and EnsureNoExtra of core/internal/file/hasher.go. Checked
--   conversions and sums of machine integers, bounded reads.
-- Entry, Validation: core/internal/blobtype and core/internal/file/validation.go. Entries, and the checks
--   that every reader makes before it uses one.
-- Index: core/internal/index/index.go and LookupByKey of core/internal/fb/Entry.go. Lookup and prefix scan
--   of a sorted vector of entries by bisection.
-- FilePath: core/internal/file/path.go and core/path.go. Slash-separated paths as byte strings.
-- Dir: dirIter, ReadDir and openDir of core/blob.go, with the FileInfo values of core/internal/file/file.go.
--   Directories made up from the paths of an index.
-- Reading: core/internal/file/reader.go. Reading, decoding and verifying a whole entry.
-- File: core/internal/file/file.go. An open file as a state machine: init on the first use, reads that
--   hash what they deliver, verification at the end.
-- Batch: core/internal/batch/batch.go, group.go, stats.go, sink.go. Many entries are validated, sorted by
--   offset, grouped into ranges, read, verified and delivered to a sink, serially or by workers; the
--   pipeline that reads ahead is a step relation besides. FileSink (filesink.go) is the sink that writes
--   files, through temporary files or directly.
-- ByteSource: core/cache/blockcache.go. What a source of bytes answers and what one that holds some bytes
--   promises: Http gives it, Cache.Block takes it.
-- Http: core/http/source.go. A source of bytes behind range requests, with its conditions and retries.
-- Cache: core/cache/disk. Caches with a limit on their bytes: of files named by hash (cache.go, size.go) and
--   of the blocks of a source (blockcache.go).
-- Registry: registry/fetch.go, pull.go, manifest.go and registry/cache/disk. References are resolved and
--   manifests and indexes fetched through three caches, checked by digests and policies.
-- Archive: core/blob.go. The queries of an archive over its index, and ReadFile with its cache.
-- Save: core/save.go. An archive is written to an index file and a data file.
-- Create: core/create.go and core/internal/write. The walk of a directory that writes the contents one
--   after the other and makes up the index.
-- Tests: sample data, and each theorem below applied to it.
--
-- State is passed explicitly. A file, a cache and a batch run are records; their operations return the
-- next state beside a result. Goroutines that share a state are given by a schedule, a list that says
-- which of them goes on next. Errors keep their identity and lose their text. Functions outside the
-- repository are parameters: SHA-256, the zstd encoder and decoder, the decoding of FlatBuffers, a byte
-- source, the answers of a sink, the calls that fs.WalkDir makes and the failures of system calls.
--
-- An uint64 is a number below 2^64 whose sums wrap around; where the source converts to int64 or int
-- (64 bits), the model has the test that the source makes. Loops that are not structural run on fuel:
-- LookupByKey on one round more than there are entries, sort.Search on the number of entries, the loops
-- over Next on one call more than there are pending entries, writeAll on the number of bytes. That is
-- enough since each round halves or shortens the search window, takes an entry, or writes a byte. Close
-- takes the paces of the reads that it may make, and returns no result where they run out.
--
-- createTemp of the registry's caches makes the 10,000 attempts of the source. The pipeline's step relation
-- needs no fuel.
--
-- Not modelled: the pushing and signing side of the registry client and its ORAS
-- transport, the policies and the command-line glue; logs, progress reports and cancellation; the single
-- flights of the caches, which are taken to have one caller at a time.
pub mod Prelude
pub mod Stream
pub mod ByteSource
pub mod Http
pub mod Sizing
pub mod Entry
pub mod Validation
pub mod Index
pub mod FilePath
pub mod Dir
pub mod Batch
pub mod Cache
pub mod Registry
pub mod Reading
pub mod File
pub mod Archive
pub mod Save
pub mod Create
pub mod Tests

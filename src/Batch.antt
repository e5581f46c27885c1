-- ===== src/Batch.antt =====
-- core/internal/batch: reading many entries of an archive in few range reads.
-- `Group` (group.go, stats.go), `Content` (decoding and verifying one entry of batch.go), `Process`
-- (the processor of batch.go), `Pipeline` (the goroutines of its pipeline as a step relation),
-- `FileSink` (filesink.go).
pub mod Group
pub mod Content
pub mod Process
pub mod Pipeline
pub mod FileSink

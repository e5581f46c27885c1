-- ===== src/Cache.antt =====
-- core/cache: caches on the local disk. `Disk` is the content-addressed cache of files
-- (core/cache/disk/cache.go, size.go).
pub mod Disk
pub mod Block

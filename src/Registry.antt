-- ===== src/Registry.antt =====
-- registry: archives in an OCI registry. `Store` is what the three caches of registry/cache/disk share,
-- `RefCache`, `ManifestCache` and `IndexCache` are the caches, `Fetch` and `Pull` the client that reads
-- through them.
pub mod Store
pub mod RefCache
pub mod ManifestCache
pub mod IndexCache
pub mod Manifest
pub mod Fetch
pub mod Pull

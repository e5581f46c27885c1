-- ===== src/Tests.antt =====
-- Small archives, sources, sinks and caches, and the theorems of the library applied to them.
pub mod Samples
pub mod Paths
pub mod Indexes
pub mod Contents
pub mod Archives
pub mod Blocks
pub mod Pipelines
pub mod Remote
pub mod Registries
pub mod Caches
pub mod Creation
pub mod Sinks
pub mod Saves

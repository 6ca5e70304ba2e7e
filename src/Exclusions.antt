-- ===== src/Exclusions.antt =====
-- What a host scan leaves out: sbom-generator-shared/exclusions.
pub mod Paths
pub mod Merge
pub mod Mounts
pub mod Patterns
pub mod Order
pub mod Contents
pub mod Network

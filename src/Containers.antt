-- ===== src/Containers.antt =====
-- The container manager: scanner-core/containers/manager.go.
pub mod Store
pub mod Manager
pub mod CatchUp
pub mod Contents
pub mod Requests
pub mod Digests
pub mod Resume
pub mod Backed

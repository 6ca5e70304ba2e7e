-- ===== src/Nodes.antt =====
-- The node manager: scanner-core/nodes.
pub mod Manager
pub mod Removal
pub mod Requests
pub mod Backed

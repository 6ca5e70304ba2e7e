-- ===== src/Database.antt =====
-- The database: scanner-core/database.
pub mod Tables
pub mod Images
pub mod Blobs
pub mod Rows
pub mod Stores
pub mod Bulk
pub mod Maintenance
pub mod Nodes
pub mod Grouping
pub mod GroupLaws
pub mod Batches
pub mod Chunks
pub mod BatchRows
pub mod NodeScans
pub mod NodeBulk
pub mod Answers
pub mod NodeReports
pub mod Triples
pub mod NodeRows
pub mod NodePackages
pub mod NodeMatches
pub mod NodeStores
pub mod NodeSuccess
pub mod Success
pub mod Keeping
pub mod Instances
pub mod Reconcile
pub mod Integrity
pub mod Constraints
pub mod Calls
pub mod Operations
pub mod Atomic

-- ===== src/Examples.antt =====
-- The theorems at concrete inputs, and tests of the definitions.
pub mod Queue
pub mod Threads
pub mod Pipeline
pub mod Versions
pub mod Exclusions
pub mod Containers
pub mod Nodes
pub mod Database
pub mod Hosts
pub mod Scheduler
pub mod Jobs

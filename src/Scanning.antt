-- ===== src/Scanning.antt =====
-- The scan queue: scanner-core/scanning/queue.go.
pub mod Queue
pub mod Host
pub mod Steps
pub mod Induction
pub mod Config
pub mod Bounds
pub mod Fills
pub mod Account
pub mod Gauge
pub mod Order
pub mod Threads
pub mod Pipeline
pub mod HostPipeline

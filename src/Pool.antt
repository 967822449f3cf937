-- ===== src/Pool.antt =====
-- src/adapters/pool_manager.rs: bounded access to the clients of a Redis pool.
pub mod Entry
pub mod Task
pub mod Manager
pub mod Readiness
pub mod Invariant
pub mod Lease
pub mod Reach
pub mod Safety
pub mod Search
pub mod Gauge
mod Tests

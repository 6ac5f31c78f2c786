-- ===== src/Worker.antt =====
-- The leases of the workers, and the cycle in which a worker runs an item.
mod Tests
pub mod Lease
pub mod Heartbeat
pub mod Exclusion
pub mod Execution

-- ===== src/Accounts.antt =====
-- The accounts that a delivery takes.
mod Tests
pub mod Allocation
pub mod Blocks
pub mod Assignment

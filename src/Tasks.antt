-- ===== src/Tasks.antt =====
-- The drama tasks and their table, and the ledger of finished tasks.
pub mod Task
pub mod Repository
pub mod Ledger

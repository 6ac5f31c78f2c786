-- ===== src/Queue.antt =====
-- The task queue: its items and their life cycle, the table of items, and the services over them.
mod Tests
pub mod Item
pub mod Machine
pub mod Repository
pub mod Service
pub mod Order
pub mod Claiming
pub mod Recovery
pub mod Control
pub mod Moving
pub mod Lifecycle
pub mod Sound
pub mod Steps
pub mod Advancing
pub mod Trace
pub mod Outcomes
pub mod PauseResume
pub mod Completion
pub mod Scheduler

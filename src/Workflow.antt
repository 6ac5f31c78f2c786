-- ===== src/Workflow.antt =====
-- The stages of the preparation of links, the steps that are recorded of it, and the service that
-- runs it.
pub mod Stage
pub mod Steps
pub mod State
pub mod Readiness
pub mod Ends
mod Tests

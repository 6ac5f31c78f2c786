-- ===== src/Imports.antt =====
-- The import of dramas from the public sheet into the private one.
mod Tests
pub mod SourceKey
pub mod Sheet
pub mod Preview
pub mod Runs
pub mod Service

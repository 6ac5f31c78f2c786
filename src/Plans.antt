-- ===== src/Plans.antt =====
-- The rules by which a delivery plan is made.
mod Tests
pub mod Material
pub mod Spec
pub mod Form
pub mod Builder
pub mod Validation

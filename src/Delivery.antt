-- ===== src/Delivery.antt =====
-- The execution of a delivery plan.
mod Tests
pub mod Flow
pub mod Standard

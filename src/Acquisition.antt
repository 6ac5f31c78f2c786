-- ===== src/Acquisition.antt =====
-- Acquiring promotion links: the assets, the guard of their creation, and the chain of providers.
mod Tests
pub mod Asset
pub mod CreateGuard
pub mod Fallback
pub mod Matcher
pub mod DramaMatch
pub mod Validator
pub mod Pipeline

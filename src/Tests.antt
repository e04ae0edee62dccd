-- ===== src/Tests.antt =====
-- Concrete instances of what the code takes from outside, and the theorems at concrete inputs.
pub mod Fixtures
pub mod Site
pub mod Journey
pub mod Handling
pub mod Tokens
pub mod Paths
pub mod Limits
pub mod Setup
pub mod Life
pub mod Lists
pub mod Network
pub mod Pages
pub mod Visit

-- ===== src/Lanes.antt =====
-- e2e/internal/lanes: the registered lanes and suites.
pub mod Registry
pub mod Selection
pub mod Packages
mod Tests

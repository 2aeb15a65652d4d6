-- ===== src/Runner.antt =====
-- e2e/runner: planning a run, running its lanes, and reporting it.
pub mod Plan
pub mod Planned
pub mod Lane
pub mod Release
pub mod Passed
pub mod Run
pub mod Names
pub mod RunEnd
pub mod Parallel
pub mod Schedules
pub mod Progress
mod ScheduleTests
mod Tests

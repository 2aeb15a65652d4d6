-- ===== src/Results.antt =====
-- internal/results/results.go: from Ginkgo's reports to the verdict of a run.
pub mod Types
pub mod Tally
pub mod Classify
pub mod Summarize
pub mod Markdown
pub mod Counting
pub mod Passing
pub mod Totals
pub mod LaneVerdict
pub mod Precedence
pub mod RunVerdict
pub mod Tests

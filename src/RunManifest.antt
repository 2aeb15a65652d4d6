-- ===== src/RunManifest.antt =====
-- internal/runmanifest/manifest.go: the provenance of a run and its outcomes.
mod Types
pub mod Outcomes
pub use Types.{Sources, Versions, GitHub, ManifestLane, Manifest, Probes}
unfoldable pub use Types.{finish_lane, finish, kurtosis_version, enrich}
mod Tests

-- ===== src/Quota.antt =====
-- pkg/server/kubehz_quota.go: the limit on the bytes of a database.
pub mod Figures
pub mod Admission
pub mod Outcome
pub mod UpdateOutcome
pub mod Relief
pub mod Invariant
pub mod Reached
pub mod Target
pub mod Races
pub mod RacesInvariant
pub mod RacesBounds
pub mod PutRuns
pub mod Examples

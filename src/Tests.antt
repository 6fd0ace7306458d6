-- ===== src/Tests.antt =====
-- Runs of the theorems at concrete inputs.
pub mod Commands
pub mod Programs
pub mod StationNames
pub mod Snapshots
pub mod Executors
pub mod NameSessions
pub mod ProgramSessions
pub mod CommandSessions
pub mod Drops

-- ===== src/Tests.antt =====
-- A manifest set to run the checks on, and the theorems at it.
pub mod Sample
mod Attachment
mod References
mod Policies
mod Checks
pub mod Conflicts
mod Listeners
mod Matches
mod Summary
mod Exit
mod Runs

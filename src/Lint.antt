-- ===== src/Lint.antt =====
-- pkg/command/lint
pub mod Merge
pub mod Scanned
pub mod Command

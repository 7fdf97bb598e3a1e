-- ===== src/Checks/FqdnBackendColdStart.antt =====
-- pkg/templates/fqdnbackendcoldstart, which has policy coverage of its own.
pub mod Coverage
pub mod Template

-- ===== src/Contracts.antt =====
-- agent/executors/contracts.py, in child modules.
pub mod Codes
pub mod Retry

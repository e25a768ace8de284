-- ===== src/Models.antt =====
-- agent/models.py: the types that cross a layer boundary, in child modules.
pub mod Enums
pub mod Json
pub mod Payment
pub mod Proposal
pub mod Verdict

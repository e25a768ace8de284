-- ===== src/Diagnosis.antt =====
-- agent/diagnosis: what a model is asked, which of its replies are accepted, and what stands in for
-- it.
pub mod Fence
pub mod Texts
pub mod Prompting
pub mod Models
pub mod Soundness
pub mod Ladder
pub mod Unanswered
pub mod Stub
pub mod StubRules

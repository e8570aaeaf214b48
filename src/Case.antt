-- ===== src/Case.antt =====
-- The case state machine (packages/domain/src/case/).
pub mod State
pub mod Transitions
pub mod Aggregate

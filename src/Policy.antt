-- ===== src/Policy.antt =====
-- The versioned financial policy (packages/domain/src/policy/).
pub mod Rounding
pub mod FeeSchedule
pub mod Tolerances
pub mod Calendar
pub mod Settlement

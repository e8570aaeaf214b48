-- ===== src/Reconciliation.antt =====
-- The deterministic reconciliation baseline (packages/domain/src/reconciliation/).
pub mod Duplicates
pub mod Unit
pub mod ExpectedNet
pub mod Checks
pub mod BankCredit
pub mod Matcher

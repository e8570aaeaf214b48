-- ===== src/Tests.antt =====
-- Samples of each component's data, and its theorems applied to them.
pub mod Samples
mod Amounts
mod Windows
mod Cases
mod Asking
mod Agents
mod Starting
mod Intake
mod Queue
mod Flow
mod Matching
mod Verifying

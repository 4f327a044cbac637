-- ===== src/Financial.antt =====
-- packages/shared/src/financial.ts, by part.
pub mod Integer
pub mod Checked
pub mod Weight
pub mod Asset
pub mod Policy
pub mod Portfolio
pub mod Trade
pub mod Constraints
pub mod SafeFill
pub mod Capacity
pub mod Fees
pub mod Samples
mod Tests

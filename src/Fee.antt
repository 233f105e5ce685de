-- ===== src/Fee.antt =====
-- The fee of a transaction: kora/crates/lib/src/fee/fee.rs and kora/crates/lib/src/fee/price.rs.
pub mod Calculation
pub mod Outflow
pub mod Payment
pub mod Price
pub mod Estimate
pub mod Bounds
pub mod Total
pub mod Margin

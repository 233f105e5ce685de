-- ===== src/Validator.antt =====
-- `TransactionValidator` of kora/crates/lib/src/validator/transaction_validator.rs.
pub mod Usage
pub mod Policy
pub mod Checks
pub mod Validate
pub mod Soundness

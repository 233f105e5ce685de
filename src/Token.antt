-- ===== src/Token.antt =====
-- Token values, fees and payments: kora/crates/lib/src/token/token.rs and
-- kora/crates/lib/src/token/spl_token_2022.rs.
pub mod Accounts
pub mod Value
pub mod TransferFee
pub mod Extensions
pub mod Outflow
pub mod Payment
pub mod Credit
pub mod Order

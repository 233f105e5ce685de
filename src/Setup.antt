-- ===== src/Setup.antt =====
-- The checks before a deployment: kora/crates/lib/src/validator/config_validator.rs,
-- signer_validator.rs and cache_validator.rs beside it, the checks of kora/crates/lib/src/signer/config.rs,
-- and the names of the Token-2022 extensions.
pub mod Extensions
pub mod Signers
pub mod Policy
pub mod Report
pub mod Cache
pub mod Atas
pub mod Checks
pub mod Validator

-- ===== src/Tests.antt =====
-- Runs of the model on concrete requests, over a small chain.
pub mod World
pub mod Signing
pub mod Validator
pub mod Fee
pub mod Token
pub mod Parse
pub mod Usage
pub mod Resolve
pub mod Reconstruct
pub mod Cache
pub mod Auth
pub mod AccountType
pub mod Pool
pub mod Methods
pub mod Setup
pub mod Oracle

-- ===== src/Parse.antt =====
-- Parsing resolved instructions into tables by kind: `IxUtils::parse_system_instructions` and
-- `IxUtils::parse_token_instructions` of kora/crates/lib/src/transaction/instruction_util.rs.
mod Types
mod Accounts
mod System
mod Token
mod Loop
unfoldable pub use Types.*
unfoldable pub use Accounts.*
unfoldable pub use System.*
unfoldable pub use Token.*
unfoldable pub use Loop.*
pub mod Safety
pub mod Described
pub mod Arms
pub mod Content
pub mod Twins

-- ===== src/Reconstruct.antt =====
-- The reconstruction of the inner instructions that a simulation reports
-- (kora/crates/lib/src/transaction/instruction_util.rs).
mod Keys
mod System
mod Token
mod Ui
unfoldable pub use Keys.*
unfoldable pub use System.*
unfoldable pub use Token.*
unfoldable pub use Ui.*
pub mod Indexes
pub mod RoundTrip

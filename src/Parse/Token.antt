-- ===== src/Parse/Token.antt =====
-- The arms of the two matches in `parse_token_instructions`
-- (kora/crates/lib/src/transaction/instruction_util.rs), one for each token program, as the source
-- has them: the kind under which an instruction is filed and what is kept of it. The account numbers
-- are those of `instruction_indexes` in kora/crates/lib/src/constant.rs.
mod Spl
mod Token2022
unfoldable pub use Spl.{SplEntry, spl_token_entry, spl_initialize_entry}
unfoldable pub use Token2022.{token_2022_entry, token_2022_initialize_entry}

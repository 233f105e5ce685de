-- ===== src/Transaction.antt =====
-- Transactions: `VersionedTransaction` as far as it is read, and `VersionedTransactionResolved` of
-- kora/crates/lib/src/transaction/versioned_transaction.rs.
use solus_protocol.Base.{ℕ, List, Option}
use solus_protocol.Instruction.{Pubkey, Instruction, CompiledInstruction}
use solus_protocol.Parse.{SystemTable, SplTable}

-- `MessageAddressTableLookup`
pub record AddressTableLookup : Type 0 where
  pub account_key : Pubkey
  pub writable_indexes : List ℕ
  pub readonly_indexes : List ℕ

-- The message is legacy where `address_table_lookups` is `none`. Signatures are opaque.
pub record VersionedTransaction : Type 0 where
  pub signatures : List ℕ
  pub num_required_signatures : ℕ
  pub static_account_keys : List Pubkey
  pub recent_blockhash : ℕ
  pub instructions : List CompiledInstruction
  pub address_table_lookups : Option (List AddressTableLookup)

pub record Resolved : Type 0 where
  pub transaction : VersionedTransaction
  pub all_account_keys : List Pubkey
  pub all_instructions : List Instruction
  pub parsed_system_instructions : Option SystemTable
  pub parsed_spl_instructions : Option SplTable

-- ===== src/Parse/System.antt =====
-- The arms of the match in `parse_system_instructions`
-- (kora/crates/lib/src/transaction/instruction_util.rs): the kind under which an instruction is filed
-- and what is kept of it. The account numbers are those of `instruction_indexes` in
-- kora/crates/lib/src/constant.rs.
use solus_protocol.Base.{Option, none, some}
use solus_protocol.Error.{Result, ok, ◌>>=◌, ◌>>◌}
use solus_protocol.Instruction.{Instruction, SystemInstruction}
use solus_protocol.Parse.Types.{
  ParsedSystemType, system_transfer, system_create_account, system_withdraw_nonce_account,
  system_assign, system_allocate, system_initialize_nonce_account, system_advance_nonce_account,
  system_authorize_nonce_account, ParsedSystemData, create_account_data, withdraw_nonce_data,
  assign_data, allocate_data, initialize_nonce_data, advance_nonce_data, authorize_nonce_data,
}
use solus_protocol.Parse.Accounts.{validate_number_accounts, account_at}

abbrev pub SystemEntry : Type 0
SystemEntry = ParsedSystemType × ParsedSystemData

unfoldable pub system_entry : Instruction → SystemInstruction → Result (Option SystemEntry)
system_entry ix (SystemInstruction.create_account lamports _ _) = do
  validate_number_accounts ix 1
  payer ← account_at ix 0
  ok (some (system_create_account, create_account_data lamports payer))
system_entry ix (SystemInstruction.create_account_with_seed _ _ lamports _ _) = do
  validate_number_accounts ix 1
  payer ← account_at ix 0
  ok (some (system_create_account, create_account_data lamports payer))
system_entry ix (SystemInstruction.transfer lamports) = do
  validate_number_accounts ix 2
  sender ← account_at ix 0
  receiver ← account_at ix 1
  ok (some (system_transfer, ParsedSystemData.transfer_data lamports sender receiver))
system_entry ix (SystemInstruction.transfer_with_seed lamports _ _) = do
  validate_number_accounts ix 3
  sender ← account_at ix 1
  receiver ← account_at ix 2
  ok (some (system_transfer, ParsedSystemData.transfer_data lamports sender receiver))
system_entry ix (SystemInstruction.withdraw_nonce_account lamports) = do
  validate_number_accounts ix 5
  nonce_authority ← account_at ix 4
  recipient ← account_at ix 1
  ok (some (system_withdraw_nonce_account, withdraw_nonce_data lamports nonce_authority recipient))
system_entry ix (SystemInstruction.assign _) = do
  validate_number_accounts ix 1
  authority ← account_at ix 0
  ok (some (system_assign, assign_data authority))
system_entry ix (SystemInstruction.assign_with_seed _ _ _) = do
  validate_number_accounts ix 2
  authority ← account_at ix 1
  ok (some (system_assign, assign_data authority))
system_entry ix (SystemInstruction.allocate _) = do
  validate_number_accounts ix 1
  account ← account_at ix 0
  ok (some (system_allocate, allocate_data account))
system_entry ix (SystemInstruction.allocate_with_seed _ _ _ _) = do
  validate_number_accounts ix 2
  account ← account_at ix 1
  ok (some (system_allocate, allocate_data account))
system_entry ix (SystemInstruction.initialize_nonce_account authority) = do
  validate_number_accounts ix 3
  nonce_account ← account_at ix 0
  ok (some (system_initialize_nonce_account, initialize_nonce_data nonce_account authority))
system_entry ix SystemInstruction.advance_nonce_account = do
  validate_number_accounts ix 3
  nonce_account ← account_at ix 0
  nonce_authority ← account_at ix 2
  ok (some (system_advance_nonce_account, advance_nonce_data nonce_account nonce_authority))
system_entry ix (SystemInstruction.authorize_nonce_account new_authority) = do
  validate_number_accounts ix 2
  nonce_account ← account_at ix 0
  nonce_authority ← account_at ix 1
  ok (some (system_authorize_nonce_account, authorize_nonce_data nonce_account nonce_authority))
system_entry ix SystemInstruction.upgrade_nonce_account = ok none

-- ===== src/Parse/Token/Spl.antt =====
-- The arms for the SPL Token program.
use solus_protocol.Base.{false, Option, none, some}
use solus_protocol.Error.{Result, ok, ◌>>=◌, ◌>>◌}
use solus_protocol.Instruction.{
  Instruction, TokenInstruction, transfer_checked, burn, burn_checked, close_account, approve,
  approve_checked, revoke, set_authority, mint_to, mint_to_checked, initialize_mint,
  initialize_mint2, initialize_account, initialize_account2, initialize_account3,
  initialize_multisig, initialize_multisig2, freeze_account, thaw_account,
}
use solus_protocol.Parse.Types.{
  ParsedSplType, spl_transfer, spl_burn, spl_close_account, spl_approve, spl_revoke,
  spl_set_authority, spl_mint_to, spl_initialize_mint, spl_initialize_account,
  spl_initialize_multisig, spl_freeze_account, spl_thaw_account, ParsedSplData, burn_data,
  close_account_data, approve_data, revoke_data, set_authority_data, mint_to_data,
  initialize_mint_data, initialize_account_data, initialize_multisig_data, freeze_account_data,
  thaw_account_data,
}
use solus_protocol.Parse.Accounts.{validate_number_accounts, account_at, accounts_from}

abbrev pub SplEntry : Type 0
SplEntry = ParsedSplType × ParsedSplData

-- The other arms: the initialisations, and freezing and thawing.
unfoldable pub spl_initialize_entry : Instruction → TokenInstruction → Result (Option SplEntry)
spl_initialize_entry ix (initialize_mint mint_authority) = do
  validate_number_accounts ix 2
  ok (some (spl_initialize_mint, initialize_mint_data mint_authority false))
spl_initialize_entry ix (initialize_mint2 mint_authority) = do
  validate_number_accounts ix 1
  ok (some (spl_initialize_mint, initialize_mint_data mint_authority false))
spl_initialize_entry ix initialize_account = do
  validate_number_accounts ix 4
  owner ← account_at ix 2
  ok (some (spl_initialize_account, initialize_account_data owner false))
spl_initialize_entry ix (initialize_account2 owner) = do
  validate_number_accounts ix 3
  ok (some (spl_initialize_account, initialize_account_data owner false))
spl_initialize_entry ix (initialize_account3 owner) = do
  validate_number_accounts ix 2
  ok (some (spl_initialize_account, initialize_account_data owner false))
spl_initialize_entry ix initialize_multisig = do
  validate_number_accounts ix 2
  ok (some (spl_initialize_multisig, initialize_multisig_data (accounts_from ix 2) false))
spl_initialize_entry ix initialize_multisig2 = do
  validate_number_accounts ix 1
  ok (some (spl_initialize_multisig, initialize_multisig_data (accounts_from ix 1) false))
spl_initialize_entry ix freeze_account = do
  validate_number_accounts ix 3
  freeze_authority ← account_at ix 2
  ok (some (spl_freeze_account, freeze_account_data freeze_authority false))
spl_initialize_entry ix thaw_account = do
  validate_number_accounts ix 3
  freeze_authority ← account_at ix 2
  ok (some (spl_thaw_account, thaw_account_data freeze_authority false))
spl_initialize_entry ix _ = ok none

unfoldable pub spl_token_entry : Instruction → TokenInstruction → Result (Option SplEntry)
unfolding spl_initialize_entry
spl_token_entry ix (TokenInstruction.transfer amount) = do
  validate_number_accounts ix 3
  owner ← account_at ix 2
  source ← account_at ix 0
  destination ← account_at ix 1
  ok (
      some (
        spl_transfer,
        ParsedSplData.transfer_data (record {
          amount = amount;
          owner = owner;
          mint = none;
          source_address = source;
          destination_address = destination;
          is_2022 = false;
        }),
      ))
spl_token_entry ix (transfer_checked amount _) = do
  validate_number_accounts ix 4
  owner ← account_at ix 3
  mint ← account_at ix 1
  source ← account_at ix 0
  destination ← account_at ix 2
  ok (
      some (
        spl_transfer,
        ParsedSplData.transfer_data (record {
          amount = amount;
          owner = owner;
          mint = some mint;
          source_address = source;
          destination_address = destination;
          is_2022 = false;
        }),
      ))
spl_token_entry ix (burn _) = do
  validate_number_accounts ix 3
  owner ← account_at ix 2
  ok (some (spl_burn, burn_data owner false))
spl_token_entry ix (burn_checked _ _) = do
  validate_number_accounts ix 3
  owner ← account_at ix 2
  ok (some (spl_burn, burn_data owner false))
spl_token_entry ix close_account = do
  validate_number_accounts ix 3
  owner ← account_at ix 2
  ok (some (spl_close_account, close_account_data owner false))
spl_token_entry ix (approve _) = do
  validate_number_accounts ix 3
  owner ← account_at ix 2
  ok (some (spl_approve, approve_data owner false))
spl_token_entry ix (approve_checked _ _) = do
  validate_number_accounts ix 4
  owner ← account_at ix 3
  ok (some (spl_approve, approve_data owner false))
spl_token_entry ix revoke = do
  validate_number_accounts ix 2
  owner ← account_at ix 1
  ok (some (spl_revoke, revoke_data owner false))
spl_token_entry ix set_authority = do
  validate_number_accounts ix 2
  authority ← account_at ix 1
  ok (some (spl_set_authority, set_authority_data authority false))
spl_token_entry ix (mint_to _) = do
  validate_number_accounts ix 3
  mint_authority ← account_at ix 2
  ok (some (spl_mint_to, mint_to_data mint_authority false))
spl_token_entry ix (mint_to_checked _ _) = do
  validate_number_accounts ix 3
  mint_authority ← account_at ix 2
  ok (some (spl_mint_to, mint_to_data mint_authority false))
spl_token_entry ix other = spl_initialize_entry ix other

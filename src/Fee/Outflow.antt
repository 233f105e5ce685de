-- ===== src/Fee/Outflow.antt =====
-- `FeeConfigUtil::calculate_fee_payer_outflow` of kora/crates/lib/src/fee/fee.rs: what a transaction
-- may take from the fee payer, in lamports.
use solus_protocol.Base.{
  ℕ, Bool, true, false, List, [], ◌∷◌, ◌==◌, nat_eq, checked_add, saturating_sub,
}
use solus_protocol.Base.Table.{get_or_empty}
use solus_protocol.Error.{Result, ok, validation_error, ok_or, ◌>>=◌}
use solus_protocol.Instruction.{Pubkey, Instruction}
use solus_protocol.External.{External}
use solus_protocol.Parse.{
  SystemTable, ParsedSystemData, ParsedSplData, SplTransfer, system_type_eq, spl_type_eq,
  parse_system_instructions, parse_token_instructions, system_transfer, system_create_account,
  system_withdraw_nonce_account, create_account_data, withdraw_nonce_data, spl_transfer,
}
use solus_protocol.Token.Outflow.{Groups, calculate_spl_transfers_value_in_lamports}

-- `total.checked_add(lamports)` where the fee payer pays
abbrev pub pay : Bool → ℕ → ℕ → Result ℕ
pay true lamports total = ok_or (checked_add total lamports) validation_error
pay false lamports total = ok total

-- `total.saturating_sub(lamports)` where it receives
abbrev pub receive : Bool → ℕ → ℕ → ℕ
receive true lamports total = saturating_sub total lamports
receive false lamports total = total

-- One round of each of the three loops; a value that the loop's pattern does not match is skipped.
unfoldable pub add_transfer : Pubkey → ParsedSystemData → ℕ → Result ℕ
add_transfer fee_payer (ParsedSystemData.transfer_data lamports sender receiver) total = do
  total' ← pay (sender == fee_payer) lamports total
  ok (receive (receiver == fee_payer) lamports total')
add_transfer fee_payer _ total = ok total

unfoldable pub add_create_account : Pubkey → ParsedSystemData → ℕ → Result ℕ
add_create_account fee_payer (create_account_data lamports payer) total =
    pay (payer == fee_payer) lamports total
add_create_account fee_payer _ total = ok total

unfoldable pub add_withdraw_nonce : Pubkey → ParsedSystemData → ℕ → Result ℕ
add_withdraw_nonce fee_payer (withdraw_nonce_data lamports nonce_authority recipient) total = do
  total' ← pay (nonce_authority == fee_payer) lamports total
  ok (receive (recipient == fee_payer) lamports total')
add_withdraw_nonce fee_payer _ total = ok total

unfoldable pub accumulate : {A : Type 0} → (A → ℕ → Result ℕ) → List A → ℕ → Result ℕ
accumulate add [] total = ok total
accumulate add (d ∷ ds) total = do total' ← add d total; accumulate add ds total'

-- The three loops over the System program's instructions, in the order of the source.
unfoldable pub system_outflow : Pubkey → SystemTable → Result ℕ
unfolding accumulate add_transfer add_create_account add_withdraw_nonce
system_outflow fee_payer t = do
  a ← accumulate (add_transfer fee_payer) (get_or_empty system_transfer t) 0
  b ← accumulate (add_create_account fee_payer) (get_or_empty system_create_account t) a
  accumulate (add_withdraw_nonce fee_payer) (get_or_empty system_withdraw_nonce_account t) b

-- The values filed under transfers are transfers.
unfoldable pub spl_transfers : List ParsedSplData → List SplTransfer
spl_transfers [] = []
spl_transfers (d ∷ ds) =
    let rest = spl_transfers ds in elim d [ ParsedSplData.transfer_data t ↦ t ∷ rest | _ ↦ rest ]

module _ {F D : Type 0} (x : External F D) (iteration : Groups → Groups) where
  -- The part of the token transfers, if there are any.
  unfoldable pub add_spl_outflow : Pubkey → List ParsedSplData → ℕ → Result ℕ
  add_spl_outflow fee_payer [] total = ok total
  add_spl_outflow fee_payer (d ∷ ds) total = do
    spl_outflow ←
        calculate_spl_transfers_value_in_lamports x iteration fee_payer (spl_transfers (d ∷ ds))
    ok_or (checked_add total spl_outflow) validation_error

  unfoldable pub calculate_fee_payer_outflow : Pubkey → List Instruction → Result ℕ
  unfolding system_outflow add_spl_outflow
  calculate_fee_payer_outflow fee_payer ixs = do
    system_instructions ← parse_system_instructions x.programs ixs
    total ← system_outflow fee_payer system_instructions
    spl_instructions ← parse_token_instructions x.programs ixs
    add_spl_outflow fee_payer (get_or_empty spl_transfer spl_instructions) total

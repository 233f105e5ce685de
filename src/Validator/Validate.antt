-- ===== src/Validator/Validate.antt =====
-- `TransactionValidator::validate_transaction` and the checks that need the fee
-- (kora/crates/lib/src/validator/transaction_validator.rs).
use solus_protocol.Base.{ℕ, Bool, false, not, List, ltb, is_empty, contains, nat_eq, if◌then◌else◌}
use solus_protocol.Base.Table.{get_or_empty}
use solus_protocol.Error.{Result, ok, invalid_transaction, validation_error, fail_if, ◌>>=◌, ◌>>◌}
use solus_protocol.Instruction.{Pubkey, Instruction}
use solus_protocol.Config.{PriceModel, fixed, ValidationConfig}
use solus_protocol.External.{External, Mint}
use solus_protocol.Parse.{parse_token_instructions, spl_transfer, spl_type_eq}
use solus_protocol.Transaction.{Resolved}
use solus_protocol.Token.Accounts.{get_token_mint}
use solus_protocol.Token.Outflow.{Groups}
use solus_protocol.Token.Payment.{verify_token_payment}
use solus_protocol.Fee.Calculation.{TotalFeeCalculation, get_total_fee_lamports}
use solus_protocol.Fee.Outflow.{calculate_fee_payer_outflow, spl_transfers}
use solus_protocol.Validator.Checks.{
  TransactionValidator, validate_signatures, validate_programs, validate_disallowed_accounts,
}
use solus_protocol.Validator.Usage.{validate_fee_payer_usage}

module _ {F D : Type 0} (x : External F D) (iteration : Groups → Groups) where
  unfoldable pub fetch_and_validate_token_mint :
      TransactionValidator → Pubkey → Result (Bool × Mint)
  fetch_and_validate_token_mint v mint = do
    fail_if (not (contains v.allowed_tokens mint)) invalid_transaction
    get_token_mint x mint

  unfoldable pub validate_transfer_amounts :
      TransactionValidator → List Instruction → Result (Unit {0})
  validate_transfer_amounts v ixs = do
    total_outflow ← calculate_fee_payer_outflow x iteration v.fee_payer_pubkey ixs
    fail_if (ltb v.max_allowed_lamports total_outflow) invalid_transaction

  unfoldable pub validate_transaction : TransactionValidator → Resolved → Result (Unit {0})
  unfolding validate_transfer_amounts
  validate_transaction v r = do
    fail_if (is_empty r.all_instructions) invalid_transaction
    fail_if (is_empty r.all_account_keys) invalid_transaction
    validate_signatures v r.transaction
    validate_programs v r.all_instructions
    validate_transfer_amounts v r.all_instructions
    validate_disallowed_accounts v r.all_instructions
    validate_fee_payer_usage v.fee_payer_pubkey x.programs v.fee_payer_policy
        v.allow_durable_transactions r.all_instructions

module _ {F D : Type 0} (x : External F D) (config : ValidationConfig F) where
  unfoldable pub validate_token_payment : List Instruction → ℕ → Pubkey → Result (Unit {0})
  validate_token_payment ixs required_lamports expected_destination = do
    spl_instructions ← parse_token_instructions x.programs ixs
    paid ←
        verify_token_payment x config ixs
          (spl_transfers (get_or_empty spl_transfer spl_instructions)) required_lamports
          expected_destination
    fail_if (not paid) invalid_transaction

abbrev pub is_strict : {F : Type 0} → PriceModel F → Bool
is_strict (fixed amount token strict) = strict
is_strict _ = false

-- `validate_strict_pricing_with_fee`
unfoldable pub validate_strict_pricing_with_fee :
    {F : Type 0} → PriceModel F → TotalFeeCalculation → Result (Unit {0})
validate_strict_pricing_with_fee price c =
    let check =
      (get_total_fee_lamports c >>= λ total.
      fail_if (ltb c.total_fee_lamports total) validation_error) in
    if not (is_strict price) then ok tt else check

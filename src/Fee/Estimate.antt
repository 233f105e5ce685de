-- ===== src/Fee/Estimate.antt =====
-- `FeeConfigUtil::estimate_transaction_fee` and `FeeConfigUtil::estimate_kora_fee` of
-- kora/crates/lib/src/fee/fee.rs.
use solus_protocol.Base.{
  ℕ, String, Bool, not, ◌&&◌, Option, none, some, ◌==◌, nat_eq, any, take, if◌then◌else◌,
}
use solus_protocol.Base.Table.{get_or_empty}
use solus_protocol.Error.{
  Result, ok, rpc_error, invalid_transaction, invalid_request, fail_if, ok_or, ◌>>=◌, ◌>>◌,
}
use solus_protocol.Token.Value.{calculate_lamports_value_in_token}
use solus_protocol.Instruction.{Pubkey}
use solus_protocol.Config.{
  PriceModel, margin, fixed, free, ValidationConfig, supports_token, get_payment_address,
}
use solus_protocol.External.{External}
use solus_protocol.Parse.{parse_token_instructions, spl_transfer, spl_type_eq}
use solus_protocol.Transaction.{Resolved}
use solus_protocol.Token.Outflow.{Groups}
use solus_protocol.Fee.Calculation.{TotalFeeCalculation, new_fixed, checked_sum}
use solus_protocol.Fee.Outflow.{calculate_fee_payer_outflow, spl_transfers}
use solus_protocol.Fee.Payment.{analyze_payment_instructions}
use solus_protocol.Fee.Price.{get_required_lamports_with_fixed, get_required_lamports_with_margin}

-- kora/crates/lib/src/constant.rs
abbrev pub lamports_per_signature : ℕ
lamports_per_signature = 5000

abbrev pub estimated_lamports_for_payment_instruction : ℕ
estimated_lamports_for_payment_instruction = 50

-- The first `num_required_signatures` accounts are the signers.
unfoldable pub is_fee_payer_in_signers : Resolved → Pubkey → Bool
is_fee_payer_in_signers r fee_payer =
    any (λ key. key == fee_payer) (take r.transaction.num_required_signatures r.all_account_keys)

module _ {F D : Type 0} (x : External F D) (iteration : Groups → Groups) where
  -- `TransactionFeeUtil::get_estimate_fee_resolved`
  unfoldable pub get_estimate_fee_resolved : Resolved → Result ℕ
  get_estimate_fee_resolved r = ok_or (x.get_fee_for_message r.transaction) rpc_error

  unfoldable pub estimate_transaction_fee :
      Option String → Resolved → Pubkey → Bool → Result TotalFeeCalculation
  unfolding is_fee_payer_in_signers get_estimate_fee_resolved
  estimate_transaction_fee payment_address r fee_payer is_payment_required = do
    base_fee ← get_estimate_fee_resolved r
    let kora_signature_fee =
        (if not (is_fee_payer_in_signers r fee_payer) then lamports_per_signature else 0)
    fee_payer_outflow ← calculate_fee_payer_outflow x iteration fee_payer r.all_instructions
    payment_destination ← get_payment_address x.from_str payment_address fee_payer
    spl_instructions ← parse_token_instructions x.programs r.all_instructions
    (has_payment, transfer_fee_config_amount) ←
        analyze_payment_instructions x payment_destination
          (spl_transfers (get_or_empty spl_transfer spl_instructions))
    let fee_for_payment_instruction =
        (if is_payment_required && not has_payment
          then estimated_lamports_for_payment_instruction
          else 0)
    total_fee_lamports ←
        checked_sum base_fee kora_signature_fee fee_payer_outflow fee_for_payment_instruction
          transfer_fee_config_amount
    ok (record {
      total_fee_lamports = total_fee_lamports;
      base_fee = base_fee;
      kora_signature_fee = kora_signature_fee;
      fee_payer_outflow = fee_payer_outflow;
      payment_instruction_fee = fee_for_payment_instruction;
      transfer_fee_amount = transfer_fee_config_amount;
    })

  unfoldable pub estimate_kora_fee :
      PriceModel F → Option String → Resolved → Pubkey → Bool → Result TotalFeeCalculation
  estimate_kora_fee free payment_address r fee_payer is_payment_required = ok (new_fixed 0)
  estimate_kora_fee (fixed amount token strict) payment_address r fee_payer is_payment_required = do
    fixed_fee_lamports ← get_required_lamports_with_fixed x (fixed amount token strict)
    let strict_fee =
        (estimate_transaction_fee payment_address r fee_payer is_payment_required >>= λ c.
        ok (record c { total_fee_lamports = fixed_fee_lamports }))
    if strict then strict_fee else ok (new_fixed fixed_fee_lamports)
  estimate_kora_fee (margin m) payment_address r fee_payer is_payment_required = do
    c ← estimate_transaction_fee payment_address r fee_payer is_payment_required
    total_fee_lamports ← get_required_lamports_with_margin x (margin m) c.total_fee_lamports
    ok (record c { total_fee_lamports = total_fee_lamports })

-- `FeeConfigUtil::calculate_fee_in_token`
module _ {F D : Type 0} (x : External F D) (config : ValidationConfig F) where
  unfoldable pub calculate_fee_in_token : ℕ → Option String → Result (Option ℕ)
  calculate_fee_in_token fee_in_lamports none = ok none
  calculate_fee_in_token fee_in_lamports (some fee_token) = do
    token_mint ← ok_or (x.from_str fee_token) invalid_transaction
    fail_if (not (supports_token config fee_token)) invalid_request
    fee_value_in_token ← calculate_lamports_value_in_token x fee_in_lamports token_mint
    ok (some fee_value_in_token)

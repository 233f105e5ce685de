-- ===== src/Tests/Fee.antt =====
-- The fee of the request: 10000 lamports of the network and 40 that the fee payer gives away.
use solus_protocol.Base.{
  ℕ, true, not, if◌then◌else◌, none, some, List, ◌+◌, ◌≤◌, ◌≡◌, refl, ap, ◌∙◌, ◌*◌, u64_max, arith,
}
use solus_protocol.Error.{ok}
use mathlib.Core.Option.{some-injective}
use native.Mathlib.Nat.{mul-le-mul_left}
use solus_protocol.Config.{margin}
use solus_protocol.Parse.{SystemEntry, read_system}
use solus_protocol.Parse.Content.{collect}
use solus_protocol.Token.Order.{in_order}
use solus_protocol.Fee.Calculation.{TotalFeeCalculation}
use solus_protocol.Fee.Outflow.{calculate_fee_payer_outflow}
use solus_protocol.Fee.Estimate.{
  estimate_transaction_fee, estimate_kora_fee, is_fee_payer_in_signers,
}
use solus_protocol.Fee.Bounds.{paid, received, total_of, calculate_fee_payer_outflow-bounds}
use solus_protocol.Fee.Total.{parts, estimate_transaction_fee-total}
use solus_protocol.Fee.Margin.{IsMonotone, estimate_kora_fee-covers}
use solus_protocol.Tests.World.{world, naturals, kora, request, instructions}

abbrev estimate : ℕ → TotalFeeCalculation
estimate total = record {
  total_fee_lamports = total;
  base_fee = 10000;
  kora_signature_fee = 0;
  fee_payer_outflow = 40;
  payment_instruction_fee = 0;
  transfer_fee_amount = 0;
}

outflow_run : calculate_fee_payer_outflow world in_order kora instructions ≡ ok 40
unfolding calculate_fee_payer_outflow estimate_kora_fee estimate_transaction_fee
    is_fee_payer_in_signers read_system solus_protocol.Config.get_payment_address
    solus_protocol.Fee.Estimate.get_estimate_fee_resolved solus_protocol.Fee.Outflow.accumulate
    solus_protocol.Fee.Outflow.add_create_account solus_protocol.Fee.Outflow.add_spl_outflow
    solus_protocol.Fee.Outflow.add_transfer solus_protocol.Fee.Outflow.add_withdraw_nonce
    solus_protocol.Fee.Outflow.spl_transfers solus_protocol.Fee.Outflow.system_outflow
    solus_protocol.Fee.Payment.analyze_from solus_protocol.Fee.Payment.analyze_payment_instructions
    solus_protocol.Fee.Payment.is_payment solus_protocol.Fee.Payment.payment_transfer_fee
    solus_protocol.Fee.Payment.transfer_fee_of
    solus_protocol.Fee.Price.get_required_lamports_with_fixed
    solus_protocol.Fee.Price.get_required_lamports_with_margin solus_protocol.Oracle.attempt_from
    solus_protocol.Oracle.get_token_price solus_protocol.Oracle.get_token_prices
    solus_protocol.Parse.account_at solus_protocol.Parse.parse_system_from
    solus_protocol.Parse.parse_system_instructions solus_protocol.Parse.parse_token_from
    solus_protocol.Parse.parse_token_instructions solus_protocol.Parse.read_token
    solus_protocol.Parse.spl_initialize_entry solus_protocol.Parse.spl_token_entry
    solus_protocol.Parse.system_entry solus_protocol.Parse.token_2022_entry
    solus_protocol.Parse.token_2022_initialize_entry solus_protocol.Token.Accounts.get_mint
    solus_protocol.Token.Accounts.get_mint_decimals
    solus_protocol.Token.Accounts.get_token_program_from_owner
    solus_protocol.Token.Outflow.add_groups solus_protocol.Token.Outflow.add_transfers
    solus_protocol.Token.Outflow.calculate_spl_transfers_value_in_lamports
    solus_protocol.Token.Outflow.group_transfer solus_protocol.Token.Outflow.group_transfers
    solus_protocol.Token.Outflow.is_incoming solus_protocol.Token.Outflow.outgoing_mint
    solus_protocol.Token.TransferFee.calculate_transfer_fee
    solus_protocol.Token.TransferFee.fee_in_epoch
    solus_protocol.Token.Value.calculate_token_value_in_lamports
    solus_protocol.Token.Value.get_token_price_and_decimals solus_protocol.Token.Value.pow10
    solus_protocol.Token.Value.value_in_lamports
outflow_run = refl

calculate_fee_payer_outflow-bounds_example :
    (es : List SystemEntry) × (collect (read_system world.programs) instructions ≡ ok es)
    × (total_of (λ e. paid kora e.1) es ≤ 40 + total_of (λ e. received kora e.1) es)
    × (40 ≤ u64_max)
calculate_fee_payer_outflow-bounds_example =
    calculate_fee_payer_outflow-bounds world in_order kora instructions outflow_run

estimate_run : estimate_transaction_fee world in_order none request kora true ≡ ok (estimate 10040)
unfolding estimate_transaction_fee calculate_fee_payer_outflow estimate_kora_fee
    is_fee_payer_in_signers read_system solus_protocol.Config.get_payment_address
    solus_protocol.Fee.Estimate.get_estimate_fee_resolved solus_protocol.Fee.Outflow.accumulate
    solus_protocol.Fee.Outflow.add_create_account solus_protocol.Fee.Outflow.add_spl_outflow
    solus_protocol.Fee.Outflow.add_transfer solus_protocol.Fee.Outflow.add_withdraw_nonce
    solus_protocol.Fee.Outflow.spl_transfers solus_protocol.Fee.Outflow.system_outflow
    solus_protocol.Fee.Payment.analyze_from solus_protocol.Fee.Payment.analyze_payment_instructions
    solus_protocol.Fee.Payment.is_payment solus_protocol.Fee.Payment.payment_transfer_fee
    solus_protocol.Fee.Payment.transfer_fee_of
    solus_protocol.Fee.Price.get_required_lamports_with_fixed
    solus_protocol.Fee.Price.get_required_lamports_with_margin solus_protocol.Oracle.attempt_from
    solus_protocol.Oracle.get_token_price solus_protocol.Oracle.get_token_prices
    solus_protocol.Parse.account_at solus_protocol.Parse.parse_system_from
    solus_protocol.Parse.parse_system_instructions solus_protocol.Parse.parse_token_from
    solus_protocol.Parse.parse_token_instructions solus_protocol.Parse.read_token
    solus_protocol.Parse.spl_initialize_entry solus_protocol.Parse.spl_token_entry
    solus_protocol.Parse.system_entry solus_protocol.Parse.token_2022_entry
    solus_protocol.Parse.token_2022_initialize_entry solus_protocol.Token.Accounts.get_mint
    solus_protocol.Token.Accounts.get_mint_decimals
    solus_protocol.Token.Accounts.get_token_program_from_owner
    solus_protocol.Token.Outflow.add_groups solus_protocol.Token.Outflow.add_transfers
    solus_protocol.Token.Outflow.calculate_spl_transfers_value_in_lamports
    solus_protocol.Token.Outflow.group_transfer solus_protocol.Token.Outflow.group_transfers
    solus_protocol.Token.Outflow.is_incoming solus_protocol.Token.Outflow.outgoing_mint
    solus_protocol.Token.TransferFee.calculate_transfer_fee
    solus_protocol.Token.TransferFee.fee_in_epoch
    solus_protocol.Token.Value.calculate_token_value_in_lamports
    solus_protocol.Token.Value.get_token_price_and_decimals solus_protocol.Token.Value.pow10
    solus_protocol.Token.Value.value_in_lamports
estimate_run = refl

estimate_transaction_fee-total_example :
    ((estimate 10040).total_fee_lamports ≡ parts (estimate 10040))
    × (10040 ≤ 18446744073709551615)
    × (world.get_fee_for_message request.transaction ≡ some 10000)
    × ((estimate 10040).kora_signature_fee
        ≡ (if not (is_fee_payer_in_signers request kora) then 5000 else 0))
    × (calculate_fee_payer_outflow world in_order kora instructions ≡ ok 40)
estimate_transaction_fee-total_example =
    estimate_transaction_fee-total world in_order none request kora true estimate_run

product_ge :
    (one multiplier a product : ℕ)
    → some 1 ≡ some one
    → some (a * multiplier) ≡ some product
    → one ≤ multiplier
    → a ≤ product
product_ge one multiplier a product eo e h =
    let above : 1 ≤ multiplier = ground arith in
    let scaled : a * 1 ≤ a * multiplier = mul-le-mul_left a above in
    let same : a * multiplier ≡ product = some-injective (a * multiplier) product e in
    omega (arith, scaled, same)

pub naturals_monotone : IsMonotone naturals ◌≤◌
naturals_monotone = record {
  add_nonnegative = λ z one m sum ez eo h e. ground arith;
  mul_at_least_one = λ one multiplier a product n eo ea h e. omega (
    arith,
    product_ge one multiplier n product eo
        (ap (λ b. some (b * multiplier)) (some-injective n a ea) ∙ e) h,
    some-injective n a ea,
  );
  le_ceil = λ a b h. h;
  le_to_u64 = λ a b n m ea h e. ground arith;
}

-- A margin of 1 doubles the fee.
margin_run :
    estimate_kora_fee world in_order (margin 1) none request kora true ≡ ok (estimate 20080)
unfolding estimate_kora_fee calculate_fee_payer_outflow estimate_transaction_fee
    is_fee_payer_in_signers read_system solus_protocol.Config.get_payment_address
    solus_protocol.Fee.Estimate.get_estimate_fee_resolved solus_protocol.Fee.Outflow.accumulate
    solus_protocol.Fee.Outflow.add_create_account solus_protocol.Fee.Outflow.add_spl_outflow
    solus_protocol.Fee.Outflow.add_transfer solus_protocol.Fee.Outflow.add_withdraw_nonce
    solus_protocol.Fee.Outflow.spl_transfers solus_protocol.Fee.Outflow.system_outflow
    solus_protocol.Fee.Payment.analyze_from solus_protocol.Fee.Payment.analyze_payment_instructions
    solus_protocol.Fee.Payment.is_payment solus_protocol.Fee.Payment.payment_transfer_fee
    solus_protocol.Fee.Payment.transfer_fee_of
    solus_protocol.Fee.Price.get_required_lamports_with_fixed
    solus_protocol.Fee.Price.get_required_lamports_with_margin solus_protocol.Oracle.attempt_from
    solus_protocol.Oracle.get_token_price solus_protocol.Oracle.get_token_prices
    solus_protocol.Parse.account_at solus_protocol.Parse.parse_system_from
    solus_protocol.Parse.parse_system_instructions solus_protocol.Parse.parse_token_from
    solus_protocol.Parse.parse_token_instructions solus_protocol.Parse.read_token
    solus_protocol.Parse.spl_initialize_entry solus_protocol.Parse.spl_token_entry
    solus_protocol.Parse.system_entry solus_protocol.Parse.token_2022_entry
    solus_protocol.Parse.token_2022_initialize_entry solus_protocol.Token.Accounts.get_mint
    solus_protocol.Token.Accounts.get_mint_decimals
    solus_protocol.Token.Accounts.get_token_program_from_owner
    solus_protocol.Token.Outflow.add_groups solus_protocol.Token.Outflow.add_transfers
    solus_protocol.Token.Outflow.calculate_spl_transfers_value_in_lamports
    solus_protocol.Token.Outflow.group_transfer solus_protocol.Token.Outflow.group_transfers
    solus_protocol.Token.Outflow.is_incoming solus_protocol.Token.Outflow.outgoing_mint
    solus_protocol.Token.TransferFee.calculate_transfer_fee
    solus_protocol.Token.TransferFee.fee_in_epoch
    solus_protocol.Token.Value.calculate_token_value_in_lamports
    solus_protocol.Token.Value.get_token_price_and_decimals solus_protocol.Token.Value.pow10
    solus_protocol.Token.Value.value_in_lamports
margin_run = refl

estimate_kora_fee-covers_example :
    (parts (estimate 20080) ≤ 20080)
    × (world.get_fee_for_message request.transaction ≡ some 10000)
    × (calculate_fee_payer_outflow world in_order kora instructions ≡ ok 40)
estimate_kora_fee-covers_example =
    estimate_kora_fee-covers world ◌≤◌ naturals_monotone in_order 1 none request kora true 0 1 refl
      refl (omega arith) margin_run

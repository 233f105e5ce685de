-- ===== src/Tests/Signing.antt =====
-- The request signed, and the claims on it.
use solus_protocol.Base.{ℕ, ◌≤◌, ◌⊎◌, arith, ◌≡◌, refl}
use solus_protocol.Error.{ok}
use solus_protocol.Token.Order.{in_order, swapped}
use solus_protocol.Signing.{sign_transaction}
use solus_protocol.Signing.Costs.{CostsAtMost, sign_transaction-CostsAtMost}
use solus_protocol.Tests.Fee.{naturals_monotone}
use solus_protocol.Signing.Soundness.{IsPaid, IsSigned, sign_transaction-IsSigned}
use solus_protocol.Tests.World.{world, config, wallet, request, signed}
use mathlib.Core.Option.{none}

request-signed :
    sign_transaction world in_order swapped config none wallet request ≡ ok (signed, "base64")
unfolding sign_transaction solus_protocol.Validator.Checks.new_validator
    solus_protocol.Validator.Checks.validate_signatures
    solus_protocol.Validator.Checks.validate_programs
    solus_protocol.Validator.Checks.validate_disallowed_accounts
    solus_protocol.Validator.Checks.validate_lamport_fee
    solus_protocol.Validator.Validate.validate_transaction
    solus_protocol.Validator.Usage.validate_fee_payer_usage
    solus_protocol.Validator.Validate.validate_token_payment
    solus_protocol.Fee.Estimate.estimate_kora_fee
    solus_protocol.Fee.Estimate.estimate_transaction_fee
    solus_protocol.Fee.Outflow.calculate_fee_payer_outflow solus_protocol.Config.get_payment_address
    solus_protocol.Config.has_token solus_protocol.Config.is_account_extension_blocked
    solus_protocol.Config.is_mint_extension_blocked solus_protocol.Config.is_payment_required
    solus_protocol.Config.supports_token solus_protocol.Fee.Calculation.get_total_fee_lamports
    solus_protocol.Fee.Estimate.get_estimate_fee_resolved
    solus_protocol.Fee.Estimate.is_fee_payer_in_signers solus_protocol.Fee.Outflow.accumulate
    solus_protocol.Fee.Outflow.add_create_account solus_protocol.Fee.Outflow.add_spl_outflow
    solus_protocol.Fee.Outflow.add_transfer solus_protocol.Fee.Outflow.add_withdraw_nonce
    solus_protocol.Fee.Outflow.spl_transfers solus_protocol.Fee.Outflow.system_outflow
    solus_protocol.Fee.Payment.analyze_from solus_protocol.Fee.Payment.analyze_payment_instructions
    solus_protocol.Fee.Payment.is_payment solus_protocol.Fee.Payment.payment_transfer_fee
    solus_protocol.Fee.Payment.transfer_fee_of
    solus_protocol.Fee.Price.get_required_lamports_with_fixed
    solus_protocol.Fee.Price.get_required_lamports_with_margin solus_protocol.Oracle.attempt_from
    solus_protocol.Oracle.get_token_price solus_protocol.Oracle.get_token_prices
    solus_protocol.Parse.account_at solus_protocol.Parse.parse_system_instructions
    solus_protocol.Parse.parse_token_instructions solus_protocol.Parse.read_system
    solus_protocol.Parse.read_token solus_protocol.Parse.spl_token_entry
    solus_protocol.Parse.system_entry solus_protocol.Signing.find_signer_position
    solus_protocol.Signing.position solus_protocol.Signing.put_signature
    solus_protocol.Signing.refresh_blockhash solus_protocol.Signing.validate_payment
    solus_protocol.Token.Accounts.get_mint solus_protocol.Token.Accounts.get_mint_decimals
    solus_protocol.Token.Accounts.get_token_program_from_owner
    solus_protocol.Token.Extensions.validate_account_extensions
    solus_protocol.Token.Extensions.validate_extensions_for_payment
    solus_protocol.Token.Extensions.validate_mint_extensions
    solus_protocol.Token.Extensions.validate_partial_for_ata_creation
    solus_protocol.Token.Outflow.add_groups solus_protocol.Token.Outflow.add_transfers
    solus_protocol.Token.Outflow.calculate_spl_transfers_value_in_lamports
    solus_protocol.Token.Outflow.group_transfer solus_protocol.Token.Outflow.group_transfers
    solus_protocol.Token.Outflow.is_incoming solus_protocol.Token.Outflow.outgoing_mint
    solus_protocol.Token.Payment.created_destination solus_protocol.Token.Payment.destination_of
    solus_protocol.Token.Payment.existing_destination
    solus_protocol.Token.Payment.find_ata_creation_for_destination
    solus_protocol.Token.Payment.payment_value solus_protocol.Token.Payment.sum_payments
    solus_protocol.Token.Payment.verify_token_payment
    solus_protocol.Token.TransferFee.calculate_transfer_fee
    solus_protocol.Token.TransferFee.fee_in_epoch
    solus_protocol.Token.Value.calculate_token_value_in_lamports
    solus_protocol.Token.Value.get_token_price_and_decimals solus_protocol.Token.Value.pow10
    solus_protocol.Token.Value.value_in_lamports solus_protocol.Validator.Checks.validate_accounts
    solus_protocol.Validator.Usage.refuse_any solus_protocol.Validator.Usage.validate_spl
    solus_protocol.Validator.Usage.validate_spl_multisig
    solus_protocol.Validator.Usage.validate_spl_usage solus_protocol.Validator.Usage.validate_system
    solus_protocol.Validator.Usage.validate_system_usage
    solus_protocol.Validator.Validate.validate_strict_pricing_with_fee
    solus_protocol.Validator.Validate.validate_transfer_amounts
request-signed = refl

sign_transaction-IsSigned_example :
    IsSigned world in_order swapped config none wallet request signed
sign_transaction-IsSigned_example =
    sign_transaction-IsSigned world in_order swapped config none wallet request request-signed

sign_transaction-CostsAtMost_example :
    CostsAtMost world ◌≤◌ naturals_monotone in_order swapped config none wallet request 0
    ⊎ ((required : ℕ) × CostsAtMost world ◌≤◌ naturals_monotone in_order swapped config none wallet
          request required
        × IsPaid world in_order swapped config none wallet request required)
sign_transaction-CostsAtMost_example =
    sign_transaction-CostsAtMost world ◌≤◌ naturals_monotone in_order swapped config none wallet
      request 0 0 0 refl refl refl (omega arith) request-signed

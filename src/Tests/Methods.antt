-- ===== src/Tests/Methods.antt =====
-- Whole requests: the transaction of the other tests, from its text, and a transfer that Kora builds.
use solus_protocol.Base.{
  ℕ, String, Bool, true, false, Option, none, some, List, [], ◌∷◌, ◌≡◌, refl, ◌==◌, string_eq,
  if◌then◌else◌,
}
use solus_protocol.Error.{ok}
use solus_protocol.Instruction.{Pubkey, Instruction}
use solus_protocol.Transaction.{VersionedTransaction}
use solus_protocol.Token.Order.{in_order, swapped}
use solus_protocol.Reconstruct.{Encoders}
use solus_protocol.Resolve.Inner.{Simulation}
use solus_protocol.Usage.{Counters, in_memory, check_transaction_usage_limit}
use solus_protocol.Pool.{SignerPool, round_robin}
use solus_protocol.Methods.{
  Server, Codecs, Setting, TransactionRequest, decode_b64_transaction, sign_transaction,
  sign_and_send_transaction,
}
use solus_protocol.Methods.Signed.{IsAnswered, sign_transaction-IsAnswered}
use solus_protocol.Methods.Quota.{signing-charges}
use solus_protocol.Methods.Transfer.{
  Builders, TransferRequest, TransferResponse, native_sol, transfer_transaction,
}
use solus_protocol.Methods.Built.{IsBuilt, transfer_transaction-IsBuilt}
use solus_protocol.Tests.World.{lamports_transfer, world, config, wallet, request, kora, user}
use solus_protocol.Tests.Usage.{three}

-- The request's transaction with its instructions compiled.
abbrev transaction : VersionedTransaction
transaction = record (request.transaction) {
  instructions =
      record { program_id_index = 5; account_indexes = 0 ∷ 1 ∷ []; payload = 40 ∷ [] }
      ∷ record { program_id_index = 6; account_indexes = 2 ∷ 4 ∷ 3 ∷ 1 ∷ []; payload = 6000 ∷ [] }
      ∷ [];
}

abbrev encoders : Encoders
encoders = record {
  serialize_system = λ i. none;
  pack_spl = λ i. [];
  pack_2022 = λ i. [];
  decode_base58 = λ s. none;
}

abbrev codecs : Codecs
codecs = record {
  decode_base64 = λ s. some (1 ∷ []);
  deserialize_versioned = λ b. none;
  deserialize_legacy = λ b. some transaction;
  encode_transaction = λ t. some "signed";
  encode_message = λ t. some "message";
}

abbrev quiet : VersionedTransaction → Bool → Option Simulation
quiet t sig_verify = some (record { failure = none; inner_instructions = none })

abbrev setting : Setting ℕ ℕ Counters
setting = record {
  chain = world;
  iteration = in_order;
  next_iteration = swapped;
  encoders = encoders;
  codecs = codecs;
  simulate = quiet;
  deserialize_table = λ b. none;
  config = config;
  payment_address = none;
  wallet = λ k. wallet;
  store = in_memory;
  limiter = some (some three);
  usage_enabled = true;
  usage_fallback = false;
  random = 0;
  now = 1700;
}

abbrev pool : ℕ → ℕ → SignerPool
pool index last_used = record {
  signers = record { name = "kora"; signer = kora; weight = 1; last_used = last_used } ∷ [];
  strategy = round_robin;
  current_index = index;
  total_weight = 1;
}

abbrev fresh : Server Counters
fresh = record { usage = []; pool = some (pool 0 0) }

abbrev served : Server Counters
served = record { usage = (user, 1) ∷ []; pool = some (pool 1 1700) }

abbrev text_request : TransactionRequest
text_request = record { transaction = "base64"; signer_key = none; sig_verify = true }

text_request-served : sign_transaction setting text_request fresh ≡ (ok ("signed", "other"), served)
unfolding sign_transaction check_transaction_usage_limit
    solus_protocol.Usage.extract_transaction_sender solus_protocol.Usage.check_usage_limit
    solus_protocol.Usage.count_of solus_protocol.Pool.get_next_signer
    solus_protocol.Resolve.Inner.from_transaction solus_protocol.Resolve.all_account_keys_of
    solus_protocol.Resolve.uncompile_instructions solus_protocol.Signing.sign_transaction
    solus_protocol.Validator.Checks.new_validator
    solus_protocol.Validator.Checks.validate_signatures
    solus_protocol.Validator.Checks.validate_programs
    solus_protocol.Validator.Checks.validate_disallowed_accounts
    solus_protocol.Validator.Checks.validate_lamport_fee
    solus_protocol.Validator.Validate.validate_transaction
    solus_protocol.Validator.Usage.validate_fee_payer_usage
    solus_protocol.Validator.Validate.validate_token_payment
    solus_protocol.Fee.Estimate.estimate_kora_fee
    solus_protocol.Fee.Estimate.estimate_transaction_fee
    solus_protocol.Fee.Outflow.calculate_fee_payer_outflow solus_protocol.Config.get_payment_address
    solus_protocol.Config.has_token solus_protocol.Config.is_account_extension_blocked
    solus_protocol.Config.is_mint_extension_blocked solus_protocol.Config.is_payment_required
    solus_protocol.Config.supports_token solus_protocol.Fee.Calculation.get_total_fee_lamports
    solus_protocol.Fee.Estimate.get_estimate_fee_resolved
    solus_protocol.Fee.Estimate.is_fee_payer_in_signers solus_protocol.Fee.Outflow.accumulate
    solus_protocol.Fee.Outflow.add_create_account solus_protocol.Fee.Outflow.add_spl_outflow
    solus_protocol.Fee.Outflow.add_transfer solus_protocol.Fee.Outflow.add_withdraw_nonce
    solus_protocol.Fee.Outflow.spl_transfers solus_protocol.Fee.Outflow.system_outflow
    solus_protocol.Fee.Payment.analyze_from solus_protocol.Fee.Payment.analyze_payment_instructions
    solus_protocol.Fee.Payment.is_payment solus_protocol.Fee.Payment.payment_transfer_fee
    solus_protocol.Fee.Payment.transfer_fee_of
    solus_protocol.Fee.Price.get_required_lamports_with_fixed
    solus_protocol.Fee.Price.get_required_lamports_with_margin solus_protocol.Oracle.attempt_from
    solus_protocol.Oracle.get_token_price solus_protocol.Oracle.get_token_prices
    solus_protocol.Parse.account_at solus_protocol.Parse.parse_system_instructions
    solus_protocol.Parse.parse_token_instructions solus_protocol.Parse.read_system
    solus_protocol.Parse.read_token solus_protocol.Parse.spl_token_entry
    solus_protocol.Parse.system_entry solus_protocol.Signing.find_signer_position
    solus_protocol.Signing.position solus_protocol.Signing.put_signature
    solus_protocol.Signing.refresh_blockhash solus_protocol.Signing.validate_payment
    solus_protocol.Token.Accounts.get_mint solus_protocol.Token.Accounts.get_mint_decimals
    solus_protocol.Token.Accounts.get_token_program_from_owner
    solus_protocol.Token.Extensions.validate_account_extensions
    solus_protocol.Token.Extensions.validate_extensions_for_payment
    solus_protocol.Token.Extensions.validate_mint_extensions
    solus_protocol.Token.Extensions.validate_partial_for_ata_creation
    solus_protocol.Token.Outflow.add_groups solus_protocol.Token.Outflow.add_transfers
    solus_protocol.Token.Outflow.calculate_spl_transfers_value_in_lamports
    solus_protocol.Token.Outflow.group_transfer solus_protocol.Token.Outflow.group_transfers
    solus_protocol.Token.Outflow.is_incoming solus_protocol.Token.Outflow.outgoing_mint
    solus_protocol.Token.Payment.created_destination solus_protocol.Token.Payment.destination_of
    solus_protocol.Token.Payment.existing_destination
    solus_protocol.Token.Payment.find_ata_creation_for_destination
    solus_protocol.Token.Payment.payment_value solus_protocol.Token.Payment.sum_payments
    solus_protocol.Token.Payment.verify_token_payment
    solus_protocol.Token.TransferFee.calculate_transfer_fee
    solus_protocol.Token.TransferFee.fee_in_epoch
    solus_protocol.Token.Value.calculate_token_value_in_lamports
    solus_protocol.Token.Value.get_token_price_and_decimals solus_protocol.Token.Value.pow10
    solus_protocol.Token.Value.value_in_lamports solus_protocol.Validator.Checks.validate_accounts
    solus_protocol.Validator.Usage.refuse_any solus_protocol.Validator.Usage.validate_spl
    solus_protocol.Validator.Usage.validate_spl_multisig
    solus_protocol.Validator.Usage.validate_spl_usage solus_protocol.Validator.Usage.validate_system
    solus_protocol.Validator.Usage.validate_system_usage
    solus_protocol.Validator.Validate.validate_strict_pricing_with_fee
    solus_protocol.Validator.Validate.validate_transfer_amounts solus_protocol.Usage.increment_in
text_request-served = refl

sign_transaction-IsAnswered_example : IsAnswered setting text_request fresh served "signed" "other"
sign_transaction-IsAnswered_example =
    sign_transaction-IsAnswered setting text_request fresh served text_request-served

decoded : decode_b64_transaction codecs "base64" ≡ ok transaction
unfolding decode_b64_transaction
decoded = refl

signing-charges_example :
    ((sign_transaction setting text_request fresh).1.usage
      ≡ (check_transaction_usage_limit in_memory (some (some three)) true false transaction []).1)
    × ((sign_and_send_transaction setting text_request fresh).1.usage
        ≡ (check_transaction_usage_limit in_memory (some (some three)) true false transaction []).1)
signing-charges_example = signing-charges setting text_request transaction fresh decoded

-- The user sends Kora 40 lamports through `transfer_transaction`.
abbrev named : String → Option Pubkey
named s =
    if s == "user"
    then some user
    else if s == "kora"
    then some kora
    else if s == native_sol
    then some 100
    else world.from_str s

abbrev compiled_transfer : List Instruction → Pubkey → ℕ → VersionedTransaction
compiled_transfer ixs fee_payer blockhash = record {
  signatures = [];
  num_required_signatures = 2;
  static_account_keys = fee_payer ∷ user ∷ 100 ∷ [];
  recent_blockhash = blockhash;
  instructions =
      record { program_id_index = 2; account_indexes = 1 ∷ 0 ∷ []; payload = 40 ∷ [] } ∷ [];
  address_table_lookups = none;
}

abbrev builders : Builders
builders = record {
  transfer = λ source destination lamports. lamports_transfer lamports source destination;
  create_associated_token_account = λ is_2022 payer owner mint. lamports_transfer 0 payer owner;
  transfer_checked = λ is_2022 source mint destination owner amount decimals. none;
  new_with_blockhash = compiled_transfer;
}

abbrev naming : Setting ℕ ℕ Counters
naming = record setting { chain = record world { from_str = named } }

abbrev transfer_request : TransferRequest
transfer_request = record {
  amount = 40;
  token = native_sol;
  source = "user";
  destination = "kora";
  signer_key = some "kora";
}

abbrev transfer_response : TransferResponse
transfer_response = record {
  transaction = "signed";
  message = "message";
  blockhash = 1;
  signer_pubkey = "other";
}

abbrev picked_by_key : Server Counters
picked_by_key = record { usage = []; pool = some (pool 0 1700) }

transfer_request-served :
    transfer_transaction naming builders transfer_request fresh
    ≡ (ok transfer_response, picked_by_key)
unfolding transfer_transaction solus_protocol.Pool.get_signer_by_pubkey
    solus_protocol.Resolve.from_kora_built_transaction
    solus_protocol.Methods.new_unsigned_versioned_transaction
    solus_protocol.Validator.Checks.is_disallowed_account
    solus_protocol.Usage.extract_transaction_sender solus_protocol.Usage.check_usage_limit
    solus_protocol.Usage.count_of solus_protocol.Pool.get_next_signer
    solus_protocol.Resolve.Inner.from_transaction solus_protocol.Resolve.all_account_keys_of
    solus_protocol.Resolve.uncompile_instructions solus_protocol.Validator.Checks.new_validator
    solus_protocol.Validator.Checks.validate_signatures
    solus_protocol.Validator.Checks.validate_programs
    solus_protocol.Validator.Checks.validate_disallowed_accounts
    solus_protocol.Validator.Checks.validate_lamport_fee
    solus_protocol.Validator.Validate.validate_transaction
    solus_protocol.Validator.Usage.validate_fee_payer_usage
    solus_protocol.Validator.Validate.validate_token_payment
    solus_protocol.Fee.Estimate.estimate_kora_fee
    solus_protocol.Fee.Estimate.estimate_transaction_fee
    solus_protocol.Fee.Outflow.calculate_fee_payer_outflow solus_protocol.Config.get_payment_address
    solus_protocol.Config.has_token solus_protocol.Config.is_account_extension_blocked
    solus_protocol.Config.is_mint_extension_blocked solus_protocol.Config.is_payment_required
    solus_protocol.Config.supports_token solus_protocol.Fee.Calculation.get_total_fee_lamports
    solus_protocol.Fee.Estimate.get_estimate_fee_resolved
    solus_protocol.Fee.Estimate.is_fee_payer_in_signers solus_protocol.Fee.Outflow.accumulate
    solus_protocol.Fee.Outflow.add_create_account solus_protocol.Fee.Outflow.add_spl_outflow
    solus_protocol.Fee.Outflow.add_transfer solus_protocol.Fee.Outflow.add_withdraw_nonce
    solus_protocol.Fee.Outflow.spl_transfers solus_protocol.Fee.Outflow.system_outflow
    solus_protocol.Fee.Payment.analyze_from solus_protocol.Fee.Payment.analyze_payment_instructions
    solus_protocol.Fee.Payment.is_payment solus_protocol.Fee.Payment.payment_transfer_fee
    solus_protocol.Fee.Payment.transfer_fee_of
    solus_protocol.Fee.Price.get_required_lamports_with_fixed
    solus_protocol.Fee.Price.get_required_lamports_with_margin solus_protocol.Oracle.attempt_from
    solus_protocol.Oracle.get_token_price solus_protocol.Oracle.get_token_prices
    solus_protocol.Parse.account_at solus_protocol.Parse.parse_system_instructions
    solus_protocol.Parse.parse_token_instructions solus_protocol.Parse.read_system
    solus_protocol.Parse.read_token solus_protocol.Parse.spl_token_entry
    solus_protocol.Parse.system_entry solus_protocol.Signing.find_signer_position
    solus_protocol.Signing.position solus_protocol.Signing.put_signature
    solus_protocol.Signing.refresh_blockhash solus_protocol.Signing.validate_payment
    solus_protocol.Token.Accounts.get_mint solus_protocol.Token.Accounts.get_mint_decimals
    solus_protocol.Token.Accounts.get_token_program_from_owner
    solus_protocol.Token.Extensions.validate_account_extensions
    solus_protocol.Token.Extensions.validate_extensions_for_payment
    solus_protocol.Token.Extensions.validate_mint_extensions
    solus_protocol.Token.Extensions.validate_partial_for_ata_creation
    solus_protocol.Token.Outflow.add_groups solus_protocol.Token.Outflow.add_transfers
    solus_protocol.Token.Outflow.calculate_spl_transfers_value_in_lamports
    solus_protocol.Token.Outflow.group_transfer solus_protocol.Token.Outflow.group_transfers
    solus_protocol.Token.Outflow.is_incoming solus_protocol.Token.Outflow.outgoing_mint
    solus_protocol.Token.Payment.created_destination solus_protocol.Token.Payment.destination_of
    solus_protocol.Token.Payment.existing_destination
    solus_protocol.Token.Payment.find_ata_creation_for_destination
    solus_protocol.Token.Payment.payment_value solus_protocol.Token.Payment.sum_payments
    solus_protocol.Token.Payment.verify_token_payment
    solus_protocol.Token.TransferFee.calculate_transfer_fee
    solus_protocol.Token.TransferFee.fee_in_epoch
    solus_protocol.Token.Value.calculate_token_value_in_lamports
    solus_protocol.Token.Value.get_token_price_and_decimals solus_protocol.Token.Value.pow10
    solus_protocol.Token.Value.value_in_lamports solus_protocol.Validator.Checks.validate_accounts
    solus_protocol.Validator.Usage.refuse_any solus_protocol.Validator.Usage.validate_spl
    solus_protocol.Validator.Usage.validate_spl_multisig
    solus_protocol.Validator.Usage.validate_spl_usage solus_protocol.Validator.Usage.validate_system
    solus_protocol.Validator.Usage.validate_system_usage
    solus_protocol.Validator.Validate.validate_strict_pricing_with_fee
    solus_protocol.Validator.Validate.validate_transfer_amounts solus_protocol.Usage.increment_in
transfer_request-served = refl

transfer_transaction-IsBuilt_example :
    IsBuilt naming builders transfer_request fresh picked_by_key transfer_response
transfer_transaction-IsBuilt_example =
    transfer_transaction-IsBuilt naming builders transfer_request fresh picked_by_key
      transfer_request-served

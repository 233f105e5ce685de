-- ===== src/Tests/Validator.antt =====
-- The request before the validator, and two that it refuses.
use solus_protocol.Base.{false, [], ◌∷◌, ◌≡◌, ◌↔◌, refl}
use solus_protocol.Error.{ok, err, invalid_transaction}
use solus_protocol.Token.Order.{in_order}
use solus_protocol.Validator.Checks.{TransactionValidator}
use solus_protocol.Validator.Usage.{validate_fee_payer_usage}
use solus_protocol.Validator.Policy.Refinement.{UsagePermitted, validate_fee_payer_usage_iff}
use solus_protocol.Validator.Validate.{validate_transaction}
use solus_protocol.Validator.Soundness.{IsValidated, validate_transaction_iff}
use solus_protocol.Tests.World.{
  world, programs, policy, kora, request, instructions, token_transfer,
}

abbrev pub validator : TransactionValidator
validator = record {
  fee_payer_pubkey = kora;
  max_allowed_lamports = 100000;
  allowed_programs = 100 ∷ 101 ∷ [];
  max_signatures = 4;
  allowed_tokens = [];
  disallowed_accounts = 66 ∷ [];
  fee_payer_policy = policy;
  allow_durable_transactions = false;
}

validate_transaction_iff_example :
    (validate_transaction world in_order validator request ≡ ok tt)
    ↔ IsValidated world in_order validator request
validate_transaction_iff_example = validate_transaction_iff world in_order validator request

validate_fee_payer_usage_iff_example :
    (validate_fee_payer_usage kora programs policy false instructions ≡ ok tt)
    ↔ UsagePermitted programs policy kora false instructions
validate_fee_payer_usage_iff_example =
    validate_fee_payer_usage_iff programs policy kora false instructions

-- A token transfer by the fee payer, which the policy forbids.
fee_payer_tokens :
    validate_fee_payer_usage kora programs policy false (token_transfer 1 21 10 20 kora ∷ [])
    ≡ err invalid_transaction
unfolding validate_fee_payer_usage solus_protocol.Parse.account_at
    solus_protocol.Parse.parse_system_instructions solus_protocol.Parse.parse_token_instructions
    solus_protocol.Parse.read_system solus_protocol.Parse.read_token
    solus_protocol.Parse.spl_token_entry solus_protocol.Validator.Usage.validate_spl
    solus_protocol.Validator.Usage.validate_system
fee_payer_tokens = refl

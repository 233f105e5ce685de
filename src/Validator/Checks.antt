-- ===== src/Validator/Checks.antt =====
-- `TransactionValidator` and its checks of keys and counts
-- (kora/crates/lib/src/validator/transaction_validator.rs).
use solus_protocol.Base.{
  ℕ, String, Bool, not, Option, List, [], ◌∷◌, nat_eq, contains, ltb, length, is_empty,
  if◌then◌else◌,
}
use solus_protocol.Error.{
  Result, ok, err, internal_server_error, invalid_transaction, ok_or, fail_if, traverse, ◌>>=◌,
  ◌>>◌,
}
use solus_protocol.Instruction.{Pubkey, Instruction}
use solus_protocol.Config.{FeePayerPolicy, ValidationConfig}
use solus_protocol.Parse.{pubkeys}
use solus_protocol.Transaction.{VersionedTransaction}

pub record TransactionValidator : Type 0 where
  pub fee_payer_pubkey : Pubkey
  pub max_allowed_lamports : ℕ
  pub allowed_programs : List Pubkey
  pub max_signatures : ℕ
  pub allowed_tokens : List Pubkey
  pub disallowed_accounts : List Pubkey
  pub fee_payer_policy : FeePayerPolicy
  pub allow_durable_transactions : Bool

abbrev pub parse_addresses : (String → Option Pubkey) → List String → Result (List Pubkey)
parse_addresses from_str = traverse (λ address. ok_or (from_str address) internal_server_error)

-- `TransactionValidator::new`
unfoldable pub new_validator :
    {F : Type 0}
    → (String → Option Pubkey)
    → ValidationConfig F
    → Pubkey
    → Result TransactionValidator
new_validator from_str config fee_payer_pubkey = do
  allowed_programs ← parse_addresses from_str config.allowed_programs
  allowed_tokens ← parse_addresses from_str config.allowed_tokens
  disallowed_accounts ← parse_addresses from_str config.disallowed_accounts
  ok (record {
    fee_payer_pubkey = fee_payer_pubkey;
    max_allowed_lamports = config.max_allowed_lamports;
    allowed_programs = allowed_programs;
    max_signatures = config.max_signatures;
    allowed_tokens = allowed_tokens;
    disallowed_accounts = disallowed_accounts;
    fee_payer_policy = config.fee_payer_policy;
    allow_durable_transactions = config.allow_durable_transactions;
  })

module _ (v : TransactionValidator) where
  unfoldable pub validate_lamport_fee : ℕ → Result (Unit {0})
  validate_lamport_fee fee = fail_if (ltb v.max_allowed_lamports fee) invalid_transaction

  unfoldable pub validate_signatures : VersionedTransaction → Result (Unit {0})
  validate_signatures transaction = do
    fail_if (ltb v.max_signatures (length transaction.signatures)) invalid_transaction
    fail_if (is_empty transaction.signatures) invalid_transaction

  unfoldable pub validate_programs : List Instruction → Result (Unit {0})
  validate_programs [] = ok tt
  validate_programs (ix ∷ ixs) =
      let rest = validate_programs ixs in
      if not (contains v.allowed_programs ix.program_id) then err invalid_transaction else rest

  unfoldable pub validate_accounts : List Pubkey → Result (Unit {0})
  validate_accounts [] = ok tt
  validate_accounts (k ∷ ks) =
      let rest = validate_accounts ks in
      if contains v.disallowed_accounts k then err invalid_transaction else rest

  unfoldable pub validate_disallowed_accounts : List Instruction → Result (Unit {0})
  unfolding validate_accounts
  validate_disallowed_accounts [] = ok tt
  validate_disallowed_accounts (ix ∷ ixs) =
      let rest = (validate_accounts (pubkeys ix.accounts) >> validate_disallowed_accounts ixs) in
      if contains v.disallowed_accounts ix.program_id then err invalid_transaction else rest

  unfoldable pub is_disallowed_account : Pubkey → Bool
  is_disallowed_account account = contains v.disallowed_accounts account

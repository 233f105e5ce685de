-- ===== src/Setup/Validator.antt =====
-- `ConfigValidator` of kora/crates/lib/src/validator/config_validator.rs, on the result of `get_config`.
-- The printed summary is left out.
pub mod Conditions
pub mod Parts
pub mod Services
pub mod Chain
pub mod Accepted
pub mod Starts
use solus_protocol.Base.{
  ℕ, String, Bool, true, false, not, ◌&&◌, ◌||◌, Option, none, some, List, [], ◌∷◌, ◌++◌, map, any,
  ◌==◌, nat_eq, string_eq, contains, is_empty, if◌then◌else◌,
}
use solus_protocol.Error.{
  Result, ok, err, internal_server_error, validation_error, ok_or, fail_if, traverse, ◌>>=◌, ◌>>◌,
}
use solus_protocol.Instruction.{Pubkey, Bytes}
use solus_protocol.Config.{
  PriceModel, margin, fixed, free, SplTokenConfig, all_tokens, allowlist, has_tokens, as_slice,
  PriceSource, jupiter, mock, ValidationConfig, supports_token, is_mint_extension_blocked,
  KoraConfig, AuthConfig, Config, enabled_methods_iter,
}
use solus_protocol.External.{External, Account}
use solus_protocol.AccountType.{AccountType, mint, program, Layouts, validate_account}
use solus_protocol.Setup.Extensions.{
  ExtensionType, permanent_delegate, transfer_hook, validate_token2022_extensions,
}
use solus_protocol.Setup.Signers.{
  SignerPoolConfig, load_config, signer_errors, validate_strategy_warnings,
}
use solus_protocol.Setup.Policy.{validate_fee_payer_policy}
use solus_protocol.Setup.Report.{
  ConfigError, ConfigWarning, Report, fine, complain, warn, complain_if, warn_if, all_of, each,
  no_config, invalid_payment_address, no_jupiter_api_key, no_allowed_tokens, invalid_token,
  invalid_paid_token, invalid_disallowed_account, invalid_extension_name, no_token_program,
  no_paid_tokens, invalid_price_token, unsupported_price_token, negative_margin,
  usage_without_cache, invalid_cache_url, redis_failed, missing_atas, atas_unknown,
  signers_not_loaded, paid_token_not_allowed, program_failed, token_failed, paid_token_failed,
  signer_error, blocks_all_requests, blocks_all_methods, blocks_all_lamports, blocks_all_signatures,
  mock_prices, durable_transactions, blocks_all_programs, no_system_program, blocks_token_programs,
  all_tokens_paid, permanent_delegate_allowed, free_pricing, zero_price, fixed_without_auth,
  strict_pricing, high_margin, no_auth, usage_without_limits, usage_without_fallback,
  redis_unavailable, policy_allows, risky_extension, signer_warning,
}
use solus_protocol.Setup.Cache.{validate_usage_limit}
use solus_protocol.Setup.Atas.{find_missing_atas}
use solus_protocol.Setup.Checks.{
  Surroundings, is_ok, is_key, check_valid_tokens, has_program, has_token_program, has_auth,
  check_address, check_price_source, check_programs, check_tokens, check_allowed_tokens,
  warn_all_tokens, is_free, check_fees, check_price, check_account, warn_extensions, check_mint,
  check_token_mint_extensions, check_atas, check_chain, check_loaded, check_signers,
}

pub data Outcome : Type 0 where
  valid : List ConfigWarning → Outcome
  invalid : List ConfigError → Outcome

module _ {F D : Type 0} (s : Surroundings F D) where
  -- Each check of the source, in its order.
  abbrev pub checks : Config F → Bool → Option String → List Report
  checks c skip_rpc_validation signers_config_path =
      warn_if (c.kora.rate_limit == 0) blocks_all_requests
      ∷ check_address s c.kora.payment_address
      ∷ warn_if (not (any (λ enabled. enabled) (enabled_methods_iter c.kora.enabled_methods)))
          blocks_all_methods
      ∷ warn_if (c.validation.max_allowed_lamports == 0) blocks_all_lamports
      ∷ warn_if (c.validation.max_signatures == 0) blocks_all_signatures
      ∷ check_price_source s c.validation.price_source
      ∷ warn_if c.validation.allow_durable_transactions durable_transactions
      ∷ check_programs s c.validation
      ∷ check_allowed_tokens s c.validation.allowed_tokens
      ∷ check_tokens s (as_slice c.validation.allowed_spl_paid_tokens) invalid_paid_token
      ∷ warn_all_tokens s c.validation.allowed_spl_paid_tokens
      ∷ check_tokens s c.validation.disallowed_accounts invalid_disallowed_account
      ∷ complain_if (not (is_ok (validate_token2022_extensions c.validation.token_2022)))
          invalid_extension_name
      ∷ warn_if
          (not (is_mint_extension_blocked c.validation.token_2022 (s.number permanent_delegate)))
          permanent_delegate_allowed
      ∷ check_fees s c.validation
      ∷ each
          (λ paid.
            complain_if (not (contains c.validation.allowed_tokens paid))
              (paid_token_not_allowed paid))
          (as_slice c.validation.allowed_spl_paid_tokens)
      ∷ record {
        errors = [];
        warnings = map policy_allows (validate_fee_payer_policy c.validation.fee_payer_policy);
      }
      ∷ check_price s c c.validation.price
      ∷ warn_if (not (has_auth s c.kora.auth)) no_auth
      ∷ validate_usage_limit s.test_redis_connection c.kora.usage_limit
      ∷ (if skip_rpc_validation then fine else check_chain s c)
      ∷ check_signers s signers_config_path
      ∷ []

  abbrev pub outcome : Report → Outcome
  outcome r = if is_empty r.errors then valid r.warnings else invalid r.errors

  unfoldable pub validate_with_result_and_signers :
      Result (Config F) → Bool → Option String → Outcome
  unfolding check_valid_tokens check_token_mint_extensions
  validate_with_result_and_signers (err e) skip path = invalid (no_config ∷ [])
  validate_with_result_and_signers (ok c) skip path = outcome (all_of (checks c skip path))

  unfoldable pub validate : Config F → Result (Unit {0})
  unfolding check_valid_tokens
  validate c = do
    fail_if (is_empty c.validation.allowed_tokens) internal_server_error
    check_valid_tokens s.chain.from_str c.validation.allowed_tokens >>= λ _. ok tt
    elim c.kora.payment_address [
      | none ↦ ok tt
      | some address ↦ fail_if (not (is_key s.chain.from_str address)) internal_server_error
    ]

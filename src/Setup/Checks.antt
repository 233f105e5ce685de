-- ===== src/Setup/Checks.antt =====
-- The single checks of `ConfigValidator` (kora/crates/lib/src/validator/config_validator.rs), and what
-- surrounds a validation.
use solus_protocol.Base.{
  ℕ, String, Bool, true, false, not, ◌||◌, Option, none, some, List, [], ◌∷◌, map, ◌==◌, nat_eq,
  string_eq, contains, is_empty, if◌then◌else◌,
}
use solus_protocol.Error.{Result, ok, err, validation_error, ok_or, traverse}
use solus_protocol.Instruction.{Pubkey, Bytes}
use solus_protocol.Config.{
  PriceModel, margin, fixed, free, SplTokenConfig, all_tokens, allowlist, has_tokens, as_slice,
  PriceSource, jupiter, mock, ValidationConfig, supports_token, AuthConfig, Config,
}
use solus_protocol.External.{External, Account}
use solus_protocol.AccountType.{AccountType, mint, program, Layouts, validate_account}
use solus_protocol.Setup.Extensions.{ExtensionType, permanent_delegate, transfer_hook}
use solus_protocol.Setup.Signers.{
  SignerPoolConfig, load_config, signer_errors, validate_strategy_warnings,
}
use solus_protocol.Setup.Report.{
  ConfigError, Report, fine, complain, warn, complain_if, warn_if, all_of, each,
  invalid_payment_address, no_jupiter_api_key, no_allowed_tokens, invalid_token, no_token_program,
  no_paid_tokens, invalid_price_token, unsupported_price_token, negative_margin, missing_atas,
  atas_unknown, signers_not_loaded, program_failed, token_failed, paid_token_failed, signer_error,
  mock_prices, blocks_all_programs, no_system_program, blocks_token_programs, all_tokens_paid,
  free_pricing, zero_price, fixed_without_auth, strict_pricing, high_margin, risky_extension,
  signer_warning,
}
use solus_protocol.Setup.Atas.{find_missing_atas}

-- What surrounds a validation, over the types of floating-point and decimal numbers.
pub record Surroundings (F D : Type 0) : Type 0 where
  pub chain : External F D
  pub layouts : Layouts
  -- `rpc_client.get_account`
  pub rpc_account : Pubkey → Result Account
  -- `StateWithExtensions::<Mint>::unpack`, then `get_extension(..).is_ok()`
  pub unpack_extensions : Bytes → Option (ExtensionType → Bool)
  -- `as u16` on extension types
  pub number : ExtensionType → ℕ
  -- whether `JUPITER_API_KEY` is set
  pub jupiter_api_key : Bool
  -- `< 0.0` and `> 1.0`
  pub is_negative : F → Bool
  pub exceeds_one : F → Bool
  pub test_redis_connection : String → Bool
  pub read_config : String → Result SignerPoolConfig

abbrev pub is_ok : {A : Type 0} → Result A → Bool
is_ok (ok a) = true
is_ok (err e) = false

abbrev pub is_key : (String → Option Pubkey) → String → Bool
is_key from_str s = elim (from_str s) [ none ↦ false | some k ↦ true ]

-- `TokenUtil::check_valid_tokens`
unfoldable pub check_valid_tokens : (String → Option Pubkey) → List String → Result (List Pubkey)
check_valid_tokens from_str = traverse (λ token. ok_or (from_str token) validation_error)

module _ {F D : Type 0} (s : Surroundings F D) where
  abbrev pub has_program : ValidationConfig F → Pubkey → Bool
  has_program v id = contains v.allowed_programs (s.chain.to_string id)

  abbrev pub has_token_program : ValidationConfig F → Bool
  has_token_program v =
      has_program v s.chain.programs.spl_token || has_program v s.chain.programs.spl_token_2022

  abbrev pub has_auth : AuthConfig → Bool
  has_auth a = elim a.api_key [
    | some k ↦ true
    | none ↦ elim a.hmac_secret [ some k ↦ true | none ↦ false ]
  ]

  abbrev pub check_address : Option String → Report
  check_address none = fine
  check_address (some address) =
      complain_if (not (is_key s.chain.from_str address)) invalid_payment_address

  abbrev pub check_price_source : PriceSource → Report
  check_price_source mock = warn mock_prices
  check_price_source jupiter = complain_if (not s.jupiter_api_key) no_jupiter_api_key

  abbrev pub check_programs : ValidationConfig F → Report
  check_programs v =
      if is_empty v.allowed_programs
      then warn blocks_all_programs
      else all_of (
          warn_if (not (has_program v s.chain.programs.system_program)) no_system_program
          ∷ warn_if (not (has_token_program v)) blocks_token_programs
          ∷ [])

  abbrev pub check_tokens : List String → ConfigError → Report
  check_tokens tokens e = complain_if (not (is_ok (check_valid_tokens s.chain.from_str tokens))) e

  abbrev pub check_allowed_tokens : List String → Report
  check_allowed_tokens tokens =
      if is_empty tokens then complain no_allowed_tokens else check_tokens tokens invalid_token

  abbrev pub warn_all_tokens : SplTokenConfig → Report
  warn_all_tokens all_tokens = warn all_tokens_paid
  warn_all_tokens (allowlist tokens) = fine

  abbrev pub is_free : PriceModel F → Bool
  is_free free = true
  is_free _ = false

  abbrev pub check_fees : ValidationConfig F → Report
  check_fees v =
      if is_free v.price
      then warn free_pricing
      else all_of (
          complain_if (not (has_token_program v)) no_token_program
          ∷ complain_if (not (has_tokens v.allowed_spl_paid_tokens)) no_paid_tokens
          ∷ [])

  abbrev pub check_price : Config F → PriceModel F → Report
  check_price c (fixed amount token strict) = all_of (
      warn_if (amount == 0) zero_price
      ∷ complain_if (not (is_key s.chain.from_str token)) invalid_price_token
      ∷ complain_if (not (supports_token c.validation token)) unsupported_price_token
      ∷ warn_if (not (has_auth c.kora.auth)) fixed_without_auth
      ∷ warn_if strict strict_pricing
      ∷ [])
  check_price c (margin m) =
      if s.is_negative m then complain negative_margin else warn_if (s.exceeds_one m) high_margin
  check_price c free = fine

  -- An address that does not parse is skipped.
  abbrev pub check_account : AccountType → (String → ConfigError) → String → Report
  check_account type e text = elim (s.chain.from_str text) [
    | none ↦ fine
    | some k ↦ complain_if (not (is_ok (validate_account s.chain s.layouts k (some type)))) (e text)
  ]

  abbrev pub warn_extensions : String → Option (ExtensionType → Bool) → Report
  warn_extensions token none = fine
  warn_extensions token (some has) = all_of (
      warn_if (has permanent_delegate) (risky_extension token permanent_delegate)
      ∷ warn_if (has transfer_hook) (risky_extension token transfer_hook)
      ∷ [])

  abbrev pub check_mint : String → Result Account → Report
  check_mint token (err e) = fine
  check_mint token (ok account) =
      if account.owner == s.chain.programs.spl_token_2022
      then warn_extensions token (s.unpack_extensions account.payload)
      else fine

  unfoldable pub check_token_mint_extensions : List String → Report
  check_token_mint_extensions = each (λ token. elim (s.chain.from_str token) [
    | none ↦ fine
    | some k ↦ check_mint token (s.rpc_account k)
  ])

  abbrev pub check_atas : SplTokenConfig → Option String → Report
  check_atas paid none = fine
  check_atas paid (some address) = elim (s.chain.from_str address) [
    | none ↦ complain invalid_payment_address
    | some k ↦ elim (find_missing_atas s.chain k paid) [
      | ok atas ↦ complain_if (not (is_empty atas)) missing_atas
      | err e ↦ complain atas_unknown
    ]
  ]

  abbrev pub check_chain : Config F → Report
  check_chain c = all_of (
      each (check_account program program_failed) c.validation.allowed_programs
      ∷ each (check_account mint token_failed) c.validation.allowed_tokens
      ∷ each (check_account mint paid_token_failed) (as_slice c.validation.allowed_spl_paid_tokens)
      ∷ check_token_mint_extensions c.validation.allowed_tokens
      ∷ check_atas c.validation.allowed_spl_paid_tokens c.kora.payment_address
      ∷ [])

  abbrev pub check_loaded : Result SignerPoolConfig → Report
  check_loaded (err e) = complain signers_not_loaded
  check_loaded (ok p) = record {
    errors = map signer_error (signer_errors p);
    warnings = map signer_warning (validate_strategy_warnings p);
  }

  abbrev pub check_signers : Option String → Report
  check_signers none = fine
  check_signers (some path) = check_loaded (load_config s.read_config path)

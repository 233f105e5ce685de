-- ===== src/Setup/Report.antt =====
-- What a configuration check reports: its errors and its warnings, each in the source's order. A
-- message is a constructor with the text that it quotes.
use solus_protocol.Base.{String, Bool, List, [], ◌∷◌, ◌++◌, if◌then◌else◌}
pub mod Errors
use solus_protocol.Setup.Extensions.{ExtensionType}
use solus_protocol.Setup.Policy.{Flag}
use solus_protocol.Setup.Signers.{SignerError, SignerWarning}

pub data ConfigError : Type 0 where
  no_config invalid_payment_address no_jupiter_api_key no_allowed_tokens invalid_token : ConfigError
  invalid_paid_token invalid_disallowed_account invalid_extension_name no_token_program :
      ConfigError
  no_paid_tokens invalid_price_token unsupported_price_token negative_margin : ConfigError
  usage_without_cache invalid_cache_url redis_failed : ConfigError
  missing_atas atas_unknown signers_not_loaded : ConfigError
  paid_token_not_allowed program_failed token_failed paid_token_failed : String → ConfigError
  signer_error : SignerError → ConfigError

pub data ConfigWarning : Type 0 where
  blocks_all_requests blocks_all_methods blocks_all_lamports blocks_all_signatures : ConfigWarning
  mock_prices durable_transactions blocks_all_programs no_system_program : ConfigWarning
  blocks_token_programs all_tokens_paid permanent_delegate_allowed free_pricing : ConfigWarning
  zero_price fixed_without_auth strict_pricing high_margin no_auth : ConfigWarning
  usage_without_limits usage_without_fallback redis_unavailable : ConfigWarning
  policy_allows : Flag → ConfigWarning
  risky_extension : String → ExtensionType → ConfigWarning
  signer_warning : SignerWarning → ConfigWarning

pub record Report : Type 0 where
  pub errors : List ConfigError
  pub warnings : List ConfigWarning

abbrev pub fine : Report
fine = record { errors = []; warnings = [] }

abbrev pub complain : ConfigError → Report
complain e = record { errors = e ∷ []; warnings = [] }

abbrev pub warn : ConfigWarning → Report
warn w = record { errors = []; warnings = w ∷ [] }

abbrev pub complain_if : Bool → ConfigError → Report
complain_if b e = if b then complain e else fine

abbrev pub warn_if : Bool → ConfigWarning → Report
warn_if b w = if b then warn w else fine

-- Checks in a row.
abbrev pub all_of : List Report → Report
all_of [] = fine
all_of (r ∷ rs) = record {
  errors = r.errors ++ (all_of rs).errors;
  warnings = r.warnings ++ (all_of rs).warnings;
}

-- A check of each member of a list.
abbrev pub each : {A : Type 0} → (A → Report) → List A → Report
each check [] = fine
each check (x ∷ xs) = record {
  errors = (check x).errors ++ (each check xs).errors;
  warnings = (check x).warnings ++ (each check xs).warnings;
}

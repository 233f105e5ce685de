-- ===== src/Setup/Signers.antt =====
-- `SignerPoolConfig` and its checks (kora/crates/lib/src/signer/config.rs), and `SignerValidator` of
-- kora/crates/lib/src/validator/signer_validator.rs. An error's text is what the check was of.
pub mod WellFormed
pub mod Checked
use solus_protocol.Base.{
  ℕ, String, Bool, true, false, not, ◌&&◌, Option, none, some, List, [], ◌∷◌, ◌++◌, ◌==◌, string_eq,
  nat_eq, is_empty, contains, any, if◌then◌else◌,
}
use solus_protocol.Error.{Result, ok, err, validation_error, fail_if, ◌>>=◌, ◌>>◌}
use solus_protocol.Pool.{SelectionStrategy, is_weighted}

-- The four types of signers, each with the names of its environment variables in the source's order.
pub data SignerTypeConfig : Type 0 where
  memory : (private_key_env : String) → SignerTypeConfig
  turnkey :
      (api_public_key_env api_private_key_env organization_id_env private_key_id_env : String)
      → (public_key_env : String) → SignerTypeConfig
  privy : (app_id_env app_secret_env wallet_id_env : String) → SignerTypeConfig
  vault : (vault_addr_env vault_token_env key_name_env pubkey_env : String) → SignerTypeConfig

pub record SignerConfig : Type 0 where
  pub name : String
  pub weight : Option ℕ
  pub config : SignerTypeConfig

pub record SignerPoolConfig : Type 0 where
  pub strategy : SelectionStrategy
  pub signers : List SignerConfig

-- The loop over `env_vars`.
unfoldable pub expect_env_vars : List String → Result (Unit {0})
expect_env_vars [] = ok tt
expect_env_vars (env_var ∷ env_vars) = do
  fail_if (env_var == "") validation_error
  expect_env_vars env_vars

unfoldable pub env_vars : SignerTypeConfig → List String
env_vars (memory k) = k ∷ []
env_vars (turnkey a b c d e) = a ∷ b ∷ c ∷ d ∷ e ∷ []
env_vars (privy a b c) = a ∷ b ∷ c ∷ []
env_vars (vault a b c d) = a ∷ b ∷ c ∷ d ∷ []

unfoldable pub validate_individual_signer_config : SignerConfig → Result (Unit {0})
unfolding expect_env_vars env_vars
validate_individual_signer_config s = do
  fail_if (s.name == "") validation_error
  expect_env_vars (env_vars s.config)

unfoldable pub validate_signer_not_empty : SignerPoolConfig → Result (Unit {0})
validate_signer_not_empty c = fail_if (is_empty c.signers) validation_error

-- The loop of `validate_signer_names`, from the set of the names so far.
unfoldable pub expect_new_names : List String → List SignerConfig → Result (Unit {0})
expect_new_names names [] = ok tt
expect_new_names names (s ∷ ss) = do
  fail_if (contains names s.name) validation_error
  expect_new_names (s.name ∷ names) ss

unfoldable pub validate_signer_names : SignerPoolConfig → Result (Unit {0})
unfolding expect_new_names
validate_signer_names c = expect_new_names [] c.signers

abbrev pub is_zero_weight : Option ℕ → Bool
is_zero_weight none = false
is_zero_weight (some weight) = weight == 0

unfoldable pub expect_weights : List SignerConfig → Result (Unit {0})
expect_weights [] = ok tt
expect_weights (s ∷ ss) = do fail_if (is_zero_weight s.weight) validation_error; expect_weights ss

unfoldable pub validate_strategy_weights : SignerPoolConfig → Result (Unit {0})
unfolding expect_weights
validate_strategy_weights c =
    let checked = expect_weights c.signers in if is_weighted c.strategy then checked else ok tt

unfoldable pub validate_each : List SignerConfig → Result (Unit {0})
unfolding validate_individual_signer_config
validate_each [] = ok tt
validate_each (s ∷ ss) = do validate_individual_signer_config s; validate_each ss

unfoldable pub validate_signer_config : SignerPoolConfig → Result (Unit {0})
unfolding validate_signer_not_empty validate_each validate_signer_names validate_strategy_weights
validate_signer_config c = do
  validate_signer_not_empty c
  validate_each c.signers
  validate_signer_names c
  validate_strategy_weights c

-- `load_config`, where `read_config` reads and parses the file at a path.
unfoldable pub load_config : (String → Result SignerPoolConfig) → String → Result SignerPoolConfig
unfolding validate_signer_config
load_config read_config path = do c ← read_config path; validate_signer_config c; ok c

pub data SignerError : Type 0 where
  no_signers invalid_signer duplicate_name zero_weight : SignerError

pub data SignerWarning : Type 0 where
  no_weight weight_ignored : (name : String) → SignerWarning

-- `try_result`, which keeps validation errors only.
unfoldable pub try_result : SignerError → Result (Unit {0}) → List SignerError
try_result e (err validation_error) = e ∷ []
try_result e _ = []

unfoldable pub try_each : List SignerConfig → List SignerError
unfolding try_result validate_individual_signer_config
try_each [] = []
try_each (s ∷ ss) = try_result invalid_signer (validate_individual_signer_config s) ++ try_each ss

-- The errors of `validate_with_result`.
unfoldable pub signer_errors : SignerPoolConfig → List SignerError
unfolding try_result try_each validate_signer_not_empty validate_signer_names
    validate_strategy_weights
signer_errors c =
    try_result no_signers (validate_signer_not_empty c)
    ++ (try_each c.signers
        ++ (try_result duplicate_name (validate_signer_names c)
            ++ try_result zero_weight (validate_strategy_weights c)))

abbrev is_some : Option ℕ → Bool
is_some none = false
is_some (some _) = true

-- The loops of `validate_strategy_warnings`.
unfoldable pub warn_weights : Bool → List SignerConfig → List SignerWarning
warn_weights weighted [] = []
warn_weights weighted (s ∷ ss) =
    let rest = warn_weights weighted ss in
    if weighted && not (is_some s.weight)
    then no_weight s.name ∷ rest
    else if not weighted && is_some s.weight
    then weight_ignored s.name ∷ rest
    else rest

unfoldable pub validate_strategy_warnings : SignerPoolConfig → List SignerWarning
unfolding warn_weights
validate_strategy_warnings c = warn_weights (is_weighted c.strategy) c.signers

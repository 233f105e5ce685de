-- ===== src/Tests/Setup.antt =====
-- A configuration that the validator accepts, one with a program that is no address, and signers.
use solus_protocol.Base.{
  ℕ, String, true, false, Option, none, some, List, [], ◌∷◌, ◌≡◌, ◌↔◌, ◌+◌, refl, sym, ap, ◌∙◌,
  ◌==◌, eqb, string_eq, contains, All, if◌then◌else◌,
}
use solus_protocol.Error.{Result, ok, err, internal_server_error, account_not_found}
use solus_protocol.Instruction.{Pubkey}
use solus_protocol.Config.{
  margin, allowlist, mock, ValidationConfig, Token2022Config, KoraConfig, Config,
  get_payment_address, is_mint_extension_blocked, is_account_extension_blocked,
}
use solus_protocol.External.{Account}
use solus_protocol.Pool.{weighted}
use solus_protocol.Validator.Checks.{TransactionValidator, new_validator}
use solus_protocol.Setup.Extensions.{
  ExtensionType, confidential_transfer_mint, confidential_mint_burn, transfer_fee_config,
  mint_close_authority, interest_bearing_config, non_transferable, permanent_delegate,
  transfer_hook, pausable, confidential_transfer_account, non_transferable_account,
  transfer_hook_account, pausable_account, memo_transfer, cpi_guard, immutable_owner,
  default_account_state, parse_mint_extension_string, parse_account_extension_string, initialize,
}
use solus_protocol.Setup.Extensions.Blocks.{initialize-blocks}
use solus_protocol.Setup.Signers.{
  no_weight, SignerConfig, SignerPoolConfig, memory, privy, validate_signer_config, signer_errors,
}
use solus_protocol.Setup.Signers.WellFormed.{IsWellFormed}
use solus_protocol.Setup.Signers.Checked.{signers_checked_iff}
use solus_protocol.Setup.Policy.{system, allow_transfer}
use solus_protocol.Setup.Report.{signer_warning, ConfigWarning, mock_prices, policy_allows}
use solus_protocol.Setup.Checks.{Surroundings}
use solus_protocol.Setup.Validator.{valid, validate_with_result_and_signers}
use solus_protocol.Setup.Validator.Conditions.{IsKey, IsDeployable}
use solus_protocol.Setup.Validator.Accepted.{validate_with_result_and_signers_iff}
use solus_protocol.Setup.Validator.Starts.{accepted-starts}
use solus_protocol.Tests.World.{world, config, token_account, kora}
use solus_protocol.Tests.AccountType.{layouts}

abbrev key_of : String → Option Pubkey
key_of s =
    if s == "system"
    then some 100
    else if s == "token"
    then some 101
    else if s == "usd"
    then some 10
    else if s == "kora"
    then some kora
    else none

abbrev name_of : Pubkey → String
name_of k = if eqb k 100 then "system" else if eqb k 101 then "token" else "other"

-- The two programs are executable, and the associated account of the payment address exists.
abbrev account_of : Pubkey → Result Account
account_of k =
    if eqb k 100
    then ok (record { owner = 1; payload = []; executable = true })
    else if eqb k 101
    then ok (record { owner = 1; payload = []; executable = true })
    else if eqb k 10
    then ok (record { owner = 101; payload = 9 ∷ []; executable = false })
    else if eqb k (kora + 10 + 101)
    then ok (token_account 10 kora)
    else err account_not_found

abbrev number : ExtensionType → ℕ
number confidential_transfer_mint = 0
number confidential_mint_burn = 1
number transfer_fee_config = 2
number mint_close_authority = 3
number interest_bearing_config = 4
number non_transferable = 5
number permanent_delegate = 6
number transfer_hook = 7
number pausable = 8
number confidential_transfer_account = 9
number non_transferable_account = 10
number transfer_hook_account = 11
number pausable_account = 12
number memo_transfer = 13
number cpi_guard = 14
number immutable_owner = 15
number default_account_state = 16

abbrev of_number : ℕ → ExtensionType
of_number n =
    if eqb n 0
    then confidential_transfer_mint
    else if eqb n 1
    then confidential_mint_burn
    else if eqb n 2
    then transfer_fee_config
    else if eqb n 3
    then mint_close_authority
    else if eqb n 4
    then interest_bearing_config
    else if eqb n 5
    then non_transferable
    else if eqb n 6
    then permanent_delegate
    else if eqb n 7
    then transfer_hook
    else if eqb n 8
    then pausable
    else if eqb n 9
    then confidential_transfer_account
    else if eqb n 10
    then non_transferable_account
    else if eqb n 11
    then transfer_hook_account
    else if eqb n 12
    then pausable_account
    else if eqb n 13
    then memo_transfer
    else if eqb n 14
    then cpi_guard
    else if eqb n 15
    then immutable_owner
    else default_account_state

of_number-number : (e : ExtensionType) → of_number (number e) ≡ e
of_number-number confidential_transfer_mint = refl
of_number-number confidential_mint_burn = refl
of_number-number transfer_fee_config = refl
of_number-number mint_close_authority = refl
of_number-number interest_bearing_config = refl
of_number-number non_transferable = refl
of_number-number permanent_delegate = refl
of_number-number transfer_hook = refl
of_number-number pausable = refl
of_number-number confidential_transfer_account = refl
of_number-number non_transferable_account = refl
of_number-number transfer_hook_account = refl
of_number-number pausable_account = refl
of_number-number memo_transfer = refl
of_number-number cpi_guard = refl
of_number-number immutable_owner = refl
of_number-number default_account_state = refl

number-injective : (d e : ExtensionType) → number d ≡ number e → d ≡ e
number-injective d e h = sym (of_number-number d) ∙ ap of_number h ∙ of_number-number e

abbrev signer : SignerConfig
signer = record { name = "a"; weight = some 3; config = memory "KEY_A" }

abbrev two_signers : SignerPoolConfig
two_signers = record {
  strategy = weighted;
  signers =
      signer ∷ record { name = "b"; weight = none; config = privy "ID" "SECRET" "WALLET" } ∷ [];
}

abbrev surroundings : Surroundings ℕ ℕ
surroundings = record {
  chain = record world {
    from_str = key_of;
    to_string = name_of;
    get_account = λ k refresh. account_of k;
  };
  layouts = layouts;
  rpc_account = account_of;
  unpack_extensions = λ bytes. none;
  number = number;
  jupiter_api_key = false;
  is_negative = λ n. false;
  exceeds_one = λ n. false;
  test_redis_connection = λ url. true;
  read_config = λ path. ok two_signers;
}

abbrev kora_config : KoraConfig
kora_config = record {
  rate_limit = 100;
  enabled_methods = record {
    liveness = true;
    estimate_transaction_fee = true;
    get_supported_tokens = true;
    get_payer_signer = true;
    sign_transaction = true;
    sign_and_send_transaction = true;
    transfer_transaction = true;
    get_blockhash = true;
    get_config = true;
  };
  auth = record { api_key = some "secret"; hmac_secret = none };
  payment_address = some "kora";
  usage_limit = record {
    enabled = true;
    cache_url = some "redis://localhost";
    max_transactions = 3;
    fallback_if_unavailable = true;
  };
}

abbrev extensions : Token2022Config
extensions = record {
  blocked_mint_extensions = "permanent_delegate" ∷ [];
  blocked_account_extensions = "cpi_guard" ∷ [];
  parsed_blocked_mint_extensions = some (6 ∷ []);
  parsed_blocked_account_extensions = some (14 ∷ []);
}

abbrev deployed : List String → Config ℕ
deployed programs = record {
  validation = record config {
    allowed_programs = programs;
    allowed_tokens = "usd" ∷ [];
    disallowed_accounts = [];
    price_source = mock;
    token_2022 = extensions;
  };
  kora = kora_config;
}

-- The second program is spelt wrong.
abbrev misspelt : Config ℕ
misspelt = deployed ("system" ∷ "token" ∷ "tokne" ∷ [])

validate_with_result_and_signers_iff_example :
    ((ws : List ConfigWarning) × (validate_with_result_and_signers surroundings
          (ok (deployed ("system" ∷ "token" ∷ [])))
          false
          (some "signers.toml")
        ≡ valid ws))
    ↔ IsDeployable surroundings (deployed ("system" ∷ "token" ∷ [])) false (some "signers.toml")
validate_with_result_and_signers_iff_example =
    validate_with_result_and_signers_iff surroundings (deployed ("system" ∷ "token" ∷ [])) false
      (some "signers.toml")

misspelt-valid :
    validate_with_result_and_signers surroundings (ok misspelt) false (some "signers.toml")
    ≡ valid
        (mock_prices ∷ policy_allows (system, allow_transfer) ∷ signer_warning (no_weight "b") ∷ [])
unfolding validate_with_result_and_signers is_mint_extension_blocked signer_errors
    solus_protocol.AccountType.validate_account solus_protocol.AccountType.validate_account_type
    solus_protocol.Config.as_slice solus_protocol.Config.enabled_methods_iter
    solus_protocol.Config.has_tokens solus_protocol.Setup.Atas.find_missing_atas
    solus_protocol.Setup.Cache.validate_usage_limit
    solus_protocol.Setup.Extensions.validate_token2022_extensions
    solus_protocol.Setup.Policy.validate_fee_payer_policy solus_protocol.Setup.Signers.load_config
    solus_protocol.Setup.Signers.validate_strategy_warnings
misspelt-valid = refl

misspelt-refused : new_validator key_of misspelt.validation kora ≡ err internal_server_error
unfolding new_validator
misspelt-refused = refl

initialized : initialize number extensions ≡ (ok tt, extensions)
unfolding initialize
initialized = refl

initialize-blocks_example :
    (parse_mint_extension_string "permanent_delegate" ≡ some permanent_delegate
      → is_mint_extension_blocked extensions (number permanent_delegate)
        ≡ contains extensions.blocked_mint_extensions "permanent_delegate")
    × (parse_account_extension_string "permanent_delegate" ≡ some permanent_delegate
        → is_account_extension_blocked extensions (number permanent_delegate)
          ≡ contains extensions.blocked_account_extensions "permanent_delegate")
initialize-blocks_example =
    initialize-blocks number number-injective extensions extensions initialized "permanent_delegate"
      permanent_delegate

signers_checked_iff_example :
    ((validate_signer_config two_signers ≡ ok tt) ↔ IsWellFormed two_signers)
    × ((signer_errors two_signers ≡ []) ↔ IsWellFormed two_signers)
signers_checked_iff_example = signers_checked_iff two_signers

accepted-starts_example :
    (((t : TransactionValidator) × (new_validator key_of misspelt.validation kora ≡ ok t))
      ↔ All (IsKey surroundings) misspelt.validation.allowed_programs)
    × ((k : Pubkey) × (get_payment_address key_of (some "kora") kora ≡ ok k))
    × ((t : Token2022Config) × (initialize number extensions ≡ (ok tt, t)))
accepted-starts_example =
    accepted-starts surroundings misspelt false (some "signers.toml")
      (mock_prices ∷ policy_allows (system, allow_transfer) ∷ signer_warning (no_weight "b") ∷ [])
      kora misspelt-valid

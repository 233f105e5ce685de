-- ===== src/Config.antt =====
-- The configuration that the core reads (kora/crates/lib/src/config.rs, kora/crates/lib/src/fee/price.rs).
-- Loading it from TOML is not modelled; a function that calls `get_config()` takes it as an argument.
use solus_protocol.Base.{
  ℕ, String, Bool, true, false, not, Option, none, some, List, [], ◌∷◌, ◌==◌, any, contains,
  string_eq, nat_eq, is_empty,
}
use solus_protocol.Error.{Result, ok, err, internal_server_error}
use solus_protocol.Instruction.{Pubkey}

pub record NonceInstructionPolicy : Type 0 where
  pub allow_initialize : Bool
  pub allow_advance : Bool
  pub allow_withdraw : Bool
  pub allow_authorize : Bool

pub record SystemInstructionPolicy : Type 0 where
  pub allow_transfer : Bool
  pub allow_assign : Bool
  pub allow_create_account : Bool
  pub allow_allocate : Bool
  pub nonce : NonceInstructionPolicy

-- `SplTokenInstructionPolicy` and `Token2022InstructionPolicy`, which have the same fields.
pub record TokenInstructionPolicy : Type 0 where
  pub allow_transfer : Bool
  pub allow_burn : Bool
  pub allow_close_account : Bool
  pub allow_approve : Bool
  pub allow_revoke : Bool
  pub allow_set_authority : Bool
  pub allow_mint_to : Bool
  pub allow_initialize_mint : Bool
  pub allow_initialize_account : Bool
  pub allow_initialize_multisig : Bool
  pub allow_freeze_account : Bool
  pub allow_thaw_account : Bool

pub record FeePayerPolicy : Type 0 where
  pub system : SystemInstructionPolicy
  pub spl_token : TokenInstructionPolicy
  pub token_2022 : TokenInstructionPolicy

-- `PriceModel`, over the type of the floating-point margin. The fields of `fixed`: amount, token, strict.
pub data PriceModel (F : Type 0) : Type 0 where
  margin : F → PriceModel F
  fixed : ℕ → String → Bool → PriceModel F
  free : PriceModel F

pub data SplTokenConfig : Type 0 where
  all_tokens : SplTokenConfig
  allowlist : List String → SplTokenConfig

unfoldable pub has_token : SplTokenConfig → String → Bool
has_token all_tokens token = true
has_token (allowlist tokens) token = any (λ s. s == token) tokens

-- `SplTokenConfig::has_tokens`
unfoldable pub has_tokens : SplTokenConfig → Bool
has_tokens all_tokens = true
has_tokens (allowlist tokens) = not (is_empty tokens)

-- `SplTokenConfig::as_slice`, which iterating over one goes through too.
unfoldable pub as_slice : SplTokenConfig → List String
as_slice all_tokens = []
as_slice (allowlist tokens) = tokens

-- Extension types are numbers, as in the source's key `extension_type as u16`. The parsed lists
-- are `None` until `initialize` has run.
pub record Token2022Config : Type 0 where
  pub blocked_mint_extensions : List String
  pub blocked_account_extensions : List String
  pub parsed_blocked_mint_extensions : Option (List ℕ)
  pub parsed_blocked_account_extensions : Option (List ℕ)

abbrev pub unwrap_or_empty : Option (List ℕ) → List ℕ
unwrap_or_empty none = []
unwrap_or_empty (some xs) = xs

unfoldable pub is_mint_extension_blocked : Token2022Config → ℕ → Bool
is_mint_extension_blocked c ext = contains (unwrap_or_empty c.parsed_blocked_mint_extensions) ext

unfoldable pub is_account_extension_blocked : Token2022Config → ℕ → Bool
is_account_extension_blocked c ext =
    contains (unwrap_or_empty c.parsed_blocked_account_extensions) ext

-- kora/crates/lib/src/oracle/oracle.rs
pub data PriceSource : Type 0 where
  jupiter mock : PriceSource

pub record ValidationConfig (F : Type 0) : Type 0 where
  pub max_allowed_lamports : ℕ
  pub max_signatures : ℕ
  pub allowed_programs : List String
  pub allowed_tokens : List String
  pub allowed_spl_paid_tokens : SplTokenConfig
  pub disallowed_accounts : List String
  pub price_source : PriceSource
  pub fee_payer_policy : FeePayerPolicy
  pub price : PriceModel F
  pub token_2022 : Token2022Config
  pub allow_durable_transactions : Bool

module _ {F : Type 0} where
  unfoldable pub is_payment_required : ValidationConfig F → Bool
  is_payment_required c = elim c.price [ free ↦ false | _ ↦ true ]

  unfoldable pub supports_token : ValidationConfig F → String → Bool
  unfolding has_token
  supports_token c token = has_token c.allowed_spl_paid_tokens token

pub record EnabledMethods : Type 0 where
  pub liveness : Bool
  pub estimate_transaction_fee : Bool
  pub get_supported_tokens : Bool
  pub get_payer_signer : Bool
  pub sign_transaction : Bool
  pub sign_and_send_transaction : Bool
  pub transfer_transaction : Bool
  pub get_blockhash : Bool
  pub get_config : Bool

-- `EnabledMethods::iter`
unfoldable pub enabled_methods_iter : EnabledMethods → List Bool
enabled_methods_iter m =
    m.liveness ∷ m.estimate_transaction_fee ∷ m.get_supported_tokens ∷ m.get_payer_signer
    ∷ m.sign_transaction ∷ m.sign_and_send_transaction ∷ m.transfer_transaction ∷ m.get_blockhash
    ∷ m.get_config ∷ []

pub record UsageLimitConfig : Type 0 where
  pub enabled : Bool
  pub cache_url : Option String
  pub max_transactions : ℕ
  pub fallback_if_unavailable : Bool

pub record AuthConfig : Type 0 where
  pub api_key : Option String
  pub hmac_secret : Option String

pub record KoraConfig : Type 0 where
  pub rate_limit : ℕ
  pub enabled_methods : EnabledMethods
  pub auth : AuthConfig
  pub payment_address : Option String
  pub usage_limit : UsageLimitConfig

pub record Config (F : Type 0) : Type 0 where
  pub validation : ValidationConfig F
  pub kora : KoraConfig

-- `KoraConfig::get_payment_address`, from the configured address, the parser of keys and the signer.
unfoldable pub get_payment_address :
    (String → Option Pubkey) → Option String → Pubkey → Result Pubkey
get_payment_address from_str none signer_pubkey = ok signer_pubkey
get_payment_address from_str (some address) signer_pubkey = elim (from_str address) [
  | none ↦ err internal_server_error
  | some k ↦ ok k
]

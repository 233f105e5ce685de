-- ===== src/Setup/Extensions.antt =====
-- The names of the extensions, `define_extensions!` of kora/crates/lib/src/token/spl_token_2022_util.rs,
-- and `Token2022Config::initialize` of kora/crates/lib/src/config.rs.

pub mod Blocks
use solus_protocol.Base.{
  ℕ, String, Bool, true, false, Option, none, some, List, [], ◌∷◌, ◌==◌, string_eq, if◌then◌else◌,
}
use solus_protocol.Error.{Result, ok, err, config_error, ok_or, traverse, ◌>>=◌, ◌>>◌, fail_if}
use solus_protocol.Config.{Token2022Config}

-- The types of `spl_token_2022_interface` that the code names.
pub data ExtensionType : Type 0 where
  confidential_transfer_mint confidential_mint_burn transfer_fee_config : ExtensionType
  mint_close_authority interest_bearing_config non_transferable : ExtensionType
  permanent_delegate transfer_hook pausable : ExtensionType
  confidential_transfer_account non_transferable_account transfer_hook_account : ExtensionType
  pausable_account memo_transfer cpi_guard immutable_owner : ExtensionType
  default_account_state : ExtensionType

abbrev pub Names : Type 0
Names = List (String × ExtensionType)

-- The arguments of the two uses of the macro.
unfoldable pub mint_extensions : Names
mint_extensions =
    ("confidential_transfer_mint", confidential_transfer_mint)
    ∷ ("confidential_mint_burn", confidential_mint_burn)
    ∷ ("transfer_fee_config", transfer_fee_config)
    ∷ ("mint_close_authority", mint_close_authority)
    ∷ ("interest_bearing_config", interest_bearing_config)
    ∷ ("non_transferable", non_transferable)
    ∷ ("permanent_delegate", permanent_delegate)
    ∷ ("transfer_hook", transfer_hook)
    ∷ ("pausable", pausable)
    ∷ []

unfoldable pub account_extensions : Names
account_extensions =
    ("confidential_transfer_account", confidential_transfer_account)
    ∷ ("non_transferable_account", non_transferable_account)
    ∷ ("transfer_hook_account", transfer_hook_account)
    ∷ ("pausable_account", pausable_account)
    ∷ ("memo_transfer", memo_transfer)
    ∷ ("cpi_guard", cpi_guard)
    ∷ ("immutable_owner", immutable_owner)
    ∷ ("default_account_state", default_account_state)
    ∷ []

-- `from_string`: the arms of its match are the pairs of the list, in order.
unfoldable pub from_string : Names → String → Option ExtensionType
from_string [] s = none
from_string ((name, e) ∷ names) s =
    let rest = from_string names s in if s == name then some e else rest

-- `MintExtension::to_string_name`
unfoldable pub mint_name : ExtensionType → Option String
mint_name confidential_transfer_mint = some "confidential_transfer_mint"
mint_name confidential_mint_burn = some "confidential_mint_burn"
mint_name transfer_fee_config = some "transfer_fee_config"
mint_name mint_close_authority = some "mint_close_authority"
mint_name interest_bearing_config = some "interest_bearing_config"
mint_name non_transferable = some "non_transferable"
mint_name permanent_delegate = some "permanent_delegate"
mint_name transfer_hook = some "transfer_hook"
mint_name pausable = some "pausable"
mint_name _ = none

-- `AccountExtension::to_string_name`
unfoldable pub account_name : ExtensionType → Option String
account_name confidential_transfer_account = some "confidential_transfer_account"
account_name non_transferable_account = some "non_transferable_account"
account_name transfer_hook_account = some "transfer_hook_account"
account_name pausable_account = some "pausable_account"
account_name memo_transfer = some "memo_transfer"
account_name cpi_guard = some "cpi_guard"
account_name immutable_owner = some "immutable_owner"
account_name default_account_state = some "default_account_state"
account_name _ = none

unfoldable pub parse_mint_extension_string : String → Option ExtensionType
unfolding from_string mint_extensions
parse_mint_extension_string s = from_string mint_extensions s

unfoldable pub parse_account_extension_string : String → Option ExtensionType
unfolding from_string account_extensions
parse_account_extension_string s = from_string account_extensions s

-- `validate_token2022_extensions` of the configuration validator.
abbrev pub expect_names : (String → Option ExtensionType) → List String → Result (Unit {0})
expect_names parse [] = ok tt
expect_names parse (name ∷ names) =
    ok_or (parse name) config_error >>= λ _. expect_names parse names

unfoldable pub validate_token2022_extensions : Token2022Config → Result (Unit {0})
unfolding parse_mint_extension_string parse_account_extension_string
validate_token2022_extensions c = do
  expect_names parse_mint_extension_string c.blocked_mint_extensions
  expect_names parse_account_extension_string c.blocked_account_extensions

-- `number` is `as u16` on the extension types.
module _ (number : ExtensionType → ℕ) where
  abbrev pub numbers : (String → Option ExtensionType) → List String → Result (List ℕ)
  numbers parse names =
      traverse (λ name. ok_or (parse name) config_error >>= λ e. ok (number e)) names

  -- `initialize`, which assigns the first list before it reads the names of the second.
  unfoldable pub initialize : Token2022Config → Result (Unit {0}) × Token2022Config
  unfolding parse_mint_extension_string parse_account_extension_string
  initialize c = elim (numbers parse_mint_extension_string c.blocked_mint_extensions) [
    | err e ↦ (err e, c)
    | ok mints ↦
        let c' = record c { parsed_blocked_mint_extensions = some mints } in
        elim (numbers parse_account_extension_string c.blocked_account_extensions) [
          | err e ↦ (err e, c')
          | ok accounts ↦ (ok tt, record c' { parsed_blocked_account_extensions = some accounts })
        ]
  ]

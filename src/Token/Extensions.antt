-- ===== src/Token/Extensions.antt =====
-- The checks on the extensions of Token-2022 that a payment goes through
-- (kora/crates/lib/src/token/token.rs). Each account is fetched afresh.
use solus_protocol.Base.{true, any}
use solus_protocol.Error.{
  Result, internal_server_error, validation_error, ok_or, fail_if, ◌>>=◌, ◌>>◌,
}
use solus_protocol.Instruction.{Pubkey}
use solus_protocol.Config.{Token2022Config, is_mint_extension_blocked, is_account_extension_blocked}
use solus_protocol.External.{External}

module _ {F D : Type 0} (x : External F D) (config : Token2022Config) where
  unfoldable pub validate_mint_extensions : Pubkey → Result (Unit {0})
  validate_mint_extensions mint = do
    account ← x.get_account mint true
    m ← ok_or (x.unpack_mint true account.payload) internal_server_error
    fail_if (any (is_mint_extension_blocked config) m.extension_types) validation_error

  unfoldable pub validate_account_extensions : Pubkey → Result (Unit {0})
  validate_account_extensions address = do
    account ← x.get_account address true
    t ← ok_or (x.unpack_token_account true account.payload) internal_server_error
    fail_if (any (is_account_extension_blocked config) t.extension_types) validation_error

  -- `validate_token2022_extensions_for_payment`
  unfoldable pub validate_extensions_for_payment : Pubkey → Pubkey → Pubkey → Result (Unit {0})
  unfolding validate_mint_extensions validate_account_extensions
  validate_extensions_for_payment source_address destination_address mint = do
    validate_mint_extensions mint
    validate_account_extensions source_address
    validate_account_extensions destination_address

  -- `validate_token2022_partial_for_ata_creation`
  unfoldable pub validate_partial_for_ata_creation : Pubkey → Pubkey → Result (Unit {0})
  unfolding validate_mint_extensions validate_account_extensions
  validate_partial_for_ata_creation source_address mint = do
    validate_mint_extensions mint
    validate_account_extensions source_address

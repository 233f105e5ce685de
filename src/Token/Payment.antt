-- ===== src/Token/Payment.antt =====
-- `TokenUtil::find_ata_creation_for_destination` and `TokenUtil::verify_token_payment` of
-- kora/crates/lib/src/token/token.rs.
use solus_protocol.Base.{
  ℕ, Bool, false, ◌&&◌, not, Option, none, some, List, [], ◌∷◌, ◌==◌, nat_eq, leb, length,
  checked_add, if◌then◌else◌,
}
use solus_protocol.Error.{
  Result, ok, err, invalid_transaction, account_not_found, rpc_error, validation_error, ok_or,
  ◌>>=◌, ◌>>◌,
}
use solus_protocol.Instruction.{Pubkey, Instruction}
use solus_protocol.Config.{ValidationConfig, supports_token}
use solus_protocol.External.{External, TokenAccount}
use solus_protocol.Parse.{SplTransfer, account_at}
use solus_protocol.Token.Extensions.{
  validate_extensions_for_payment, validate_partial_for_ata_creation,
}
use solus_protocol.Token.Outflow.{is_account_not_found}
use solus_protocol.Token.Value.{calculate_token_value_in_lamports}

-- The wallet and the mint of the first instruction that creates the destination.
unfoldable pub find_ata_creation_for_destination :
    Pubkey → List Instruction → Pubkey → Result (Option (Pubkey × Pubkey))
find_ata_creation_for_destination ata_program [] destination = ok none
find_ata_creation_for_destination ata_program (ix ∷ ixs) destination =
    let rest = find_ata_creation_for_destination ata_program ixs destination in
    if (ix.program_id == ata_program) && leb 6 (length ix.accounts)
    then (account_at ix 1 >>= λ ata_address.
        if ata_address == destination
        then (account_at ix 2 >>= λ wallet_owner.
            account_at ix 3 >>= λ mint. ok (some (wallet_owner, mint)))
        else rest)
    else rest

abbrev pub unwrap_or : Option Pubkey → Pubkey → Pubkey
unwrap_or none d = d
unwrap_or (some k) d = k

module _ {F D : Type 0} (x : External F D) (config : ValidationConfig F) where
  -- The owner and the mint of a destination that exists.
  unfoldable pub existing_destination : SplTransfer → TokenAccount → Result (Pubkey × Pubkey)
  existing_destination t s =
      let target : Pubkey × Pubkey = (s.owner, s.mint) in
      if t.is_2022
      then (validate_extensions_for_payment x config.token_2022 t.source_address
            t.destination_address (unwrap_or t.mint s.mint)
          >> ok target)
      else ok target

  -- The owner and the mint of a destination that the transaction creates.
  unfoldable pub created_destination :
      SplTransfer → Option (Pubkey × Pubkey) → Result (Pubkey × Pubkey)
  created_destination t none = err account_not_found
  created_destination t (some (wallet_owner, mint)) =
      if t.is_2022
      then (validate_partial_for_ata_creation x config.token_2022 t.source_address mint
          >> ok (wallet_owner, mint))
      else ok (wallet_owner, mint)

  unfoldable pub destination_of : List Instruction → SplTransfer → Result (Pubkey × Pubkey)
  unfolding existing_destination created_destination
  destination_of ixs t = elim (x.get_account t.destination_address false) [
    | ok a ↦ ok_or (x.unpack_token_account t.is_2022 a.payload) invalid_transaction >>= λ s.
        existing_destination t s
    | err e ↦
        if is_account_not_found e
        then (find_ata_creation_for_destination x.programs.associated_token ixs
              t.destination_address
            >>= λ found. created_destination t found)
        else err rpc_error
  ]

  -- What one transfer adds to the payment: nothing if it goes elsewhere or its mint is not accepted.
  unfoldable pub payment_value : List Instruction → Pubkey → SplTransfer → Result (Option ℕ)
  unfolding destination_of
  payment_value ixs expected_owner t = do
    (destination_owner, token_mint) ← destination_of ixs t
    let value = (calculate_token_value_in_lamports x t.amount token_mint >>= λ v. ok (some v))
    if not (destination_owner == expected_owner)
        then ok none
        else if not (supports_token config (x.to_string token_mint))
        then ok none
        else value

  unfoldable pub sum_payments : List Instruction → Pubkey → List SplTransfer → ℕ → Result ℕ
  unfolding payment_value
  sum_payments ixs expected_owner [] total = ok total
  sum_payments ixs expected_owner (t ∷ ts) total = do
    value ← payment_value ixs expected_owner t
    total' ← elim value [ none ↦ ok total | some v ↦ ok_or (checked_add total v) validation_error ]
    sum_payments ixs expected_owner ts total'

  unfoldable pub verify_token_payment :
      List Instruction → List SplTransfer → ℕ → Pubkey → Result Bool
  unfolding sum_payments
  verify_token_payment ixs transfers required_lamports expected_owner = do
    total ← sum_payments ixs expected_owner transfers 0
    ok (leb required_lamports total)

-- ===== src/Token/Accounts.antt =====
-- Fetching and unpacking token accounts and mints (kora/crates/lib/src/token/token.rs).
use solus_protocol.Base.{ℕ, Bool, true, false, ◌==◌, nat_eq, if◌then◌else◌}
use solus_protocol.Error.{Result, ok, err, token_operation_error, ok_or, ◌>>=◌}
use solus_protocol.Instruction.{Pubkey}
use solus_protocol.External.{External, Mint}

module _ {F D : Type 0} (x : External F D) where
  -- `TokenType::get_token_program_from_owner`: whether the program is Token-2022.
  unfoldable pub get_token_program_from_owner : Pubkey → Result Bool
  get_token_program_from_owner owner =
      if owner == x.programs.spl_token
      then ok false
      else if owner == x.programs.spl_token_2022
      then ok true
      else err token_operation_error

  -- `TokenUtil::get_mint`: the mint, and whether it is one of Token-2022.
  unfoldable pub get_token_mint : Pubkey → Result (Bool × Mint)
  unfolding get_token_program_from_owner
  get_token_mint mint = do
    account ← x.get_account mint false
    is_2022 ← get_token_program_from_owner account.owner
    m ← ok_or (x.unpack_mint is_2022 account.payload) token_operation_error
    ok (is_2022, m)

  unfoldable pub get_mint : Pubkey → Result Mint
  unfolding get_token_mint
  get_mint mint = do (_, m) ← get_token_mint mint; ok m

  unfoldable pub get_mint_decimals : Pubkey → Result ℕ
  unfolding get_mint
  get_mint_decimals mint = do m ← get_mint mint; ok m.decimals

-- ===== src/Parse/Twins.antt =====
-- The source parses the instructions of the two token programs by two separate matches. They agree.
use solus_protocol.Base.{◌≡◌, true, Option, none, some, arith}
use solus_protocol.Error.{ok, ◌>>=◌}
use solus_protocol.Instruction.{Instruction, TokenInstruction}
use solus_protocol.Parse.Types.{
  ParsedSplData, burn_data, close_account_data, approve_data, revoke_data, set_authority_data,
  mint_to_data, initialize_mint_data, initialize_account_data, initialize_multisig_data,
  freeze_account_data, thaw_account_data,
}
use solus_protocol.Parse.Token.{SplEntry, spl_token_entry, token_2022_entry}

-- The same data, marked as of Token-2022.
abbrev pub as_2022 : ParsedSplData → ParsedSplData
as_2022 (ParsedSplData.transfer_data t) = ParsedSplData.transfer_data (record t { is_2022 = true })
as_2022 (burn_data k b) = burn_data k true
as_2022 (close_account_data k b) = close_account_data k true
as_2022 (approve_data k b) = approve_data k true
as_2022 (revoke_data k b) = revoke_data k true
as_2022 (set_authority_data k b) = set_authority_data k true
as_2022 (mint_to_data k b) = mint_to_data k true
as_2022 (initialize_mint_data k b) = initialize_mint_data k true
as_2022 (initialize_account_data k b) = initialize_account_data k true
as_2022 (freeze_account_data k b) = freeze_account_data k true
as_2022 (thaw_account_data k b) = thaw_account_data k true
as_2022 (initialize_multisig_data ks b) = initialize_multisig_data ks true

abbrev pub mark_2022 : Option SplEntry → Option SplEntry
mark_2022 none = none
mark_2022 (some (kind, value)) = some (kind, as_2022 value)

-- The two matches over the instructions of SPL Token and Token-2022 demand the same accounts, read
-- the same positions, file under the same kinds and fail alike; the results differ in `is_2022`
-- alone.
token_2022_entry-eq-spl_token_entry :
    (ix : Instruction) (i : TokenInstruction)
    → token_2022_entry ix i ≡ (spl_token_entry ix i >>= λ e. ok (mark_2022 e))
unfolding token_2022_entry spl_token_entry
token_2022_entry-eq-spl_token_entry ix (TokenInstruction.burn n) = ground arith
token_2022_entry-eq-spl_token_entry ix _ = ground arith

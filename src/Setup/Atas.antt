-- ===== src/Setup/Atas.antt =====
-- `find_missing_atas` of kora/crates/lib/src/admin/token_util.rs.
use solus_protocol.Base.{String, Bool, false, Option, none, some, List, [], ◌∷◌}
use solus_protocol.Error.{Result, ok, err, rpc_error, map_err, ◌>>=◌}
use solus_protocol.Instruction.{Pubkey}
use solus_protocol.Config.{SplTokenConfig, as_slice}
use solus_protocol.External.{External}
use solus_protocol.Token.Accounts.{get_token_program_from_owner}

pub record AtaToCreate : Type 0 where
  pub mint : Pubkey
  pub ata : Pubkey
  pub is_2022 : Bool

-- The mints that parse: the others are skipped.
unfoldable pub parsed_mints : (String → Option Pubkey) → List String → List Pubkey
parsed_mints from_str [] = []
parsed_mints from_str (token ∷ tokens) =
    let rest = parsed_mints from_str tokens in
    elim (from_str token) [ none ↦ rest | some mint ↦ mint ∷ rest ]

module _ {F D : Type 0} (x : External F D) (payment_address : Pubkey) where
  -- One mint of the loop; `get_associated_token_address` derives for the SPL Token program.
  unfoldable pub missing_ata : Pubkey → Result (Option AtaToCreate)
  unfolding get_token_program_from_owner
  missing_ata mint =
      let ata = x.associated_token_address payment_address mint x.programs.spl_token in
      elim (x.get_account ata false) [
        | ok _ ↦ ok none
        | err _ ↦ map_err (x.get_account mint false) rpc_error >>= λ mint_account.
            get_token_program_from_owner x mint_account.owner >>= λ is_2022.
            ok (some (record { mint = mint; ata = ata; is_2022 = is_2022 }))
      ]

  unfoldable pub missing_atas_of : List Pubkey → Result (List AtaToCreate)
  unfolding missing_ata
  missing_atas_of [] = ok []
  missing_atas_of (mint ∷ mints) = missing_ata mint >>= λ found.
      missing_atas_of mints >>= λ rest. ok (elim found [ none ↦ rest | some a ↦ a ∷ rest ])

  unfoldable pub find_missing_atas : SplTokenConfig → Result (List AtaToCreate)
  unfolding parsed_mints missing_atas_of as_slice
  find_missing_atas allowed_spl_paid_tokens =
      missing_atas_of (parsed_mints x.from_str (as_slice allowed_spl_paid_tokens))

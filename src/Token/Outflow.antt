-- ===== src/Token/Outflow.antt =====
-- `TokenUtil::calculate_spl_transfers_value_in_lamports` of kora/crates/lib/src/token/token.rs: the
-- lamports that token transfers take from the fee payer. The transfers are grouped by mint in a hash
-- map; `iteration` is the order in which that map is walked, which Rust leaves open.
use solus_protocol.Base.{
  ℕ, Bool, true, false, ◌||◌, Option, none, some, List, [], ◌∷◌, map, ◌==◌, nat_eq, is_empty,
  checked_add, saturating_sub, if◌then◌else◌,
}
use solus_protocol.Base.Table.{Table, push}
use solus_protocol.Error.{
  KoraError, account_not_found, validation_error, rpc_error, token_operation_error, Result, ok, err,
  ok_or, traverse, ◌>>=◌,
}
use solus_protocol.Instruction.{Pubkey}
use solus_protocol.External.{External}
use solus_protocol.Parse.{SplTransfer}
use solus_protocol.Oracle.{Prices, get_token_prices}
use solus_protocol.Token.Accounts.{get_token_program_from_owner, get_mint_decimals}
use solus_protocol.Token.Value.{value_in_lamports}

-- Amounts by mint; the flag is `is_outflow`.
abbrev pub Groups : Type 0
Groups = Table Pubkey (ℕ × Bool)

abbrev pub is_account_not_found : KoraError → Bool
is_account_not_found account_not_found = true
is_account_not_found _ = false

-- The value that the last loop of the source has found for a mint.
abbrev pub find_decimals : Pubkey → List (Pubkey × ℕ) → Option ℕ
find_decimals k [] = none
find_decimals k ((j, d) ∷ ds) = if j == k then some d else find_decimals k ds

module _ {F D : Type 0} (x : External F D) where
  -- The mint of an outgoing transfer: named by the instruction, or read from the source account.
  unfoldable pub outgoing_mint : SplTransfer → Result Pubkey
  outgoing_mint t = elim t.mint [
    | some m ↦ ok m
    | none ↦ x.get_account t.source_address false >>= λ a.
        get_token_program_from_owner x a.owner >>= λ is_2022.
        ok_or (x.unpack_token_account is_2022 a.payload) token_operation_error >>= λ s. ok s.mint
  ]

  -- Whether the fee payer owns the destination, or it is an account yet to be created for it.
  unfoldable pub is_incoming : Pubkey → Pubkey → Pubkey → Result Bool
  is_incoming fee_payer destination mint = elim (x.get_account destination false) [
    | ok a ↦ get_token_program_from_owner x a.owner >>= λ is_2022.
        ok_or (x.unpack_token_account is_2022 a.payload) token_operation_error >>= λ s.
        ok (s.owner == fee_payer)
    | err e ↦ ok (
        if is_account_not_found e
        then (destination == x.associated_token_address fee_payer mint x.programs.spl_token
            || destination == x.associated_token_address fee_payer mint x.programs.spl_token_2022)
        else false)
  ]

  -- One round of the grouping loop.
  unfoldable pub group_transfer : Pubkey → SplTransfer → Groups → Result Groups
  unfolding outgoing_mint is_incoming
  group_transfer fee_payer t groups =
      if t.owner == fee_payer
      then (outgoing_mint t >>= λ mint. ok (push mint (t.amount, true) groups))
      else elim t.mint [
        | none ↦ ok groups
        | some mint ↦ is_incoming fee_payer t.destination_address mint >>= λ incoming.
            ok (if incoming then push mint (t.amount, false) groups else groups)
      ]

  unfoldable pub group_transfers : Pubkey → List SplTransfer → Groups → Result Groups
  group_transfers fee_payer [] groups = ok groups
  group_transfers fee_payer (t ∷ ts) groups = do
    groups' ← group_transfer fee_payer t groups
    group_transfers fee_payer ts groups'

  -- The inner loop of the total: outflow is added, inflow is subtracted and stops at 0.
  unfoldable pub add_transfers : D → ℕ → List (ℕ × Bool) → ℕ → Result ℕ
  add_transfers price d [] total = ok total
  add_transfers price d ((amount, is_outflow) ∷ ts) total = do
    lamports ← value_in_lamports x amount price d
    total' ←
        (if is_outflow
          then ok_or (checked_add total lamports) validation_error
          else ok (saturating_sub total lamports))
    add_transfers price d ts total'

  unfoldable pub add_groups : Prices D → List (Pubkey × ℕ) → Groups → ℕ → Result ℕ
  add_groups prices mint_decimals [] total = ok total
  add_groups prices mint_decimals ((mint, ts) ∷ groups) total = do
    price ← ok_or (prices (x.to_string mint)) rpc_error
    d ← ok_or (find_decimals mint mint_decimals) rpc_error
    total' ← add_transfers price d ts total
    add_groups prices mint_decimals groups total'

  unfoldable pub calculate_spl_transfers_value_in_lamports :
      (Groups → Groups) → Pubkey → List SplTransfer → Result ℕ
  unfolding group_transfers group_transfer add_groups add_transfers
  calculate_spl_transfers_value_in_lamports iteration fee_payer transfers = do
    grouped ← group_transfers fee_payer transfers []
    let groups = iteration grouped
    let priced = (do
      prices ← get_token_prices x 3 (map (λ g. x.to_string g.0) groups)
      mint_decimals ←
          traverse (λ (g : Pubkey × List (ℕ × Bool)). get_mint_decimals x g.0 >>= λ d. ok (g.0, d))
            groups
      add_groups prices mint_decimals groups 0)
    if is_empty grouped then ok 0 else priced

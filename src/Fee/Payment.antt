-- ===== src/Fee/Payment.antt =====
-- `FeeConfigUtil::analyze_payment_instructions` of kora/crates/lib/src/fee/fee.rs: whether the
-- transaction pays, and the Token-2022 transfer fees of its payments.
use solus_protocol.Base.{
  ℕ, Bool, true, false, ◌||◌, Option, none, some, List, [], ◌∷◌, ◌==◌, nat_eq, checked_add,
  if◌then◌else◌,
}
use solus_protocol.Error.{Result, ok, err, internal_server_error, validation_error, ok_or, ◌>>=◌}
use solus_protocol.Instruction.{Pubkey}
use solus_protocol.External.{External}
use solus_protocol.Parse.{SplTransfer}
use solus_protocol.Token.Accounts.{get_token_program_from_owner}
use solus_protocol.Token.TransferFee.{calculate_transfer_fee}

module _ {F D : Type 0} (x : External F D) where
  -- `get_payment_instruction_info`, with `skip_missing_accounts` as every caller passes it: whether
  -- the destination exists and belongs to the payment address.
  unfoldable pub is_payment : Pubkey → Pubkey → Result Bool
  is_payment destination payment_destination = elim (x.get_account destination false) [
    | err e ↦ ok false
    | ok a ↦ get_token_program_from_owner x a.owner >>= λ is_2022.
        ok_or (x.unpack_token_account is_2022 a.payload) internal_server_error >>= λ s.
        ok (s.owner == payment_destination)
  ]

  -- The fee that the mint withholds from a payment. Only a mint of Token-2022 has one.
  unfoldable pub payment_transfer_fee : Pubkey → ℕ → Result (Option ℕ)
  payment_transfer_fee mint amount = do
    account ← x.get_account mint true
    is_2022 ← get_token_program_from_owner x account.owner
    m ← ok_or (x.unpack_mint is_2022 account.payload) internal_server_error
    let fee = (x.get_epoch >>= λ current_epoch. calculate_transfer_fee m amount current_epoch)
    if is_2022 then fee else ok none

  abbrev pub add_fee : Option ℕ → ℕ → Result ℕ
  add_fee none total = ok total
  add_fee (some fee) total = ok_or (checked_add total fee) validation_error

  unfoldable pub transfer_fee_of : SplTransfer → Result (Option ℕ)
  unfolding payment_transfer_fee
  transfer_fee_of t =
      if t.is_2022
      then elim t.mint [ none ↦ ok none | some mint ↦ payment_transfer_fee mint t.amount ]
      else ok none

  -- The loop, over whether a payment was seen and the fees so far.
  unfoldable pub analyze_from : Pubkey → List SplTransfer → Bool → ℕ → Result (Bool × ℕ)
  unfolding is_payment transfer_fee_of
  analyze_from payment_destination [] has_payment total = ok (has_payment, total)
  analyze_from payment_destination (t ∷ ts) has_payment total = do
    paid ← is_payment t.destination_address payment_destination
    total' ← (if paid then (transfer_fee_of t >>= λ fee. add_fee fee total) else ok total)
    analyze_from payment_destination ts (paid || has_payment) total'

  unfoldable pub analyze_payment_instructions : Pubkey → List SplTransfer → Result (Bool × ℕ)
  unfolding analyze_from
  analyze_payment_instructions payment_destination ts = analyze_from payment_destination ts false 0

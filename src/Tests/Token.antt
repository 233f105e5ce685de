-- ===== src/Tests/Token.antt =====
-- The payment of the request, transfers both ways, and a fee of Token-2022.
use solus_protocol.Base.{
  ℕ, true, false, some, List, [], ◌∷◌, ◌+◌, ◌*◌, ◌≤◌, ◌<◌, ◌≡◌, ◌⊎◌, refl, u64_max, leb, arith,
}
use solus_protocol.Error.{ok}
use solus_protocol.External.{Mint, TransferFeeConfig}
use solus_protocol.Parse.{SplTransfer}
use solus_protocol.Token.Outflow.{group_transfers, calculate_spl_transfers_value_in_lamports}
use solus_protocol.Token.Order.{in_order, swapped, IsPriced, transfers_value-order}
use solus_protocol.Token.Payment.{verify_token_payment}
use solus_protocol.Token.Credit.{AllCredit, sum, verify_token_payment-AllCredit}
use solus_protocol.Token.TransferFee.{
  fee_in_epoch, calculate_transfer_fee, calculate_transfer_fee_lem,
}
use solus_protocol.Tests.World.{world, config, kora, user, instructions}

-- The transfer that the request pays with.
abbrev payment : SplTransfer
payment = record {
  amount = 6000;
  owner = user;
  mint = some 10;
  source_address = 20;
  destination_address = 21;
  is_2022 = false;
}

payment_verified :
    verify_token_payment world config instructions (payment ∷ []) 10040 kora ≡ ok true
unfolding verify_token_payment group_transfers solus_protocol.Config.supports_token
    solus_protocol.Oracle.get_token_price solus_protocol.Token.Accounts.get_mint_decimals
    solus_protocol.Token.Accounts.get_token_program_from_owner
    solus_protocol.Token.Outflow.group_transfer
    solus_protocol.Token.Value.calculate_token_value_in_lamports
    solus_protocol.Token.Value.get_token_price_and_decimals solus_protocol.Token.Value.pow10
    solus_protocol.Token.Value.value_in_lamports
payment_verified = refl

verify_token_payment-AllCredit_example :
    (vs : List ℕ) × AllCredit world config instructions kora (payment ∷ []) vs
    × (sum vs ≤ u64_max)
    × (true ≡ leb 10040 (sum vs))
verify_token_payment-AllCredit_example =
    verify_token_payment-AllCredit world config instructions kora (payment ∷ []) 10040
      payment_verified

-- The fee payer gives 100 of the first mint and gets 30 of the second.
abbrev exchange : List SplTransfer
exchange =
    record {
      amount = 100;
      owner = kora;
      mint = some 10;
      source_address = 21;
      destination_address = 20;
      is_2022 = false;
    }
    ∷ record {
      amount = 30;
      owner = user;
      mint = some 11;
      source_address = 30;
      destination_address = 31;
      is_2022 = false;
    }
    ∷ []

exchange_grouped :
    group_transfers world kora exchange []
    ≡ ok ((10, (100, true) ∷ []) ∷ (11, (30, false) ∷ []) ∷ [])
unfolding group_transfers solus_protocol.Token.Accounts.get_mint_decimals
    solus_protocol.Token.Accounts.get_token_program_from_owner
    solus_protocol.Token.Outflow.group_transfer solus_protocol.Token.Value.pow10
    solus_protocol.Token.Value.value_in_lamports
exchange_grouped = refl

exchange_priced : IsPriced world 10 11 100 30 200 60 9 9 (λ mint. some 2) 2 2
unfolding solus_protocol.Token.Value.value_in_lamports
    solus_protocol.Token.Accounts.get_mint_decimals solus_protocol.Token.Value.pow10
exchange_priced = record {
  distinct = omega arith;
  feed = λ ms. refl;
  price_m = refl;
  price_n = refl;
  decimals_m = refl;
  decimals_n = refl;
  value_m = refl;
  value_n = refl;
  fits = omega arith;
}

transfers_value-order_example :
    (calculate_spl_transfers_value_in_lamports world in_order kora exchange ≡ ok 140)
    × (calculate_spl_transfers_value_in_lamports world swapped kora exchange ≡ ok 200)
transfers_value-order_example =
    transfers_value-order world 10 11 100 30 200 60 9 9 (λ mint. some 2) 2 2 exchange_priced kora
      exchange exchange_grouped

-- A fee of 1 percent, at most 50, from epoch 5.
abbrev one_percent : TransferFeeConfig
one_percent = record {
  older_transfer_fee = record { epoch = 0; maximum_fee = 9; transfer_fee_basis_points = 500 };
  newer_transfer_fee = record { epoch = 5; maximum_fee = 50; transfer_fee_basis_points = 100 };
}

abbrev fee_mint : Mint
fee_mint = record { decimals = 6; extension_types = 1 ∷ []; transfer_fee_config = some one_percent }

calculate_transfer_fee_lem_example :
    (fee : ℕ) × (calculate_transfer_fee fee_mint 1999 7 ≡ ok (some fee))
    × (fee ≤ 1999)
    × (fee ≤ (fee_in_epoch one_percent 7).maximum_fee)
    × (fee * 10000 ≤ 1999 * (fee_in_epoch one_percent 7).transfer_fee_basis_points)
    × ((fee ≡ (fee_in_epoch one_percent 7).maximum_fee)
        ⊎ (1999 * (fee_in_epoch one_percent 7).transfer_fee_basis_points < (fee + 1) * 10000))
unfolding fee_in_epoch
calculate_transfer_fee_lem_example =
    calculate_transfer_fee_lem fee_mint one_percent 1999 7 refl (omega arith) (omega arith)

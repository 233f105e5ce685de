-- ===== src/Fee/Price.antt =====
-- `PriceConfig` of kora/crates/lib/src/fee/price.rs.
use solus_protocol.Base.{ℕ}
use solus_protocol.Error.{Result, err, validation_error, config_error, ok_or, ◌>>=◌}
use solus_protocol.Config.{PriceModel, margin, fixed}
use solus_protocol.External.{External}
use solus_protocol.Token.Value.{and_then, calculate_token_value_in_lamports}

module _ {F D : Type 0} (x : External F D) where
  open x use {decimals}

  unfoldable pub get_required_lamports_with_fixed : PriceModel F → Result ℕ
  get_required_lamports_with_fixed (fixed amount token strict) = do
    mint ← ok_or (x.from_str token) config_error
    calculate_token_value_in_lamports x amount mint
  get_required_lamports_with_fixed _ = err config_error

  unfoldable pub get_required_lamports_with_margin : PriceModel F → ℕ → Result ℕ
  get_required_lamports_with_margin (margin m) min_transaction_fee = do
    margin_decimal ← ok_or (decimals.from_f64 m) validation_error
    multiplier ←
        ok_or (and_then (decimals.from_u64 1) (λ one. decimals.checked_add one margin_decimal))
          validation_error
    result ←
        ok_or
          (and_then (decimals.from_u64 min_transaction_fee)
            (λ fee. decimals.checked_mul fee multiplier))
          validation_error
    ok_or (decimals.to_u64 (decimals.ceil result)) validation_error
  get_required_lamports_with_margin _ min_transaction_fee = err config_error

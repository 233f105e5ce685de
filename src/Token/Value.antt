-- ===== src/Token/Value.antt =====
-- Token amounts and lamports (kora/crates/lib/src/token/token.rs). `10u64.pow` wraps in a release
-- build.
use solus_protocol.Base.{ℕ, ◌^◌, ◌%◌, Option, none, some}
use solus_protocol.Error.{Result, ok, validation_error, rpc_error, ok_or, map_err, ◌>>=◌}
use solus_protocol.Instruction.{Pubkey}
use solus_protocol.External.{External}
use solus_protocol.Oracle.{get_token_price}
use solus_protocol.Token.Accounts.{get_mint_decimals}

abbrev pub lamports_per_sol : ℕ
lamports_per_sol = 1000000000

unfoldable pub pow10 : ℕ → ℕ
pow10 d = 10 ^ d % 18446744073709551616

-- `Option::and_then`
abbrev pub and_then {ℓ κ} : {A : Type ℓ} {B : Type κ} → Option A → (A → Option B) → Option B
and_then none f = none
and_then (some a) f = f a

module _ {F D : Type 0} (x : External F D) where
  open x use {decimals}

  -- `TokenUtil::get_token_price_and_decimals`
  unfoldable pub get_token_price_and_decimals : Pubkey → Result (D × ℕ)
  get_token_price_and_decimals mint = do
    d ← get_mint_decimals x mint
    price ← map_err (get_token_price x 3 (x.to_string mint)) rpc_error
    ok (price, d)

  -- (amount * price * LAMPORTS_PER_SOL) / 10^decimals, rounded down
  unfoldable pub value_in_lamports : ℕ → D → ℕ → Result ℕ
  value_in_lamports amount price d = do
    amount_decimal ← ok_or (decimals.from_u64 amount) validation_error
    decimals_scale ← ok_or (decimals.from_u64 (pow10 d)) validation_error
    per_sol ← ok_or (decimals.from_u64 lamports_per_sol) validation_error
    lamports ←
        ok_or
          (and_then
            (and_then (decimals.checked_mul amount_decimal price)
              (λ result. decimals.checked_mul result per_sol))
            (λ result. decimals.checked_div result decimals_scale))
          validation_error
    ok_or (decimals.to_u64 (decimals.floor lamports)) validation_error

  -- (lamports * 10^decimals) / (LAMPORTS_PER_SOL * price), rounded up
  unfoldable pub value_in_token : ℕ → D → ℕ → Result ℕ
  value_in_token lamports price d = do
    lamports_decimal ← ok_or (decimals.from_u64 lamports) validation_error
    per_sol ← ok_or (decimals.from_u64 lamports_per_sol) validation_error
    scale ← ok_or (decimals.from_u64 (pow10 d)) validation_error
    token_amount ←
        ok_or
          (and_then (decimals.checked_mul lamports_decimal scale) (λ result.
            and_then (decimals.checked_mul per_sol price)
              (λ divisor. decimals.checked_div result divisor)))
          validation_error
    ok_or (decimals.to_u64 (decimals.ceil token_amount)) validation_error

  -- `TokenUtil::calculate_token_value_in_lamports`
  unfoldable pub calculate_token_value_in_lamports : ℕ → Pubkey → Result ℕ
  calculate_token_value_in_lamports amount mint = do
    (price, d) ← get_token_price_and_decimals mint
    value_in_lamports amount price d

  -- `TokenUtil::calculate_lamports_value_in_token`
  unfoldable pub calculate_lamports_value_in_token : ℕ → Pubkey → Result ℕ
  calculate_lamports_value_in_token lamports mint = do
    (price, d) ← get_token_price_and_decimals mint
    value_in_token lamports price d

-- ===== src/Oracle/Jupiter.antt =====
-- `JupiterPriceOracle` of kora/crates/lib/src/oracle/jupiter.rs and `validate_division` of
-- kora/crates/lib/src/validator/math_validator.rs. The HTTP exchange is a function of the mints that
-- the query lists; a hash map is an association list whose first entry for a key counts.
pub mod Priced
use solus_protocol.Base.{
  ℕ, String, Bool, not, ◌||◌, Option, none, some, List, [], ◌∷◌, ◌==◌, nat_eq, string_eq, is_empty,
  if◌then◌else◌,
}
use solus_protocol.Error.{
  Result, ok, err, rpc_error, rate_limit_exceeded, panicked, ok_or, fail_if, ◌>>=◌, ◌>>◌,
}

abbrev pub sol_mint : String
sol_mint = "So11111111111111111111111111111111111111112"

-- The tests of `f64` that the code makes, `Decimal::from_f64_retain`, and the division of decimals,
-- which is `none` where it panics.
pub record Floats (F D : Type 0) : Type 0 where
  pub is_finite : F → Bool
  pub at_most_zero : F → Bool
  pub above_maximum : F → Bool
  pub below_minimum : F → Bool
  pub from_f64_retain : F → Option D
  pub divide : D → D → Option D

-- What comes back: no response, a status that is not a success, a body that does not parse, or
-- the prices in dollars by mint.
pub data Reply (F : Type 0) : Type 0 where
  unreachable : Reply F
  failed : (status : ℕ) → Reply F
  unparsed : Reply F
  answered : (String → Option F) → Reply F

abbrev pub PriceTable : Type 0 → Type 0
PriceTable D = List (String × D)

module _ {F D : Type 0} (f : Floats F D) where
  unfoldable pub validate_division : F → Result (Unit {0})
  validate_division divisor =
      fail_if (not (f.is_finite divisor) || f.at_most_zero divisor) rpc_error

  unfoldable pub validate_price_data : F → Result (Unit {0})
  unfolding validate_division
  validate_price_data price = do
    validate_division price
    fail_if (f.above_maximum price) rpc_error
    fail_if (f.below_minimum price) rpc_error

  -- One mint of the loop: its price in SOL.
  unfoldable pub price_in_sol : (String → Option F) → F → String → Result D
  unfolding validate_price_data
  price_in_sol response sol_price mint = do
    usd_price ← ok_or (response mint) rpc_error
    validate_price_data usd_price
    token_usd ← ok_or (f.from_f64_retain usd_price) rpc_error
    sol_usd ← ok_or (f.from_f64_retain sol_price) rpc_error
    ok_or (f.divide token_usd sol_usd) panicked

  unfoldable pub convert_all :
      (String → Option F) → F → List String → PriceTable D → Result (PriceTable D)
  unfolding price_in_sol
  convert_all response sol_price [] result = ok result
  convert_all response sol_price (mint ∷ mints) result = do
    price ← price_in_sol response sol_price mint
    convert_all response sol_price mints ((mint, price) ∷ result)

  unfoldable pub convert_reply : Reply F → List String → Result (PriceTable D)
  unfolding convert_all validate_price_data
  convert_reply unreachable mints = err rpc_error
  convert_reply (failed status) mints =
      if status == 429 then err rate_limit_exceeded else err rpc_error
  convert_reply unparsed mints = err rpc_error
  convert_reply (answered response) mints = do
    sol_price ← ok_or (response sol_mint) rpc_error
    validate_price_data sol_price
    result ← convert_all response sol_price mints []
    fail_if (is_empty result) rpc_error
    ok result

  -- `fetch_prices_from_url`, where `send` answers the query for a list of mints.
  unfoldable pub fetch_prices : (List String → Reply F) → List String → Result (PriceTable D)
  unfolding convert_reply
  fetch_prices send mints =
      if is_empty mints then ok [] else convert_reply (send (sol_mint ∷ mints)) mints

  unfoldable pub get_prices : (List String → Reply F) → List String → Result (PriceTable D)
  unfolding fetch_prices
  get_prices send mints = if is_empty mints then ok [] else fetch_prices send mints

-- `prices.get(mint)`
unfoldable pub price_at : {D : Type 0} → PriceTable D → String → Option D
price_at [] mint = none
price_at ((m, price) ∷ prices) mint =
    let rest = price_at prices mint in if m == mint then some price else rest

unfoldable pub get_price : {F D : Type 0} → Floats F D → (List String → Reply F) → String → Result D
unfolding get_prices price_at
get_price f send mint = do
  prices ← get_prices f send (mint ∷ [])
  ok_or (price_at prices mint) rpc_error

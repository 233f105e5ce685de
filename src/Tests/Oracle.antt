-- ===== src/Tests/Oracle.antt =====
-- A feed that answers at its third attempt, and a reply of Jupiter's.
use solus_protocol.Base.{
  ℕ, ◌/◌, String, true, List, [], ◌∷◌, Option, none, some, ◌<◌, ◌≡◌, ◌≢◌, refl, arith, ltb, ◌==◌,
  nat_eq, string_eq, All, if◌then◌else◌,
}
use solus_protocol.Error.{ok, err, rpc_error}
use solus_protocol.External.{External}
use solus_protocol.Oracle.{get_token_prices}
use solus_protocol.Oracle.Retry.{get_token_prices-first}
use solus_protocol.Oracle.Jupiter.{
  Floats, PriceTable, Reply, answered, sol_mint, get_prices, price_at,
}
use solus_protocol.Oracle.Jupiter.Priced.{IsPrice, get_prices-AllPrices}
use solus_protocol.Tests.World.{world}

abbrev slow_feed : External ℕ ℕ
slow_feed = record world {
  get_prices = λ attempt mints. if ltb attempt 2 then err rpc_error else ok (λ mint. some 2);
}

slow_feed_fails : (k : ℕ) → k < 2 → slow_feed.get_prices k ("usd" ∷ []) ≡ err rpc_error
slow_feed_fails k h = ground arith

get_token_prices-first_example : get_token_prices slow_feed 3 ("usd" ∷ []) ≡ ok (λ mint. some 2)
get_token_prices-first_example =
    get_token_prices-first slow_feed ("usd" ∷ []) 3 2 (λ k. rpc_error) (λ mint. some 2) refl
      (omega arith) slow_feed_fails refl

-- Prices in whole units: a token at 50 dollars, and SOL at 10.
abbrev floats : Floats ℕ ℕ
floats = record {
  is_finite = λ price. true;
  at_most_zero = λ price. price == 0;
  above_maximum = λ price. ltb 1000000 price;
  below_minimum = λ price. ltb price 1;
  from_f64_retain = λ price. some price;
  divide = λ a b. if b == 0 then none else some (a / b);
}

abbrev prices : PriceTable ℕ
prices = ("usd", 5) ∷ []

abbrev quotes : List String → Reply ℕ
quotes mints =
    answered (λ mint. if mint == sol_mint then some 10 else if mint == "usd" then some 50 else none)

quoted : get_prices floats quotes ("usd" ∷ []) ≡ ok prices
unfolding get_prices
quoted = refl

get_prices-AllPrices_example :
    (response : String → Option ℕ) × (quotes (sol_mint ∷ "usd" ∷ []) ≡ answered response)
    × ((k : String) (p : ℕ) → price_at prices k ≡ some p → IsPrice floats response k p)
    × All (λ m. price_at prices m ≢ none) ("usd" ∷ [])
get_prices-AllPrices_example = get_prices-AllPrices floats quotes "usd" [] prices quoted

-- ===== src/Oracle.antt =====
-- `RetryingPriceOracle` of kora/crates/lib/src/oracle/oracle.rs. The delay between attempts is not
-- modelled.
pub mod Retry
pub mod Jupiter
use solus_protocol.Base.{
  ℕ, zero, suc, ◌+◌, String, Option, none, some, List, [], ◌∷◌, ltb, is_empty, if◌then◌else◌,
}
use solus_protocol.Error.{KoraError, Result, ok, err, internal_server_error, ok_or, ◌>>=◌}
use solus_protocol.External.{External}

abbrev pub Prices : Type 0 → Type 0
Prices D = String → Option D

module _ {F D : Type 0} (x : External F D) where
  -- The loop over the attempts that are left, with the last error.
  unfoldable pub attempt_from : ℕ → ℕ → Option KoraError → List String → Result (Prices D)
  attempt_from zero attempt last_error mints = elim last_error [
    | none ↦ err internal_server_error
    | some e ↦ err e
  ]
  attempt_from (suc left) attempt last_error mints = elim (x.get_prices attempt mints) [
    | ok prices ↦ ok prices
    | err e ↦ attempt_from left (attempt + 1) (some e) mints
  ]

  unfoldable pub get_token_prices : ℕ → List String → Result (Prices D)
  unfolding attempt_from
  get_token_prices max_retries mints =
      if is_empty mints then ok (λ _. none) else attempt_from max_retries 0 none mints

  unfoldable pub get_token_price : ℕ → String → Result D
  unfolding get_token_prices
  get_token_price max_retries mint = do
    prices ← get_token_prices max_retries (mint ∷ [])
    ok_or (prices mint) internal_server_error

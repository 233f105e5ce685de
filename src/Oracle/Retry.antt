-- ===== src/Oracle/Retry.antt =====
-- The retries of `RetryingPriceOracle` (kora/crates/lib/src/oracle/oracle.rs).
use solus_protocol.Base.{
  ℕ, zero, suc, ◌+◌, ◌<◌, ◌≡◌, sym, String, false, Option, none, some, List, is_empty, arith,
  if◌then◌else◌,
}
use solus_protocol.Error.{KoraError, ok, err}
use solus_protocol.External.{External}
use solus_protocol.Oracle.{Prices, attempt_from, get_token_prices}

module _ {F D : Type 0} (x : External F D) (mints : List String) where
  attempt_from-first :
      (left attempt n : ℕ) (last : Option KoraError) (errors : ℕ → KoraError) (prices : Prices D)
      → n < left
      → ((k : ℕ) → k < n → x.get_prices (attempt + k) mints ≡ err (errors (attempt + k)))
      → x.get_prices (attempt + n) mints ≡ ok prices
      → attempt_from x left attempt last mints ≡ ok prices
  unfolding attempt_from
  attempt_from-first zero attempt n last errors prices h fails succeeds = absurd (omega arith)
  attempt_from-first (suc left) attempt zero last errors prices h fails succeeds =
      let here : attempt + 0 ≡ attempt = omega arith in rw (attempt_from, rw here at succeeds)
  attempt_from-first (suc left) attempt (suc n) last errors prices h fails succeeds =
      let here : attempt + 0 ≡ attempt = omega arith in
      let next : (k : ℕ) → attempt + suc k ≡ attempt + 1 + k = λ k. omega arith in
      let first : x.get_prices (attempt + 0) mints ≡ err (errors (attempt + 0)) =
        fails 0 (omega arith) in
      let failed : x.get_prices attempt mints ≡ err (errors attempt) = rw here at first in
      rw (
        attempt_from,
        failed,
        attempt_from-first left (attempt + 1) n (some (errors attempt)) errors prices (omega arith)
            (λ k below. rw (sym (next k)) (fails (suc k) (omega arith)))
            (rw (sym (next n)) succeeds),
      )

  -- Asked for at least one mint, the retries return the prices of the first attempt that succeeds,
  -- if it is among the first `max_retries`, whatever the attempts before it failed with.
  pub get_token_prices-first :
      (max_retries n : ℕ) (errors : ℕ → KoraError) (prices : Prices D)
      → is_empty mints ≡ false
      → n < max_retries
      → ((k : ℕ) → k < n → x.get_prices k mints ≡ err (errors k))
      → x.get_prices n mints ≡ ok prices
      → get_token_prices x max_retries mints ≡ ok prices
  unfolding get_token_prices
  get_token_prices-first max_retries n errors prices given h fails succeeds =
      let start : (k : ℕ) → 0 + k ≡ k = λ k. omega arith in
      let found =
        attempt_from-first max_retries 0 n none errors prices h
          (λ k below. rw (start k) (fails k below)) (rw (start n) succeeds) in
      rw (given, if◌then◌else◌, found)

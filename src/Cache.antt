-- ===== src/Cache.antt =====
-- The account cache: `CacheUtil` of kora/crates/lib/src/cache.rs. The chain answers by the time of the
-- question; the store behind the pool is an interface whose calls may fail.
pub mod Fresh
use solus_protocol.Base.{
  ℕ, Bool, true, false, not, ◌&&◌, ◌+◌, Option, none, some, ltb, if◌then◌else◌,
}
use solus_protocol.Error.{Result, ok, err}
use solus_protocol.Instruction.{Pubkey}
use solus_protocol.External.{Account}

pub record CachedAccount : Type 0 where
  pub account : Account
  pub cached_at : ℕ

-- The calls of Redis with the decoding of what it returns: reading a key, and `set_ex` with a lifetime.
pub record CacheStore (S : Type 0) : Type 0 where
  pub get_from_cache : Pubkey → S → Result (Option CachedAccount)
  pub set_in_cache : Pubkey → CachedAccount → ℕ → S → Result S

module _ {S : Type 0} (store : CacheStore S) (chain : ℕ → Pubkey → Result Account)
    (account_ttl now : ℕ) where
  -- A store that cannot be written is left as it was, and the account is returned all the same.
  abbrev pub written : S → Result S → S
  written s (ok s') = s'
  written s (err e) = s

  abbrev pub cached : Pubkey → S → Result Account → Result Account × S
  cached k s (err e) = (err e, s)
  cached k s (ok a) = (
    ok a,
    written s (store.set_in_cache k (record { account = a; cached_at = now }) account_ttl s),
  )

  unfoldable pub get_account_from_rpc_and_cache : Pubkey → S → Result Account × S
  get_account_from_rpc_and_cache k s = cached k s (chain now k)

  -- An entry is valid while `now - cached_at < account_ttl`, an integer that is negative for an entry of
  -- the future.
  abbrev pub is_valid : CachedAccount → Bool
  is_valid c = ltb now (c.cached_at + account_ttl)

  abbrev pub from_cache : Result (Option CachedAccount) → Option Account
  from_cache (ok (some c)) = if is_valid c then some c.account else none
  from_cache (ok none) = none
  from_cache (err e) = none

  -- `get_account`, by whether the cache is enabled and its pool is there.
  unfoldable pub get_account : Bool → Pubkey → Bool → S → Result Account × S
  unfolding get_account_from_rpc_and_cache
  get_account enabled k force_refresh s =
      let cached_or_fetched : Result Account × S = (elim (from_cache (store.get_from_cache k s)) [
        | some a ↦ (ok a, s)
        | none ↦ get_account_from_rpc_and_cache k s
      ]) in
      if not enabled
      then (chain now k, s)
      else if force_refresh
      then get_account_from_rpc_and_cache k s
      else cached_or_fetched

-- ===== src/Setup/Cache.antt =====
-- `CacheValidator::validate` of kora/crates/lib/src/validator/cache_validator.rs. Whether Redis
-- answers at an address is the argument `test_redis_connection`.
use solus_protocol.Base.{
  ℕ, String, Bool, true, false, not, ◌&&◌, ◌||◌, Option, none, some, List, [], ◌∷◌, ◌==◌, nat_eq,
  if◌then◌else◌,
}
use solus_protocol.Json.{codes}
use solus_protocol.Config.{UsageLimitConfig}
use solus_protocol.Setup.Report.{
  Report, fine, complain, warn, complain_if, warn_if, all_of, usage_without_cache,
  usage_without_limits, usage_without_fallback, invalid_cache_url, redis_failed, redis_unavailable,
}

abbrev pub begins : List ℕ → List ℕ → Bool
begins text [] = true
begins [] (c ∷ cs) = false
begins (d ∷ ds) (c ∷ cs) = d == c && begins ds cs

-- `str::starts_with`
abbrev pub starts_with : String → String → Bool
starts_with text start = begins (codes text) (codes start)

unfoldable pub is_redis_url : String → Bool
is_redis_url cache_url = starts_with cache_url "redis://" || starts_with cache_url "rediss://"

module _ (test_redis_connection : String → Bool) where
  abbrev pub check_url : Bool → Option String → Report
  check_url fallback none =
      if fallback then warn usage_without_limits else complain usage_without_cache
  check_url fallback (some cache_url) = complain_if (not (is_redis_url cache_url)) invalid_cache_url

  abbrev pub check_connection : Bool → Option String → Report
  check_connection fallback none = fine
  check_connection fallback (some cache_url) =
      if is_redis_url cache_url && not (test_redis_connection cache_url)
      then (if fallback then warn redis_unavailable else complain redis_failed)
      else fine

  unfoldable pub validate_usage_limit : UsageLimitConfig → Report
  unfolding is_redis_url
  validate_usage_limit c =
      if not c.enabled
      then fine
      else all_of (
          check_url c.fallback_if_unavailable c.cache_url
          ∷ warn_if (not c.fallback_if_unavailable) usage_without_fallback
          ∷ check_connection c.fallback_if_unavailable c.cache_url
          ∷ [])

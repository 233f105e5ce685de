-- ===== src/Setup/Validator/Conditions.antt =====
-- What the validator asks of a configuration, without its reports.
use solus_protocol.Base.{
  String, Bool, true, false, Option, none, some, [], ◌≡◌, ◌≢◌, ◌⊎◌, nat_eq, string_eq, All,
  contains,
}
use solus_protocol.Error.{ok}
use solus_protocol.Instruction.{Pubkey}
use solus_protocol.Config.{
  PriceModel, margin, fixed, free, has_tokens, as_slice, jupiter, ValidationConfig, supports_token,
  UsageLimitConfig, Config,
}
use solus_protocol.AccountType.{AccountType, mint, program, validate_account}
use solus_protocol.Setup.Extensions.{validate_token2022_extensions}
use solus_protocol.Setup.Signers.{SignerPoolConfig, load_config}
use solus_protocol.Setup.Cache.{is_redis_url}
use solus_protocol.Setup.Atas.{find_missing_atas}
use solus_protocol.Setup.Checks.{Surroundings, has_token_program}

module _ {F D : Type 0} (s : Surroundings F D) where
  abbrev pub IsKey : String → Type 0
  IsKey text = (k : Pubkey) × (s.chain.from_str text ≡ some k)

  -- An address is of an account of the type, if it parses.
  abbrev pub HasType : AccountType → String → Type 0
  HasType type text =
      (k : Pubkey)
      → s.chain.from_str text ≡ some k
      → validate_account s.chain s.layouts k (some type) ≡ ok tt

  abbrev pub PriceHolds : ValidationConfig F → PriceModel F → Type 0
  PriceHolds v (fixed amount token strict) = IsKey token × (supports_token v token ≡ true)
  PriceHolds v (margin m) = s.is_negative m ≡ false
  PriceHolds v free = Unit

  abbrev pub FeesPayable : ValidationConfig F → Type 0
  FeesPayable v =
      v.price ≢ free
      → (has_token_program s v ≡ true) × (has_tokens v.allowed_spl_paid_tokens ≡ true)

  -- The usage counters are on a Redis server that answers, or may be done without.
  abbrev pub UsageHolds : UsageLimitConfig → Type 0
  UsageHolds c =
      c.enabled ≡ true
      → (c.cache_url ≡ none → c.fallback_if_unavailable ≡ true)
        × ((url : String)
            → c.cache_url ≡ some url
            → (is_redis_url url ≡ true)
              × ((s.test_redis_connection url ≡ true) ⊎ (c.fallback_if_unavailable ≡ true)))

  abbrev pub ChainHolds : Config F → Type 0
  ChainHolds c =
      All (HasType program) c.validation.allowed_programs
      × All (HasType mint) c.validation.allowed_tokens
      × All (HasType mint) (as_slice c.validation.allowed_spl_paid_tokens)
      × ((address : String)
          → c.kora.payment_address ≡ some address
          → (k : Pubkey) × (s.chain.from_str address ≡ some k)
            × (find_missing_atas s.chain k c.validation.allowed_spl_paid_tokens ≡ ok []))

  abbrev pub IsDeployable : Config F → Bool → Option String → Type 0
  IsDeployable c skip path =
      ((address : String) → c.kora.payment_address ≡ some address → IsKey address)
      × (c.validation.price_source ≡ jupiter → s.jupiter_api_key ≡ true)
      × (c.validation.allowed_tokens ≢ [])
      × All IsKey c.validation.allowed_tokens
      × All IsKey (as_slice c.validation.allowed_spl_paid_tokens)
      × All IsKey c.validation.disallowed_accounts
      × (validate_token2022_extensions c.validation.token_2022 ≡ ok tt)
      × FeesPayable c.validation
      × All (λ t. contains c.validation.allowed_tokens t ≡ true)
          (as_slice c.validation.allowed_spl_paid_tokens)
      × PriceHolds c.validation c.validation.price
      × UsageHolds c.kora.usage_limit
      × (skip ≡ false → ChainHolds c)
      × ((file : String)
          → path ≡ some file
          → (p : SignerPoolConfig) × (load_config s.read_config file ≡ ok p))

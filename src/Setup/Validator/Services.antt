-- ===== src/Setup/Validator/Services.antt =====
-- When the checks that ask Redis and the chain report no error.
use solus_protocol.Base.{
  iff_trans, ℕ, String, Bool, true, false, not, ◌&&◌, Option, none, some, List, [], ◌∷◌, ◌≡◌, ◌↔◌,
  ◌⊎◌, inl, inr, refl, subst, sym, ◌==◌, nat_eq, string_eq, Bool-cases, if◌then◌else◌, arith,
}
use solus_protocol.Error.{Result, ok, err}
use solus_protocol.Instruction.{Pubkey}
use solus_protocol.Config.{UsageLimitConfig}
use solus_protocol.External.{Account}
use solus_protocol.AccountType.{AccountType, validate_account}
use solus_protocol.Setup.Extensions.{ExtensionType, permanent_delegate, transfer_hook}
use solus_protocol.Setup.Report.{
  ConfigError, fine, complain, complain_if, warn, warn_if, all_of, invalid_cache_url,
  usage_without_fallback, redis_unavailable, redis_failed, risky_extension,
}
use solus_protocol.Setup.Report.Errors.{
  Passes, each-Passes, all_of_iff, warn_if-Passes, complain_unless_iff,
}
use solus_protocol.Setup.Cache.{is_redis_url, validate_usage_limit}
use solus_protocol.Setup.Checks.{
  Surroundings, is_ok, check_account, warn_extensions, check_mint, check_token_mint_extensions,
}
use solus_protocol.Setup.Validator.Conditions.{HasType, UsageHolds}
use solus_protocol.Setup.Validator.Parts.{known_iff}

module _ {F D : Type 0} (s : Surroundings F D) where
  redis_iff :
      (fallback url answers : Bool)
      → Passes (
          all_of (
            complain_if (not url) invalid_cache_url
            ∷ warn_if (not fallback) usage_without_fallback
            ∷ (if url && not answers
                then (if fallback then warn redis_unavailable else complain redis_failed)
                else fine)
            ∷ []))
        ↔ ((url ≡ true) × ((answers ≡ true) ⊎ (fallback ≡ true)))
  redis_iff true true true = (λ _. (refl, inl refl), λ _. refl)
  redis_iff true true false = (λ _. (refl, inr refl), λ _. refl)
  redis_iff true false answers = (λ h. ground arith, λ h. ground arith)
  redis_iff false true true = (λ _. (refl, inl refl), λ _. refl)
  redis_iff false true false = (λ h. ground arith, λ h. ground arith)
  redis_iff false false answers = (λ h. ground arith, λ h. ground arith)

  pub usage_iff :
      (enabled fallback : Bool) (cache_url : Option String) (max_transactions : ℕ)
      → let c : UsageLimitConfig = record {
        enabled = enabled;
        cache_url = cache_url;
        max_transactions = max_transactions;
        fallback_if_unavailable = fallback;
      } in
        Passes (validate_usage_limit s.test_redis_connection c) ↔ UsageHolds s c
  unfolding validate_usage_limit
  usage_iff false fallback url n = (λ _ e. ground arith, λ _. refl)
  usage_iff true true none n = (λ _ _. (λ _. refl, λ u e. ground arith), λ _. refl)
  usage_iff true false none n =
      (λ h. ground arith, λ h. (let bad = (h refl).0 refl in ground arith))
  usage_iff true fallback (some url) n =
      let (f, g) = redis_iff fallback (is_redis_url url) (s.test_redis_connection url) in
      (
        λ h _. (
          λ e. ground arith,
          (known_iff s
                (λ u.
                  (is_redis_url u ≡ true)
                  × ((s.test_redis_connection u ≡ true) ⊎ (fallback ≡ true)))
                url).0
              (f h),
        ),
        λ h. g ((h refl).1 url refl),
      )

  pub is_ok_iff : (r : Result (Unit {0})) → (is_ok r ≡ true) ↔ (r ≡ ok tt)
  is_ok_iff (ok tt) = (λ _. refl, λ _. refl)
  is_ok_iff (err e) = (λ h. ground arith, λ h. ground arith)

  account_iff :
      (type : AccountType) (e : ConfigError) (o : Option Pubkey)
      → Passes (elim o [
        | none ↦ fine
        | some k ↦ complain_if (not (is_ok (validate_account s.chain s.layouts k (some type)))) e
      ])
        ↔ ((k : Pubkey) → o ≡ some k → validate_account s.chain s.layouts k (some type) ≡ ok tt)
  account_iff type e none = (λ _ k h. ground arith, λ _. refl)
  account_iff type e (some k) =
      let r = validate_account s.chain s.layouts k (some type) in
      iff_trans (complain_unless_iff (is_ok r) e) (
        iff_trans (is_ok_iff r)
          (known_iff s (λ k. validate_account s.chain s.layouts k (some type) ≡ ok tt) k))

  pub check_account_iff :
      (type : AccountType) (e : String → ConfigError) (text : String)
      → Passes (check_account s type e text) ↔ HasType s type text
  check_account_iff type e text = account_iff type (e text) (s.chain.from_str text)

  warn_extensions-Passes :
      (token : String) (o : Option (ExtensionType → Bool)) → Passes (warn_extensions s token o)
  warn_extensions-Passes token none = refl
  warn_extensions-Passes token (some has) =
      (all_of_iff (
          warn_if (has permanent_delegate) (risky_extension token permanent_delegate)
          ∷ warn_if (has transfer_hook) (risky_extension token transfer_hook)
          ∷ [])).1
        (warn_if-Passes _ _, (warn_if-Passes _ _, tt))

  check_mint-Passes : (token : String) (r : Result Account) → Passes (check_mint s token r)
  check_mint-Passes token (err e) = refl
  check_mint-Passes token (ok a) = elim (Bool-cases (a.owner == s.chain.programs.spl_token_2022)) [
    | inl e ↦
        subst
          (λ b.
            Passes (if b then warn_extensions s token (s.unpack_extensions a.payload) else fine))
          (sym e) (warn_extensions-Passes token (s.unpack_extensions a.payload))
    | inr e ↦
        subst
          (λ b.
            Passes (if b then warn_extensions s token (s.unpack_extensions a.payload) else fine))
          (sym e) refl
  ]

  read_mint-Passes :
      (token : String) (o : Option Pubkey)
      → Passes (elim o [ none ↦ fine | some k ↦ check_mint s token (s.rpc_account k) ])
  read_mint-Passes token none = refl
  read_mint-Passes token (some k) = check_mint-Passes token (s.rpc_account k)

  pub mint_extensions-Passes :
      (tokens : List String) → Passes (check_token_mint_extensions s tokens)
  unfolding check_token_mint_extensions
  mint_extensions-Passes tokens =
      each-Passes _ (λ token. read_mint-Passes token (s.chain.from_str token)) tokens

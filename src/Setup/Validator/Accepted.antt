-- ===== src/Setup/Validator/Accepted.antt =====
-- The configurations that the validator accepts.
use solus_protocol.Base.{
  iff_trans, All, String, Bool, true, not, Option, List, [], ◌∷◌, ◌≡◌, ◌↔◌, inl, inr, refl, subst,
  sym, nat_eq, string_eq, Bool-cases, contains, is_empty, if◌then◌else◌, arith,
}
use solus_protocol.Error.{ok}
use solus_protocol.Config.{
  SplTokenConfig, all_tokens, allowlist, has_tokens, as_slice, ValidationConfig, Config,
}
use solus_protocol.Setup.Extensions.{validate_token2022_extensions}
use solus_protocol.Setup.Report.{
  ConfigError, Report, complain_if, warn, warn_if, all_of, each, invalid_paid_token,
  invalid_disallowed_account, invalid_extension_name, paid_token_not_allowed, blocks_all_programs,
  no_system_program, blocks_token_programs, ConfigWarning,
}
use solus_protocol.Setup.Report.Errors.{
  ◌&◌, ◌⊳◌, last_iff, Passes, all_of_iff, each_iff, warn_if-Passes, complain_unless_iff,
}
use solus_protocol.Setup.Checks.{
  Surroundings, has_program, is_ok, has_token_program, check_programs, warn_all_tokens, check_chain,
}
use solus_protocol.Setup.Validator.{
  valid, invalid, checks, outcome, validate_with_result_and_signers,
}
use solus_protocol.Setup.Validator.Conditions.{ChainHolds, IsDeployable}
use solus_protocol.Setup.Validator.Parts.{
  check_address_iff, check_tokens_iff, check_allowed_tokens_iff, price_source_iff, check_fees_iff,
  check_price_iff,
}
use solus_protocol.Setup.Validator.Services.{usage_iff, is_ok_iff}
use solus_protocol.Setup.Validator.Chain.{check_chain_iff, skip_iff, check_signers_iff}

module _ {F D : Type 0} (s : Surroundings F D) where
  -- The two warnings of `check_programs`.
  abbrev listed : ValidationConfig F → List Report
  listed v =
      warn_if (not (has_program s v s.chain.programs.system_program)) no_system_program
      ∷ warn_if (not (has_token_program s v)) blocks_token_programs
      ∷ []

  programs-Passes : (v : ValidationConfig F) → Passes (check_programs s v)
  programs-Passes v = elim (Bool-cases (is_empty v.allowed_programs)) [
    | inl e ↦
        subst (λ b. Passes (if b then warn blocks_all_programs else all_of (listed v))) (sym e) refl
    | inr e ↦
        subst (λ b. Passes (if b then warn blocks_all_programs else all_of (listed v))) (sym e)
          ((all_of_iff (listed v)).1 (warn_if-Passes _ _, (warn_if-Passes _ _, tt)))
  ]

  all_tokens-Passes : (paid : SplTokenConfig) → Passes (warn_all_tokens s paid)
  all_tokens-Passes all_tokens = refl
  all_tokens-Passes (allowlist tokens) = refl

  extensions_iff :
      (v : ValidationConfig F)
      → Passes (
          complain_if
            (not (is_ok (validate_token2022_extensions v.token_2022)))
            invalid_extension_name)
        ↔ (validate_token2022_extensions v.token_2022 ≡ ok tt)
  extensions_iff v =
      let r = validate_token2022_extensions v.token_2022 in
      iff_trans (complain_unless_iff (is_ok r) invalid_extension_name) (is_ok_iff s r)

  paid_iff :
      (allowed paid : List String)
      → Passes (each (λ t. complain_if (not (contains allowed t)) (paid_token_not_allowed t)) paid)
        ↔ All (λ t. contains allowed t ≡ true) paid
  paid_iff allowed paid =
      each_iff _ (λ t. contains allowed t ≡ true)
        (λ t. complain_unless_iff (contains allowed t) (paid_token_not_allowed t)) paid

  checks_iff :
      (c : Config F) (skip : Bool) (path : Option String)
      → Passes (all_of (checks s c skip path)) ↔ IsDeployable s c skip path
  checks_iff c skip path =
      let v = c.validation in
      let paid = as_slice v.allowed_spl_paid_tokens in
      let k = c.kora.usage_limit in
      let asked =
        warn_if-Passes _ _
        ⊳ check_address_iff s c.kora.payment_address
        & warn_if-Passes _ _
        ⊳ warn_if-Passes _ _
        ⊳ warn_if-Passes _ _
        ⊳ price_source_iff s v.price_source
        & warn_if-Passes _ _
        ⊳ programs-Passes v
        ⊳ check_allowed_tokens_iff s v.allowed_tokens
        & check_tokens_iff s paid invalid_paid_token
        & all_tokens-Passes v.allowed_spl_paid_tokens
        ⊳ check_tokens_iff s v.disallowed_accounts invalid_disallowed_account
        & extensions_iff v
        & warn_if-Passes _ _
        ⊳ check_fees_iff s v.price (has_token_program s v) (has_tokens v.allowed_spl_paid_tokens)
        & paid_iff v.allowed_tokens paid
        & refl
        ⊳ check_price_iff s c v.price
        & warn_if-Passes _ _
        ⊳ usage_iff s k.enabled k.fallback_if_unavailable k.cache_url k.max_transactions
        & skip_iff s skip (check_chain s c) (ChainHolds s c) (check_chain_iff s c)
        & last_iff (check_signers_iff s path) in
      iff_trans (all_of_iff (checks s c skip path)) (
        iff_trans asked (
          λ (a, (j, ((n, t), (p, (d, (e, (f, (w, (x, (u, (h, g))))))))))).
              (a, j, n, t, p, d, e, f, w, x, u, h, g),
          λ (a, j, n, t, p, d, e, f, w, x, u, h, g).
              (a, (j, ((n, t), (p, (d, (e, (f, (w, (x, (u, (h, g))))))))))),
        ))

  reported_iff :
      (es : List ConfigError) (ws : List ConfigWarning)
      → ((vs : List ConfigWarning) × ((if is_empty es then valid ws else invalid es) ≡ valid vs))
        ↔ (es ≡ [])
  reported_iff [] ws = (λ _. refl, λ _. (ws, refl))
  reported_iff (e ∷ es) ws = (λ (vs, h). ground arith, λ h. ground arith)

  outcome_iff : (r : Report) → ((ws : List ConfigWarning) × (outcome s r ≡ valid ws)) ↔ Passes r
  outcome_iff r = reported_iff r.errors r.warnings

  -- The validator accepts a configuration exactly if: the payment address is a key, the Jupiter
  -- price source has its API key, there is an allowed token and all tokens, paid tokens and
  -- disallowed accounts are keys, all extension names are known, fees can be paid, paid tokens are
  -- allowed, the price is sound, the usage limit has a Redis server whose URL begins with
  -- `redis://` or `rediss://` and which answers or may do without, or no server and may do without,
  -- the programs and tokens have accounts of their types on the chain and the payment address
  -- misses none of its token accounts, unless the chain is skipped, and the file of signers, if
  -- any, loads; no warning refuses it.
  pub validate_with_result_and_signers_iff :
      (c : Config F) (skip : Bool) (path : Option String)
      → ((ws : List ConfigWarning) × (validate_with_result_and_signers s (ok c) skip path
            ≡ valid ws))
        ↔ IsDeployable s c skip path
  unfolding validate_with_result_and_signers
  validate_with_result_and_signers_iff c skip path =
      iff_trans (outcome_iff (all_of (checks s c skip path))) (checks_iff c skip path)

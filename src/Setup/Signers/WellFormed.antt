-- ===== src/Setup/Signers/WellFormed.antt =====
-- The configurations of signers that the checks accept, one check after the other.
use solus_protocol.Base.{
  ℕ, String, false, Option, none, some, List, [], ◌∷◌, ◌≡◌, ◌≢◌, ◌↔◌, inl, inr, refl, ◌==◌,
  string_eq, nat_eq, Bool-cases, All, contains, is_empty, arith,
}
use solus_protocol.Error.{ok, validation_error, fail_if}
use solus_protocol.Pool.{SelectionStrategy, weighted, round_robin, at_random}
use solus_protocol.Setup.Signers.{
  SignerConfig, SignerPoolConfig, env_vars, expect_env_vars, validate_individual_signer_config,
  validate_signer_not_empty, expect_new_names, validate_signer_names, is_zero_weight,
  expect_weights, validate_strategy_weights, validate_each, validate_signer_config,
}

abbrev pub IsNamed : SignerConfig → Type 0
IsNamed s = (s.name ≢ "") × All (λ v. v ≢ "") (env_vars s.config)

abbrev pub NamesDiffer : List SignerConfig → Type 0
NamesDiffer [] = Unit
NamesDiffer (s ∷ ss) = All (λ t. s.name ≢ t.name) ss × NamesDiffer ss

abbrev pub IsWellFormed : SignerPoolConfig → Type 0
IsWellFormed c =
    (c.signers ≢ [])
    × All IsNamed c.signers
    × NamesDiffer c.signers
    × (c.strategy ≡ weighted → All (λ s. s.weight ≢ some 0) c.signers)

differs_iff : (s t : String) → ((s == t) ≡ false) ↔ (s ≢ t)
differs_iff s t = (
  λ h e. elim (Bool-cases (s == t)) [
    | inl m ↦ cc
    | inr m ↦ (let m' = (string_eq.equal_iff s t).1 e in cc)
  ],
  λ h. elim (Bool-cases (s == t)) [
    | inl m ↦ elim (h ((string_eq.equal_iff s t).0 m)) [ ]
    | inr m ↦ m
  ],
)

expect_env_vars_iff : (vs : List String) → (expect_env_vars vs ≡ ok tt) ↔ All (λ v. v ≢ "") vs
unfolding expect_env_vars
expect_env_vars_iff [] = (λ _. tt, λ _. refl)
expect_env_vars_iff (v ∷ vs) = ground (arith, expect_env_vars_iff vs, differs_iff v "")

individual_iff : (s : SignerConfig) → (validate_individual_signer_config s ≡ ok tt) ↔ IsNamed s
unfolding validate_individual_signer_config
individual_iff s = ground (arith, expect_env_vars_iff (env_vars s.config), differs_iff s.name "")

validate_each_iff : (ss : List SignerConfig) → (validate_each ss ≡ ok tt) ↔ All IsNamed ss
unfolding validate_each
validate_each_iff [] = (λ _. tt, λ _. refl)
validate_each_iff (s ∷ ss) = ground (arith, individual_iff s, validate_each_iff ss)

not_zero_iff : (w : Option ℕ) → (is_zero_weight w ≡ false) ↔ (w ≢ some 0)
not_zero_iff none = ground arith
not_zero_iff (some n) = ground arith

expect_weights_iff :
    (ss : List SignerConfig) → (expect_weights ss ≡ ok tt) ↔ All (λ s. s.weight ≢ some 0) ss
unfolding expect_weights
expect_weights_iff [] = (λ _. tt, λ _. refl)
expect_weights_iff (s ∷ ss) = ground (arith, not_zero_iff s.weight, expect_weights_iff ss)

-- No name of the list is the name of a signer.
abbrev Apart : List String → List SignerConfig → Type 0
Apart names ss = All (λ n. All (λ t. n ≢ t.name) ss) names

contains-false_iff :
    (names : List String) (n : String) → (contains names n ≡ false) ↔ All (λ m. m ≢ n) names
contains-false_iff [] n = (λ _. tt, λ _. refl)
contains-false_iff (m ∷ names) n = ground (arith, differs_iff m n, contains-false_iff names n)

Apart-nil : (names : List String) → Apart names []
Apart-nil [] = tt
Apart-nil (n ∷ names) = (tt, Apart-nil names)

Apart-cons :
    (names : List String) (s : SignerConfig) (ss : List SignerConfig)
    → Apart names (s ∷ ss) ↔ (All (λ m. m ≢ s.name) names × Apart names ss)
Apart-cons [] s ss = (λ _. (tt, tt), λ _. tt)
Apart-cons (n ∷ names) s ss =
    let (f, g) = Apart-cons names s ss in
    (
      λ ((d, ds), rest). let (a, b) = f rest in ((d, a), (ds, b)),
      λ ((d, a), (ds, b)). ((d, ds), g (a, b)),
    )

expect_new_names_iff :
    (names : List String) (ss : List SignerConfig)
    → (expect_new_names names ss ≡ ok tt) ↔ (Apart names ss × NamesDiffer ss)
unfolding expect_new_names
expect_new_names_iff names [] = (λ _. (Apart-nil names, tt), λ _. refl)
expect_new_names_iff names (s ∷ ss) = ground (
  arith,
  contains-false_iff names s.name,
  expect_new_names_iff (s.name ∷ names) ss,
  Apart-cons names s ss,
)

nonempty_iff :
    (ss : List SignerConfig) → (fail_if (is_empty ss) validation_error ≡ ok tt) ↔ (ss ≢ [])
nonempty_iff [] = ground arith
nonempty_iff (s ∷ ss) = ground arith

strategy_iff :
    (strategy : SelectionStrategy) (ss : List SignerConfig)
    → (validate_strategy_weights (record { strategy = strategy; signers = ss }) ≡ ok tt)
      ↔ (strategy ≡ weighted → All (λ s. s.weight ≢ some 0) ss)
unfolding validate_strategy_weights
strategy_iff weighted ss = let (f, g) = expect_weights_iff ss in (λ h _. f h, λ h. g (h refl))
strategy_iff round_robin ss = (λ _ e. ground arith, λ _. refl)
strategy_iff at_random ss = (λ _ e. ground arith, λ _. refl)

pub validate_signer_config_iff :
    (c : SignerPoolConfig) → (validate_signer_config c ≡ ok tt) ↔ IsWellFormed c
unfolding validate_signer_config validate_signer_not_empty validate_signer_names
validate_signer_config_iff c = ground (
  arith,
  nonempty_iff c.signers,
  validate_each_iff c.signers,
  expect_new_names_iff [] c.signers,
  strategy_iff c.strategy c.signers,
)

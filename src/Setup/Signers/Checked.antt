-- ===== src/Setup/Signers/Checked.antt =====
-- What the two ways of checking a signer configuration accept.
use solus_protocol.Base.{
  String, Bool, true, false, List, [], ◌∷◌, ◌++◌, ◌≡◌, ◌↔◌, ◌⊎◌, inl, inr, refl, subst, ◌==◌,
  string_eq, nat_eq, Bool-cases, contains, is_empty, arith,
}
use solus_protocol.Error.{Result, ok, err, validation_error, fail_if, ◌>>◌, >>=-eq-ok, ok-injective}
use solus_protocol.Pool.{is_weighted}
use solus_protocol.Setup.Signers.{
  SignerConfig, SignerPoolConfig, SignerError, no_signers, invalid_signer, duplicate_name,
  zero_weight, env_vars, expect_env_vars, validate_individual_signer_config,
  validate_signer_not_empty, expect_new_names, validate_signer_names, is_zero_weight,
  expect_weights, validate_strategy_weights, validate_each, validate_signer_config, try_result,
  try_each, signer_errors, load_config,
}
use solus_protocol.Setup.Signers.WellFormed.{IsWellFormed, validate_signer_config_iff}

-- A check answers or fails with a validation error, which is what `try_result` keeps.
IsCheck : Result (Unit {0}) → Type 0
IsCheck r = (r ≡ ok tt) ⊎ (r ≡ err validation_error)

fail_if-IsCheck : (b : Bool) → IsCheck (fail_if b validation_error)
unfolding IsCheck
fail_if-IsCheck true = inr refl
fail_if-IsCheck false = inl refl

>>-IsCheck : (a b : Result (Unit {0})) → IsCheck a → IsCheck b → IsCheck (a >> b)
unfolding IsCheck
>>-IsCheck a b p q = ground arith

expect_env_vars-IsCheck : (vs : List String) → IsCheck (expect_env_vars vs)
unfolding expect_env_vars IsCheck
expect_env_vars-IsCheck [] = inl refl
expect_env_vars-IsCheck (v ∷ vs) =
    >>-IsCheck _ _ (fail_if-IsCheck (v == "")) (expect_env_vars-IsCheck vs)

expect_new_names-IsCheck :
    (names : List String) (ss : List SignerConfig) → IsCheck (expect_new_names names ss)
unfolding expect_new_names IsCheck
expect_new_names-IsCheck names [] = inl refl
expect_new_names-IsCheck names (s ∷ ss) =
    >>-IsCheck _ _ (fail_if-IsCheck (contains names s.name))
      (expect_new_names-IsCheck (s.name ∷ names) ss)

expect_weights-IsCheck : (ss : List SignerConfig) → IsCheck (expect_weights ss)
unfolding expect_weights IsCheck
expect_weights-IsCheck [] = inl refl
expect_weights-IsCheck (s ∷ ss) =
    >>-IsCheck _ _ (fail_if-IsCheck (is_zero_weight s.weight)) (expect_weights-IsCheck ss)

strategy-IsCheck : (c : SignerPoolConfig) → IsCheck (validate_strategy_weights c)
unfolding validate_strategy_weights IsCheck
strategy-IsCheck c = elim (Bool-cases (is_weighted c.strategy)) [
  | inl w ↦ (let checked = expect_weights-IsCheck c.signers in ground arith)
  | inr w ↦ ground arith
]

individual-IsCheck : (s : SignerConfig) → IsCheck (validate_individual_signer_config s)
unfolding validate_individual_signer_config
individual-IsCheck s =
    >>-IsCheck _ _ (fail_if-IsCheck (s.name == "")) (expect_env_vars-IsCheck (env_vars s.config))

try_result_iff :
    (e : SignerError) (r : Result (Unit {0})) → IsCheck r → (try_result e r ≡ []) ↔ (r ≡ ok tt)
unfolding try_result IsCheck
try_result_iff e (ok a) h = ground arith
try_result_iff e (err k) h = ground arith

-- The errors of checks in a row, and the checks in a row.
append->>_iff :
    (xs ys : List SignerError) (a b : Result (Unit {0}))
    → (xs ≡ []) ↔ (a ≡ ok tt)
    → (ys ≡ []) ↔ (b ≡ ok tt)
    → (xs ++ ys ≡ []) ↔ (a >> b ≡ ok tt)
append->>_iff [] ys (ok tt) b p q = q
append->>_iff [] ys (err e) b p q = (let bad : err e ≡ ok tt = p.0 refl in ground arith)
append->>_iff (x ∷ xs) ys (ok tt) b p q = (let bad : x ∷ xs ≡ [] = p.1 refl in ground arith)
append->>_iff (x ∷ xs) ys (err e) b p q = (λ h. ground arith, λ h. ground arith)

try_each_iff : (ss : List SignerConfig) → (try_each ss ≡ []) ↔ (validate_each ss ≡ ok tt)
unfolding try_each validate_each
try_each_iff [] = (λ _. refl, λ _. refl)
try_each_iff (s ∷ ss) =
    append->>_iff _ _ _ _
      (try_result_iff invalid_signer (validate_individual_signer_config s) (individual-IsCheck s))
      (try_each_iff ss)

not_empty-IsCheck : (c : SignerPoolConfig) → IsCheck (validate_signer_not_empty c)
unfolding validate_signer_not_empty
not_empty-IsCheck c = fail_if-IsCheck (is_empty c.signers)

names-IsCheck : (c : SignerPoolConfig) → IsCheck (validate_signer_names c)
unfolding validate_signer_names
names-IsCheck c = expect_new_names-IsCheck [] c.signers

pub signer_errors_iff :
    (c : SignerPoolConfig) → (signer_errors c ≡ []) ↔ (validate_signer_config c ≡ ok tt)
unfolding signer_errors validate_signer_config
signer_errors_iff c = append->>_iff _ _ _ _ (try_result_iff no_signers _ (not_empty-IsCheck c)) (
    append->>_iff _ _ _ _ (try_each_iff c.signers) (
      append->>_iff _ _ _ _ (try_result_iff duplicate_name _ (names-IsCheck c))
        (try_result_iff zero_weight _ (strategy-IsCheck c))))

-- A configuration that `load_config` gives is well formed, and the detailed checks find nothing in it.
pub load_config-IsWellFormed :
    (read_config : String → Result SignerPoolConfig) (path : String) {c : SignerPoolConfig}
    → load_config read_config path ≡ ok c
    → IsWellFormed c × (signer_errors c ≡ [])
unfolding load_config
load_config-IsWellFormed read_config path {c} h =
    let (d, _, h₁) = >>=-eq-ok (read_config path) _ {b = c} h in
    let (u, checked, h₂) = >>=-eq-ok (validate_signer_config d) (λ _. ok d) {b = c} h₁ in
    let valid : validate_signer_config c ≡ ok tt =
      subst (λ e. validate_signer_config e ≡ ok tt) (ok-injective h₂) checked in
    ((validate_signer_config_iff c).0 valid, (signer_errors_iff c).1 valid)

-- Loading a configuration of signers accepts it, and the detailed validation finds no error in it,
-- exactly if it has a signer, every signer has a name and names for all its environment variables,
-- no two signers have one name, and under the weighted strategy no signer has the weight 0.
pub signers_checked_iff :
    (c : SignerPoolConfig)
    → ((validate_signer_config c ≡ ok tt) ↔ IsWellFormed c)
      × ((signer_errors c ≡ []) ↔ IsWellFormed c)
signers_checked_iff c =
    let (f, g) = signer_errors_iff c in
    let (f', g') = validate_signer_config_iff c in ((f', g'), (λ h. f' (f h), λ h. g (g' h)))

-- ===== src/Setup/Validator/Chain.antt =====
-- When the checks of the chain and of the signers report no error.
use solus_protocol.Base.{
  iff_trans, String, Bool, true, false, not, Option, none, some, List, [], ◌∷◌, map, ◌≡◌, ◌↔◌, refl,
  subst, sym, ap, nat_eq, string_eq, is_empty, if◌then◌else◌, arith,
}
use solus_protocol.Error.{Result, ok, err}
use solus_protocol.Instruction.{Pubkey}
use solus_protocol.Config.{SplTokenConfig, as_slice, Config}
use solus_protocol.AccountType.{mint, program}
use solus_protocol.Setup.Signers.{SignerPoolConfig, load_config}
use solus_protocol.Setup.Signers.Checked.{load_config-IsWellFormed}
use solus_protocol.Setup.Report.{
  Report, fine, complain, complain_if, each, missing_atas, atas_unknown, program_failed,
  token_failed, paid_token_failed, signer_error, invalid_payment_address,
}
use solus_protocol.Setup.Report.Errors.{Passes, all_of_iff, each_iff}
use solus_protocol.Setup.Atas.{AtaToCreate, find_missing_atas}
use solus_protocol.Setup.Checks.{
  Surroundings, check_account, check_token_mint_extensions, check_atas, check_chain, check_signers,
  check_loaded,
}
use solus_protocol.Setup.Validator.Conditions.{HasType, ChainHolds}
use solus_protocol.Setup.Validator.Parts.{known_iff, some-injective}
use solus_protocol.Setup.Validator.Services.{check_account_iff, mint_extensions-Passes}

module _ {F D : Type 0} (s : Surroundings F D) where
  no_atas_iff :
      (r : Result (List AtaToCreate))
      → Passes (elim r [
        | ok atas ↦ complain_if (not (is_empty atas)) missing_atas
        | err e ↦ complain atas_unknown
      ])
        ↔ (r ≡ ok [])
  no_atas_iff (ok []) = (λ _. refl, λ _. refl)
  no_atas_iff (ok (a ∷ atas)) = (λ h. ground arith, λ h. ground arith)
  no_atas_iff (err e) = (λ h. ground arith, λ h. ground arith)

  payment_atas_iff :
      (paid : SplTokenConfig) (o : Option Pubkey)
      → Passes (elim o [
        | none ↦ complain invalid_payment_address
        | some k ↦ elim (find_missing_atas s.chain k paid) [
          | ok atas ↦ complain_if (not (is_empty atas)) missing_atas
          | err e ↦ complain atas_unknown
        ]
      ])
        ↔ ((k : Pubkey) × (o ≡ some k) × (find_missing_atas s.chain k paid ≡ ok []))
  payment_atas_iff paid none = (λ h. ground arith, λ (k, e, _). ground arith)
  payment_atas_iff paid (some k) =
      let (f, g) = no_atas_iff (find_missing_atas s.chain k paid) in
      (
        λ h. (k, refl, f h),
        λ (j, e, h).
            g (subst (λ i. find_missing_atas s.chain i paid ≡ ok []) (sym (some-injective e)) h),
      )

  check_atas_iff :
      (paid : SplTokenConfig) (o : Option String)
      → Passes (check_atas s paid o) ↔ (
          (address : String)
          → o ≡ some address
          → (k : Pubkey) × (s.chain.from_str address ≡ some k)
            × (find_missing_atas s.chain k paid ≡ ok []))
  check_atas_iff paid none = (λ _ a e. ground arith, λ _. refl)
  check_atas_iff paid (some a) = iff_trans (payment_atas_iff paid (s.chain.from_str a)) (
      known_iff s
        (λ a.
          (k : Pubkey) × (s.chain.from_str a ≡ some k) × (find_missing_atas s.chain k paid ≡ ok []))
        a)

  pub check_chain_iff : (c : Config F) → Passes (check_chain s c) ↔ ChainHolds s c
  check_chain_iff c =
      let paid = as_slice c.validation.allowed_spl_paid_tokens in
      let (f, g) = all_of_iff (
        each (check_account s program program_failed) c.validation.allowed_programs
        ∷ each (check_account s mint token_failed) c.validation.allowed_tokens
        ∷ each (check_account s mint paid_token_failed) paid
        ∷ check_token_mint_extensions s c.validation.allowed_tokens
        ∷ check_atas s c.validation.allowed_spl_paid_tokens c.kora.payment_address
        ∷ []) in
      let (p, p') =
        each_iff (check_account s program program_failed) (HasType s program)
          (check_account_iff s program program_failed) c.validation.allowed_programs in
      let (t, t') =
        each_iff (check_account s mint token_failed) (HasType s mint)
          (check_account_iff s mint token_failed) c.validation.allowed_tokens in
      let (q, q') =
        each_iff (check_account s mint paid_token_failed) (HasType s mint)
          (check_account_iff s mint paid_token_failed) paid in
      let (a, a') = check_atas_iff c.validation.allowed_spl_paid_tokens c.kora.payment_address in
      (
        λ h. let (h₁, (h₂, (h₃, (_, (h₅, _))))) = f h in (p h₁, t h₂, q h₃, a h₅),
        λ (h₁, h₂, h₃, h₅). g (
          p' h₁,
          (t' h₂, (q' h₃, (mint_extensions-Passes s c.validation.allowed_tokens, (a' h₅, tt)))),
        ),
      )

  pub skip_iff :
      (skip : Bool) (r : Report) (P : Type 0)
      → Passes r ↔ P
      → Passes (if skip then fine else r) ↔ (skip ≡ false → P)
  skip_iff true r P h = (λ _ e. ground arith, λ _. refl)
  skip_iff false r P (f, g) = (λ h _. f h, λ h. g (h refl))

  loaded_iff :
      (file : String) (r : Result SignerPoolConfig)
      → load_config s.read_config file ≡ r
      → Passes (check_loaded s r) ↔ ((p : SignerPoolConfig) × (r ≡ ok p))
  loaded_iff file (ok p) h =
      let (_, e) = load_config-IsWellFormed s.read_config file {c = p} h in
      (λ _. (p, refl), λ _. ap (map signer_error) e)
  loaded_iff file (err e) h = (λ h. ground arith, λ (p, h). ground arith)

  pub check_signers_iff :
      (path : Option String)
      → Passes (check_signers s path) ↔ (
          (file : String)
          → path ≡ some file
          → (p : SignerPoolConfig) × (load_config s.read_config file ≡ ok p))
  check_signers_iff none = (λ _ a e. ground arith, λ _. refl)
  check_signers_iff (some path) =
      iff_trans (loaded_iff path (load_config s.read_config path) refl) (
        known_iff s (λ file. (p : SignerPoolConfig) × (load_config s.read_config file ≡ ok p)) path)

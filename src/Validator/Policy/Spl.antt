-- ===== src/Validator/Policy/Spl.antt =====
-- The checks on the token programs' instructions, against the policy on each value.
use solus_protocol.Base.{
  Bool, false, ◌≡◌, ◌↔◌, sym, subst, List, [], nat_eq, All, All-zip_map, arith,
}
use solus_protocol.Base.Table.{
  get_or_empty, push_all, All-select, All-of_select, get_or_empty-push_all,
}
use solus_protocol.Error.{Result, ok}
use solus_protocol.Instruction.{Pubkey}
use solus_protocol.Config.{FeePayerPolicy}
use solus_protocol.Parse.{
  ParsedSplType, ParsedSplData, SplTable, SplEntry, system_type_eq, spl_type_eq, spl_transfer,
  spl_burn, spl_close_account, spl_approve, spl_revoke, spl_set_authority, spl_mint_to,
  spl_initialize_mint, spl_initialize_account, spl_initialize_multisig, spl_freeze_account,
  spl_thaw_account, burn_data,
}
use solus_protocol.Validator.Usage.{
  spl_account, spl_signers, spl_refused, multisig_refused, refuse_any, validate_spl,
  validate_spl_multisig, validate_spl_usage,
}
use solus_protocol.Validator.Policy.{spl_kind, spl_flag, SplPermitted}
use solus_protocol.Validator.Policy.System.{refuse_any_iff}

-- The macro that checks each kind.
abbrev refused_as : Pubkey → ParsedSplType → ParsedSplData → Bool → Bool → Bool
refused_as fee_payer spl_initialize_multisig d = multisig_refused fee_payer (spl_signers d)
refused_as fee_payer k d = spl_refused fee_payer (spl_account k d)

module _ (policy : FeePayerPolicy) (fee_payer : Pubkey) where
  abbrev NotRefused : ParsedSplType → ParsedSplData → Type 0
  NotRefused k d =
      refused_as fee_payer k d (spl_flag policy.spl_token k) (spl_flag policy.token_2022 k) ≡ false

  NotRefused-iff : (d : ParsedSplData) → NotRefused (spl_kind d) d ↔ SplPermitted policy fee_payer d
  NotRefused-iff (burn_data _ _) = ground arith
  NotRefused-iff _ = ground arith

  abbrev pub IsFiled : SplEntry → Type 0
  IsFiled e = e.0 ≡ spl_kind e.1

  abbrev Checked : SplTable → ParsedSplType → Type 0
  Checked t k =
      refuse_any
        (λ d. refused_as fee_payer k d (spl_flag policy.spl_token k) (spl_flag policy.token_2022 k))
        (get_or_empty k t)
      ≡ ok tt

  passes : SplTable → ParsedSplType → Result (Unit {0})
  passes t spl_initialize_multisig =
      validate_spl_multisig fee_payer t spl_initialize_multisig
        policy.spl_token.allow_initialize_multisig policy.token_2022.allow_initialize_multisig
  passes t k =
      validate_spl fee_payer t k (spl_flag policy.spl_token k) (spl_flag policy.token_2022 k)

  Checked-of_passes : (t : SplTable) (k : ParsedSplType) → passes t k ≡ ok tt → Checked t k
  unfolding passes validate_spl validate_spl_multisig
  Checked-of_passes t spl_transfer h = h
  Checked-of_passes t _ h = h

  passes-of_usage :
      (t : SplTable) (k : ParsedSplType)
      → validate_spl_usage fee_payer policy t ≡ ok tt
      → passes t k ≡ ok tt
  unfolding validate_spl_usage passes
  passes-of_usage t spl_transfer h = ground arith
  passes-of_usage t _ h = ground arith

  Checked-of_usage :
      (t : SplTable) (k : ParsedSplType)
      → validate_spl_usage fee_payer policy t ≡ ok tt
      → Checked t k
  Checked-of_usage t k h = Checked-of_passes t k (passes-of_usage t k h)

  usage-of_Checked :
      (t : SplTable)
      → ((k : ParsedSplType) → Checked t k)
      → validate_spl_usage fee_payer policy t ≡ ok tt
  unfolding validate_spl_usage validate_spl validate_spl_multisig
  usage-of_Checked t k = rw (
    k spl_transfer,
    k spl_approve,
    k spl_burn,
    k spl_close_account,
    k spl_revoke,
    k spl_set_authority,
    k spl_mint_to,
    k spl_initialize_mint,
    k spl_initialize_account,
    k spl_initialize_multisig,
    k spl_freeze_account,
    k spl_thaw_account,
  )

  -- At the table of a list of entries that are filed by their kind.
  pub validate_spl_usage_iff :
      (es : List SplEntry) (filed : All IsFiled es)
      → (validate_spl_usage fee_payer policy (push_all es []) ≡ ok tt)
        ↔ All (λ e. SplPermitted policy fee_payer e.1) es
  validate_spl_usage_iff es filed = (
    λ h.
        All-zip_map IsFiled (λ e. NotRefused e.0 e.1) (λ e. SplPermitted policy fee_payer e.1) es
          (λ e f n. (NotRefused-iff e.1).0 (subst (λ k. NotRefused k e.1) f n)) filed
          (All-of_select NotRefused es λ k.
            subst (All (NotRefused k)) (get_or_empty-push_all k es []) (
              (refuse_any_iff _ (get_or_empty k (push_all es []))).0
                (Checked-of_usage (push_all es []) k h))),
    λ h. usage-of_Checked (push_all es []) λ k.
        (refuse_any_iff _ (get_or_empty k (push_all es []))).1 (
          subst (All (NotRefused k)) (sym (get_or_empty-push_all k es [])) (
            All-select NotRefused es
              (All-zip_map IsFiled (λ e. SplPermitted policy fee_payer e.1)
                (λ e. NotRefused e.0 e.1) es
                (λ e f n. subst (λ k. NotRefused k e.1) (sym f) ((NotRefused-iff e.1).1 n)) filed h)
              k)),
  )

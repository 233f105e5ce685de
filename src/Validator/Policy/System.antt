-- ===== src/Validator/Policy/System.antt =====
-- The checks on the System program's instructions, against the policy on each value.
use solus_protocol.Base.{
  Bool, true, false, not, ◌&&◌, ◌≡◌, ◌≢◌, ◌↔◌, refl, sym, subst, ◌∙◌, List, [], ◌∷◌, ◌==◌, nat_eq,
  All, All-zip_map, arith, any, inl, inr, Bool-cases,
}
use solus_protocol.Base.Table.{
  get_or_empty, contains_key, push_all, All-select, All-of_select, get_or_empty-push_all,
  contains_key-push_all,
}
use solus_protocol.Error.{ok}
use solus_protocol.Instruction.{Pubkey}
use solus_protocol.Config.{FeePayerPolicy}
use solus_protocol.Parse.{
  ParsedSystemType, ParsedSystemData, SystemTable, SystemEntry, system_type_eq, spl_type_eq,
  system_tag_iff, system_transfer, system_create_account, system_withdraw_nonce_account,
  system_assign, system_allocate, system_initialize_nonce_account, system_advance_nonce_account,
  system_authorize_nonce_account, assign_data,
}
use solus_protocol.Validator.Usage.{
  system_account, system_refused, refuse_any, validate_system, validate_system_usage,
}
use solus_protocol.Validator.Policy.{system_kind, system_flag, SystemPermitted, DurableAllowed}

pub refuse_any_iff :
    {D : Type 0} (refused : D → Bool) (ds : List D)
    → (refuse_any refused ds ≡ ok tt) ↔ All (λ d. refused d ≡ false) ds
unfolding refuse_any
refuse_any_iff refused [] = (λ _. tt, λ _. refl)
refuse_any_iff refused (d ∷ ds) = ground (arith, refuse_any_iff refused ds)

no_key_iff :
    (k : ParsedSystemType) (es : List SystemEntry)
    → (any (λ e. k == e.0) es ≡ false) ↔ All (λ e. e.0 ≢ k) es
no_key_iff k [] = (λ _. tt, λ _. refl)
no_key_iff k (e ∷ es) = elim (Bool-cases (k == e.0)) [
  | inl q ↦ rw q (λ h. cc, λ h. absurd (h.0 (sym ((system_tag_iff k e.0).0 q))))
  | inr q ↦ rw q (
    λ h. (λ r. cc ((system_tag_iff k e.0).1 (sym r), q), (no_key_iff k es).0 h),
    λ h. (no_key_iff k es).1 h.1,
  )
]

module _ (policy : FeePayerPolicy) (fee_payer : Pubkey) where
  abbrev NotRefused : ParsedSystemType → ParsedSystemData → Type 0
  NotRefused k d = system_refused fee_payer (system_account k d) (system_flag policy k) ≡ false

  NotRefused-iff :
      (d : ParsedSystemData) → NotRefused (system_kind d) d ↔ SystemPermitted policy fee_payer d
  NotRefused-iff (assign_data _) = ground arith
  NotRefused-iff _ = ground arith

  abbrev pub IsFiled : SystemEntry → Type 0
  IsFiled e = e.0 ≡ system_kind e.1

  abbrev Checked : SystemTable → ParsedSystemType → Type 0
  Checked t k = validate_system fee_payer t k (system_flag policy k) ≡ ok tt

  Checked-of_usage :
      (durable : Bool) (t : SystemTable) (k : ParsedSystemType)
      → validate_system_usage fee_payer policy durable t ≡ ok tt
      → Checked t k
  unfolding validate_system_usage
  Checked-of_usage durable t system_transfer h = ground arith
  Checked-of_usage durable t _ h = ground arith

  guard-of_usage :
      (durable : Bool) (t : SystemTable)
      → validate_system_usage fee_payer policy durable t ≡ ok tt
      → (not durable && contains_key system_advance_nonce_account t) ≡ false
  unfolding validate_system_usage
  guard-of_usage durable t h = ground arith

  usage-of_Checked :
      (durable : Bool) (t : SystemTable)
      → (not durable && contains_key system_advance_nonce_account t) ≡ false
      → ((k : ParsedSystemType) → Checked t k)
      → validate_system_usage fee_payer policy durable t ≡ ok tt
  unfolding validate_system_usage
  usage-of_Checked durable t h k = ground (
    arith,
    k system_transfer,
    k system_assign,
    k system_allocate,
    k system_create_account,
    k system_initialize_nonce_account,
    k system_advance_nonce_account,
    k system_authorize_nonce_account,
    k system_withdraw_nonce_account,
  )

  -- At the table of a list of entries that are filed by their kind.
  module _ (es : List SystemEntry) (filed : All IsFiled es) where
    checked_iff :
        ((k : ParsedSystemType) → Checked (push_all es []) k)
        ↔ All (λ e. SystemPermitted policy fee_payer e.1) es
    unfolding validate_system
    checked_iff = (
      λ h.
          All-zip_map IsFiled (λ e. NotRefused e.0 e.1) (λ e. SystemPermitted policy fee_payer e.1)
            es (λ e f n. (NotRefused-iff e.1).0 (subst (λ k. NotRefused k e.1) f n)) filed
            (All-of_select NotRefused es λ k.
              subst (All (NotRefused k)) (get_or_empty-push_all k es [])
                ((refuse_any_iff _ (get_or_empty k (push_all es []))).0 (h k))),
      λ h k. (refuse_any_iff _ (get_or_empty k (push_all es []))).1 (
          subst (All (NotRefused k)) (sym (get_or_empty-push_all k es [])) (
            All-select NotRefused es
              (All-zip_map IsFiled (λ e. SystemPermitted policy fee_payer e.1)
                (λ e. NotRefused e.0 e.1) es
                (λ e f n. subst (λ k. NotRefused k e.1) (sym f) ((NotRefused-iff e.1).1 n)) filed h)
              k)),
    )

    guard_iff :
        (durable : Bool)
        → ((not durable && contains_key system_advance_nonce_account (push_all es [])) ≡ false)
          ↔ DurableAllowed durable es
    guard_iff true = (λ h r. cc, λ h. refl)
    guard_iff false =
        (λ h _. (no_key_iff _ es).0 (found ∙ h), λ h. sym found ∙ (no_key_iff _ es).1 (h refl))
      where
        found :
            any (λ e. system_advance_nonce_account == e.0) es
            ≡ contains_key system_advance_nonce_account (push_all es [])
        found = ground (arith, contains_key-push_all system_advance_nonce_account es [])

    pub validate_system_usage_iff :
        (durable : Bool)
        → (validate_system_usage fee_payer policy durable (push_all es []) ≡ ok tt)
          ↔ (DurableAllowed durable es × All (λ e. SystemPermitted policy fee_payer e.1) es)
    validate_system_usage_iff durable = (
      λ h. (
        (guard_iff durable).0 (guard-of_usage durable _ h),
        checked_iff.0 (λ k. Checked-of_usage durable _ k h),
      ),
      λ h. usage-of_Checked durable _ ((guard_iff durable).1 h.0) (checked_iff.1 h.1),
    )

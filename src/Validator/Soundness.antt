-- ===== src/Validator/Soundness.antt =====
-- What a validated transaction satisfies (kora/crates/lib/src/validator/transaction_validator.rs).
use solus_protocol.Base.{
  ℕ, ◌≤◌, ◌<◌, ◌≡◌, ◌↔◌, refl, true, false, List, [], ◌∷◌, arith, All, nat_eq, contains, ltb,
  length, is_empty,
}
use solus_protocol.Error.{ok, invalid_transaction, fail_if, ◌>>◌, >>=-eq-ok}
use solus_protocol.Instruction.{Pubkey, Instruction}
use solus_protocol.External.{External}
use solus_protocol.Parse.{pubkeys}
use solus_protocol.Transaction.{VersionedTransaction, Resolved}
use solus_protocol.Token.Outflow.{Groups}
use solus_protocol.Fee.Outflow.{calculate_fee_payer_outflow}
use solus_protocol.Validator.Checks.{
  TransactionValidator, validate_signatures, validate_programs, validate_accounts,
  validate_disallowed_accounts,
}
use solus_protocol.Validator.Policy.Refinement.{UsagePermitted, validate_fee_payer_usage_iff}
use solus_protocol.Validator.Validate.{validate_transfer_amounts, validate_transaction}

module _ (v : TransactionValidator) where
  abbrev pub IsAllowed : Instruction → Type 0
  IsAllowed ix = contains v.allowed_programs ix.program_id ≡ true

  abbrev pub IsNotDisallowed : Instruction → Type 0
  IsNotDisallowed ix =
      (contains v.disallowed_accounts ix.program_id ≡ false)
      × All (λ k. contains v.disallowed_accounts k ≡ false) (pubkeys ix.accounts)

  validate_programs_iff :
      (ixs : List Instruction) → (validate_programs v ixs ≡ ok tt) ↔ All IsAllowed ixs
  unfolding validate_programs
  validate_programs_iff [] = (λ _. tt, λ _. refl)
  validate_programs_iff (ix ∷ ixs) = ground (arith, validate_programs_iff ixs)

  validate_accounts_iff :
      (ks : List Pubkey)
      → (validate_accounts v ks ≡ ok tt) ↔ All (λ k. contains v.disallowed_accounts k ≡ false) ks
  unfolding validate_accounts
  validate_accounts_iff [] = (λ _. tt, λ _. refl)
  validate_accounts_iff (k ∷ ks) = ground (arith, validate_accounts_iff ks)

  validate_disallowed_accounts_iff :
      (ixs : List Instruction)
      → (validate_disallowed_accounts v ixs ≡ ok tt) ↔ All IsNotDisallowed ixs
  unfolding validate_disallowed_accounts
  validate_disallowed_accounts_iff [] = (λ _. tt, λ _. refl)
  validate_disallowed_accounts_iff (ix ∷ ixs) =
      ground
        (arith, validate_disallowed_accounts_iff ixs, validate_accounts_iff (pubkeys ix.accounts))

  validate_signatures_iff :
      (t : VersionedTransaction)
      → (validate_signatures v t ≡ ok tt)
        ↔ ((0 < length t.signatures) × (length t.signatures ≤ v.max_signatures))
  unfolding validate_signatures
  validate_signatures_iff t = signatures_iff t.signatures
    where
      signatures_iff :
          (ss : List ℕ)
          → ((fail_if (ltb v.max_signatures (length ss)) invalid_transaction
                >> fail_if (is_empty ss) invalid_transaction)
              ≡ ok tt)
            ↔ ((0 < length ss) × (length ss ≤ v.max_signatures))
      signatures_iff [] = ground arith
      signatures_iff (s ∷ ss) = ground arith

module _ {F D : Type 0} (x : External F D) (iteration : Groups → Groups)
    (v : TransactionValidator) where
  -- The conditions on a transaction, as statements about its instructions, keys and signatures.
  abbrev pub IsValidated : Resolved → Type 0
  IsValidated r =
      (0 < length r.all_instructions)
      × (0 < length r.all_account_keys)
      × (0 < length r.transaction.signatures)
      × (length r.transaction.signatures ≤ v.max_signatures)
      × All (IsAllowed v) r.all_instructions
      × ((outflow : ℕ) × (calculate_fee_payer_outflow x iteration v.fee_payer_pubkey
              r.all_instructions
            ≡ ok outflow)
          × (outflow ≤ v.max_allowed_lamports))
      × All (IsNotDisallowed v) r.all_instructions
      × UsagePermitted x.programs v.fee_payer_policy v.fee_payer_pubkey v.allow_durable_transactions
          r.all_instructions

  nonempty_iff :
      {A : Type 0} (xs : List A)
      → (fail_if (is_empty xs) invalid_transaction ≡ ok tt) ↔ (0 < length xs)
  nonempty_iff [] = ground arith
  nonempty_iff (y ∷ ys) = ground arith

  validate_transfer_amounts_iff :
      (ixs : List Instruction)
      → (validate_transfer_amounts x iteration v ixs ≡ ok tt) ↔ (
          (outflow : ℕ) × (calculate_fee_payer_outflow x iteration v.fee_payer_pubkey ixs
            ≡ ok outflow)
          × (outflow ≤ v.max_allowed_lamports))
  unfolding validate_transfer_amounts
  validate_transfer_amounts_iff ixs = (
    λ h.
        let (o, e, k) =
          >>=-eq-ok (calculate_fee_payer_outflow x iteration v.fee_payer_pubkey ixs) _ {b = tt} h in
        (o, e, ground arith),
    λ (o, e, k). rw e (ground arith),
  )

  -- `validate_transaction` accepts exactly the transactions that have instructions, keys and one to
  -- `max_signatures` signatures, whose programs are all allowed, whose outflow from the fee payer
  -- is computed and at most `max_allowed_lamports`, that touch no disallowed key, and in which
  -- every use of the fee payer's authority is permitted by the policy.
  pub validate_transaction_iff :
      (r : Resolved) → (validate_transaction x iteration v r ≡ ok tt) ↔ IsValidated r
  unfolding validate_transaction
  validate_transaction_iff r = ground (
    arith,
    nonempty_iff r.all_instructions,
    nonempty_iff r.all_account_keys,
    validate_signatures_iff v r.transaction,
    validate_programs_iff v r.all_instructions,
    validate_transfer_amounts_iff r.all_instructions,
    validate_disallowed_accounts_iff v r.all_instructions,
    validate_fee_payer_usage_iff x.programs v.fee_payer_policy v.fee_payer_pubkey
        v.allow_durable_transactions r.all_instructions,
  )

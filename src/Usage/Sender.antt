-- ===== src/Usage/Sender.antt =====
-- Whose usage a transaction counts as: the first signer that is none of Kora's.
use solus_protocol.Base.{
  Bool, true, false, ◌≡◌, refl, ap, ◌⊎◌, inl, inr, none, some, List, [], ◌∷◌, ◌++◌, contains, take,
  is_empty, All, Bool-cases, not, nat_eq, if◌then◌else◌,
}
use solus_protocol.Error.{ok}
use solus_protocol.Instruction.{Pubkey}
use solus_protocol.Transaction.{VersionedTransaction}
use solus_protocol.Usage.{
  UsageStore, UsageTracker, first_user, extract_transaction_sender, check_usage_limit,
  check_transaction_usage_limit,
}

abbrev pub AllOfKora : List Pubkey → List Pubkey → Type 0
AllOfKora kora_signers = All (λ k. contains kora_signers k ≡ true)

abbrev pub IsFirstUser : List Pubkey → Pubkey → List Pubkey → Type 0
IsFirstUser kora_signers k signers =
    (before : List Pubkey) × (after : List Pubkey) × (signers ≡ before ++ k ∷ after)
    × AllOfKora kora_signers before
    × (contains kora_signers k ≡ false)

first_user-cases :
    (kora_signers signers : List Pubkey)
    → (AllOfKora kora_signers signers × (first_user kora_signers signers ≡ none))
      ⊎ ((k : Pubkey) × IsFirstUser kora_signers k signers
          × (first_user kora_signers signers ≡ some k))
unfolding first_user
first_user-cases kora_signers [] = inl (tt, refl)
first_user-cases kora_signers (k ∷ ks) = elim (Bool-cases (contains kora_signers k)) [
  | inr user ↦ inr (k, ([], ks, refl, tt, user), rw (user, if◌then◌else◌, not))
  | inl kora ↦ elim (first_user-cases kora_signers ks) [
    | inl (all, none_left) ↦ inl ((kora, all), rw (kora, if◌then◌else◌, not, none_left))
    | inr (j, (before, after, split, all, user), found) ↦ inr (
      j,
      (k ∷ before, after, ap (λ xs. k ∷ xs) split, (kora, all), user),
      rw (kora, if◌then◌else◌, not, found),
    )
  ]
]

module _ {S : Type 0} (store : UsageStore S) (t : UsageTracker) where
  -- With a usage limiter and any store, a transaction that has account keys is checked as one of
  -- its first signer that is none of Kora's, all signers before it being Kora's; if all signers are
  -- Kora's, it passes and the store stays as it was.
  check_transaction_usage_limit-charges :
      (enabled fallback : Bool) (tx : VersionedTransaction) (s : S)
      → is_empty tx.static_account_keys ≡ false
      → (AllOfKora t.kora_signers (take tx.num_required_signatures tx.static_account_keys)
          × (check_transaction_usage_limit store (some (some t)) enabled fallback tx s
              ≡ (ok tt, s)))
        ⊎ ((k : Pubkey) × IsFirstUser t.kora_signers k
              (take tx.num_required_signatures tx.static_account_keys)
            × (check_transaction_usage_limit store (some (some t)) enabled fallback tx s
                ≡ check_usage_limit store t k s))
  unfolding check_transaction_usage_limit extract_transaction_sender
  check_transaction_usage_limit-charges enabled fallback tx s has_keys =
      let signers = take tx.num_required_signatures tx.static_account_keys in
      elim (first_user-cases t.kora_signers signers) [
        | inl (all, found) ↦ inl (all, rw (has_keys, if◌then◌else◌, found))
        | inr (k, first, found) ↦ inr (k, first, rw (has_keys, if◌then◌else◌, found))
      ]

-- ===== src/Token/Credit.antt =====
-- What `verify_token_payment` of kora/crates/lib/src/token/token.rs counts as payment.
use solus_protocol.Base.{
  ℕ, ◌+◌, ◌≤◌, ◌≡◌, ◌≢◌, ◌⊎◌, inl, inr, sym, refl, ap, ◌∙◌, Bool, true, false, not, Option, none,
  some, List, [], ◌∷◌, ◌==◌, nat_eq, eqb_iff, leb, u64_max, arith, if◌then◌else◌, Bool-cases,
  checked_add,
}
use solus_protocol.Error.{
  ok, err, panicked, validation_error, ok_or, ◌>>=◌, >>=-eq-ok, ok-injective,
}
use solus_protocol.Instruction.{Pubkey, Instruction}
use solus_protocol.Config.{ValidationConfig, supports_token}
use solus_protocol.External.{External}
use solus_protocol.Parse.{SplTransfer}
use solus_protocol.Parse.Safety.{account_at-ok}
use solus_protocol.Token.Payment.{
  find_ata_creation_for_destination, destination_of, payment_value, sum_payments,
  verify_token_payment,
}
use solus_protocol.Token.Value.{calculate_token_value_in_lamports}

abbrev pub sum : List ℕ → ℕ
sum [] = 0
sum (v ∷ vs) = v + sum vs

-- The search for the instruction that creates the destination reads no account out of range.
pub find_ata_creation-ne-panicked :
    (ata_program : Pubkey) (ixs : List Instruction) (destination : Pubkey)
    → find_ata_creation_for_destination ata_program ixs destination ≢ err panicked
unfolding find_ata_creation_for_destination
find_ata_creation-ne-panicked ata_program [] destination = λ h. cc
find_ata_creation-ne-panicked ata_program (ix ∷ ixs) destination = ground (
  arith,
  find_ata_creation-ne-panicked ata_program ixs destination,
  account_at-ok ix 1,
  account_at-ok ix 2,
  account_at-ok ix 3,
)

module _ {F D : Type 0} (x : External F D) (config : ValidationConfig F) (ixs : List Instruction)
    (expected_owner : Pubkey) where
  -- A transfer counts for its value in lamports if its destination belongs to the expected owner and
  -- its mint is accepted, and for 0 otherwise.
  abbrev pub Credits : SplTransfer → ℕ → Type 0
  Credits t v =
      (owner : Pubkey) × (mint : Pubkey) × (destination_of x config ixs t ≡ ok (owner, mint))
      × (((owner ≡ expected_owner)
            × (supports_token config (x.to_string mint) ≡ true)
            × (calculate_token_value_in_lamports x t.amount mint ≡ ok v))
          ⊎ (((owner ≢ expected_owner) ⊎ (supports_token config (x.to_string mint) ≡ false))
              × (v ≡ 0)))

  abbrev pub AllCredit : List SplTransfer → List ℕ → Type 0
  AllCredit [] [] = Unit
  AllCredit [] (v ∷ vs) = ⊥
  AllCredit (t ∷ ts) [] = ⊥
  AllCredit (t ∷ ts) (v ∷ vs) = Credits t v × AllCredit ts vs

  abbrev value_or_zero : Option ℕ → ℕ
  value_or_zero none = 0
  value_or_zero (some v) = v

  counted :
      (a : ℕ) (owner mint : Pubkey) (o : Option ℕ)
      → (if not (owner == expected_owner)
          then ok none
          else if not (supports_token config (x.to_string mint))
          then ok none
          else (calculate_token_value_in_lamports x a mint >>= λ v. ok (some v)))
        ≡ ok o
      → ((owner ≡ expected_owner)
          × (supports_token config (x.to_string mint) ≡ true)
          × (calculate_token_value_in_lamports x a mint ≡ ok (value_or_zero o)))
        ⊎ (((owner ≢ expected_owner) ⊎ (supports_token config (x.to_string mint) ≡ false))
            × (value_or_zero o ≡ 0))
  counted a owner mint o = elim (Bool-cases (owner == expected_owner)) [
    | inr other ↦
        rw other
          (λ h. inr (inl (λ e. cc (((eqb_iff owner expected_owner).1 e), other)), ground arith))
    | inl same ↦ rw same (elim (Bool-cases (supports_token config (x.to_string mint))) [
      | inr unsupported ↦ rw unsupported (λ h. inr (inr refl, ground arith))
      | inl supported ↦
          rw supported (λ h. inl ((eqb_iff owner expected_owner).0 same, refl, ground arith))
    ])
  ]

  payment_value-Credits :
      (t : SplTransfer) (o : Option ℕ)
      → payment_value x config ixs expected_owner t ≡ ok o
      → Credits t (value_or_zero o)
  unfolding payment_value
  payment_value-Credits t o h =
      let ((owner, mint), e, k) = >>=-eq-ok (destination_of x config ixs t) _ {b = o} h in
      (owner, mint, e, counted t.amount owner mint o k)

  add_value :
      (total : ℕ) (o : Option ℕ) {r : ℕ}
      → (elim o [ none ↦ ok total | some v ↦ ok_or (checked_add total v) validation_error ]) ≡ ok r
      → total ≤ u64_max
      → (r ≡ total + value_or_zero o) × (r ≤ u64_max)
  add_value total none h k = ground arith
  add_value total (some v) h k = ground arith

  sum_payments-AllCredit :
      (ts : List SplTransfer) (total : ℕ) {r : ℕ}
      → sum_payments x config ixs expected_owner ts total ≡ ok r
      → total ≤ u64_max
      → (vs : List ℕ) × AllCredit ts vs × (r ≡ total + sum vs) × (r ≤ u64_max)
  unfolding sum_payments
  sum_payments-AllCredit [] total h k = ([], tt, ground arith, ground arith)
  sum_payments-AllCredit (t ∷ ts) total {r} h k =
      let (o, e, h₁) = >>=-eq-ok (payment_value x config ixs expected_owner t) _ {b = r} h in
      let (total', e', h₂) = >>=-eq-ok _ (sum_payments x config ixs expected_owner ts) {b = r} h₁ in
      let (q, l) = add_value total o e' k in
      let (vs, c, s, m) = sum_payments-AllCredit ts total' h₂ l in
      (value_or_zero o ∷ vs, (payment_value-Credits t o e, c), omega arith, m)

  -- A payment check that ends has credited each transfer with its value in lamports if its
  -- destination belongs to the expected owner and its mint is accepted, and with 0 otherwise; the
  -- credits sum to a u64, and the answer is whether the sum reaches the required lamports.
  pub verify_token_payment-AllCredit :
      (transfers : List SplTransfer) (required : ℕ) {paid : Bool}
      → verify_token_payment x config ixs transfers required expected_owner ≡ ok paid
      → (vs : List ℕ) × AllCredit transfers vs × (sum vs ≤ u64_max) × (paid ≡ leb required (sum vs))
  unfolding verify_token_payment
  verify_token_payment-AllCredit transfers required {paid} h =
      let (total, e, k) =
        >>=-eq-ok (sum_payments x config ixs expected_owner transfers 0) _ {b = paid} h in
      let (vs, c, s, m) = sum_payments-AllCredit transfers 0 e (omega arith) in
      (vs, c, omega arith, sym (ok-injective k) ∙ ap (leb required) (omega arith))

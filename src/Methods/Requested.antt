-- ===== src/Methods/Requested.antt =====
-- The instructions that `transfer_transaction` builds for a request, and what they have to be.
use solus_protocol.Base.{
  arith, Bool-cases, inl, inr, if◌then◌else◌, ℕ, false, ◌≡◌, sym, some, List, Bool, ◌∷◌, [], ◌≢◌,
  ◌⊎◌, ◌++◌, refl, ◌==◌, string_eq,
}
use solus_protocol.Error.{
  KoraError, err, map_err, account_not_found, Result, ok, invalid_transaction, validation_error,
  ok_or, ok_or-eq-ok, >>=-eq-ok, fail_if, fail_if-eq-ok, ok-injective,
}
use solus_protocol.Instruction.{Pubkey, Instruction}
use solus_protocol.Validator.Checks.{TransactionValidator, is_disallowed_account}
use solus_protocol.Validator.Validate.{fetch_and_validate_token_mint}
use solus_protocol.External.{Account, Mint}
use solus_protocol.Methods.{Setting}
use solus_protocol.Methods.Transfer.{
  Builders, TransferRequest, native_sol, is_err, token_instructions, transfer_instructions,
  requested_transfer,
}

map_err-eq-ok : {A : Type 0} (r : Result A) (e : KoraError) {a : A} → map_err r e ≡ ok a → r ≡ ok a
map_err-eq-ok (ok a) e h = h
map_err-eq-ok (err _) e h = ground arith

-- The account is created exactly if it is not found.
created :
    (r : Result Account) (creation transfer : Instruction) {ixs : List Instruction}
    → (if is_err r then creation ∷ [] else []) ++ transfer ∷ [] ≡ ixs
    → ((there : Account) × (r ≡ ok there) × (ixs ≡ transfer ∷ []))
      ⊎ ((e : KoraError) × (r ≡ err e) × (ixs ≡ creation ∷ transfer ∷ []))
created (ok there) creation transfer h = inl (there, refl, sym h)
created (err e) creation transfer h = inr (e, refl, sym h)

module _ {F D S : Type 0} (g : Setting F D S) (b : Builders) where
  -- A transfer of lamports: one instruction, from the source to the destination.
  abbrev IsNativeTransfer : Pubkey → Pubkey → ℕ → List Instruction → Type 0
  IsNativeTransfer source destination amount ixs = ixs ≡ b.transfer source destination amount ∷ []

  -- The associated account of a wallet for a mint of the program.
  abbrev ata : Bool → Pubkey → Pubkey → Pubkey
  ata is_2022 wallet mint =
      g.chain.associated_token_address wallet mint
        (if is_2022 then g.chain.programs.spl_token_2022 else g.chain.programs.spl_token)

  -- A transfer of tokens: from the source's associated account, which exists, to the destination's,
  -- which the fee payer creates first if it is missing, with the source as authority.
  abbrev IsTokenTransfer :
      TransactionValidator → Pubkey → Pubkey → Pubkey → Pubkey → ℕ → List Instruction → Type 0
  IsTokenTransfer v fee_payer source destination token_mint amount ixs =
      (is_2022 : Bool) × (mint : Mint) × (held : Account) × (transfer : Instruction)
      × (fetch_and_validate_token_mint g.chain g.iteration v token_mint ≡ ok (is_2022, mint))
      × (g.chain.get_account (ata is_2022 source token_mint) false ≡ ok held)
      × (b.transfer_checked is_2022 (ata is_2022 source token_mint) token_mint
            (ata is_2022 destination token_mint) source amount mint.decimals
          ≡ some transfer)
      × (((there : Account) × (g.chain.get_account (ata is_2022 destination token_mint) false
              ≡ ok there)
            × (ixs ≡ transfer ∷ []))
          ⊎ ((e : KoraError) × (g.chain.get_account (ata is_2022 destination token_mint) false
                ≡ err e)
              × (ixs
                  ≡ b.create_associated_token_account is_2022 fee_payer destination token_mint
                    ∷ transfer
                    ∷ [])))

  -- The instructions transfer the amount of the request between its accounts, which are not
  -- disallowed: lamports if the token is the native one, and tokens of the mint otherwise.
  abbrev pub IsRequested :
      TransactionValidator → Pubkey → TransferRequest → List Instruction → Type 0
  IsRequested v k request ixs =
      (source : Pubkey) × (destination : Pubkey) × (mint : Pubkey) × (g.chain.from_str
          request.source
        ≡ some source)
      × (g.chain.from_str request.destination ≡ some destination)
      × (g.chain.from_str request.token ≡ some mint)
      × (is_disallowed_account v source ≡ false)
      × (is_disallowed_account v destination ≡ false)
      × (((request.token ≡ native_sol) × IsNativeTransfer source destination request.amount ixs)
          ⊎ ((request.token ≢ native_sol)
              × IsTokenTransfer v k source destination mint request.amount ixs))

  token_instructions-IsTokenTransfer :
      (v : TransactionValidator) (k source destination token_mint : Pubkey) (amount : ℕ)
      {ixs : List Instruction}
      → token_instructions g b v k source destination token_mint amount ≡ ok ixs
      → IsTokenTransfer v k source destination token_mint amount ixs
  unfolding token_instructions
  token_instructions-IsTokenTransfer v k source destination token_mint amount {ixs} h =
      let ((is_2022, mint), e₁, h₁) =
        >>=-eq-ok (fetch_and_validate_token_mint g.chain g.iteration v token_mint) _ {b = ixs} h in
      let found = g.chain.get_account (ata is_2022 source token_mint) false in
      let (held, e₂, h₂) = >>=-eq-ok (map_err found account_not_found) _ {b = ixs} h₁ in
      let made =
        b.transfer_checked is_2022 (ata is_2022 source token_mint) token_mint
          (ata is_2022 destination token_mint) source amount mint.decimals in
      let (transfer, e₃, h₃) = >>=-eq-ok (ok_or made invalid_transaction) _ {b = ixs} h₂ in
      (
        is_2022,
        mint,
        held,
        transfer,
        e₁,
        map_err-eq-ok found account_not_found e₂,
        ok_or-eq-ok made invalid_transaction e₃,
        created (g.chain.get_account (ata is_2022 destination token_mint) false) _ _
            (ok-injective h₃),
      )

  transfer_instructions-IsTransfer :
      (v : TransactionValidator) (k : Pubkey) (request : TransferRequest)
      (source destination mint : Pubkey) {ixs : List Instruction}
      → transfer_instructions g b v k request source destination mint ≡ ok ixs
      → ((request.token ≡ native_sol) × IsNativeTransfer source destination request.amount ixs)
        ⊎ ((request.token ≢ native_sol)
            × IsTokenTransfer v k source destination mint request.amount ixs)
  unfolding transfer_instructions
  transfer_instructions-IsTransfer v k request source destination mint {ixs} h =
      elim (Bool-cases (request.token == native_sol)) [
        | inl q ↦ inl (
          (string_eq.equal_iff request.token native_sol).0 q,
          sym (ok-injective (rw (q, if◌then◌else◌) at h)),
        )
        | inr q ↦ inr (
          λ e. (let same = (string_eq.equal_iff request.token native_sol).1 e in cc),
          token_instructions-IsTokenTransfer v k source destination mint request.amount
              (rw (q, if◌then◌else◌) at h),
        )
      ]

  pub requested_transfer-IsRequested :
      (v : TransactionValidator) (k : Pubkey) (request : TransferRequest) {ixs : List Instruction}
      → requested_transfer g b v k request ≡ ok ixs
      → IsRequested v k request ixs
  unfolding requested_transfer
  requested_transfer-IsRequested v k request {ixs} h =
      let (source, e₁, h₁) =
        >>=-eq-ok (ok_or (g.chain.from_str request.source) validation_error) _ {b = ixs} h in
      let (destination, e₂, h₂) =
        >>=-eq-ok (ok_or (g.chain.from_str request.destination) validation_error) _ {b = ixs} h₁ in
      let (mint, e₃, h₃) =
        >>=-eq-ok (ok_or (g.chain.from_str request.token) validation_error) _ {b = ixs} h₂ in
      let (_, e₄, h₄) =
        >>=-eq-ok (fail_if (is_disallowed_account v source) invalid_transaction) _ {b = ixs} h₃ in
      let (_, e₅, h₅) =
        >>=-eq-ok (fail_if (is_disallowed_account v destination) invalid_transaction) _ {b = ixs}
          h₄ in
      (
        source,
        destination,
        mint,
        ok_or-eq-ok _ _ e₁,
        ok_or-eq-ok _ _ e₂,
        ok_or-eq-ok _ _ e₃,
        fail_if-eq-ok (is_disallowed_account v source) invalid_transaction e₄,
        fail_if-eq-ok (is_disallowed_account v destination) invalid_transaction e₅,
        transfer_instructions-IsTransfer v k request source destination mint h₅,
      )

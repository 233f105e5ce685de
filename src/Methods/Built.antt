-- ===== src/Methods/Built.antt =====
-- What `transfer_transaction` promises of the transaction that it builds and signs.
use solus_protocol.Base.{
  arith, ltb, Bool-cases, inl, inr, if◌then◌else◌, ℕ, ◌≡◌, ◌<◌, sym, ap, ◌∙◌, some, List, length,
  set, string_eq,
}
use solus_protocol.Error.{
  ok, serialization_error, signing_error, ok_or, ok_or-eq-ok, >>=-eq-ok, ok-injective,
}
use solus_protocol.Instruction.{Pubkey, Instruction}
use solus_protocol.Transaction.{VersionedTransaction, Resolved}
use solus_protocol.Resolve.{from_kora_built_transaction}
use solus_protocol.Validator.Checks.{TransactionValidator, new_validator}
use solus_protocol.Validator.Validate.{validate_transaction}
use solus_protocol.Validator.Soundness.{IsValidated, validate_transaction_iff}
use solus_protocol.Signing.{find_signer_position, put_signature}
use solus_protocol.Methods.{
  lift, Server, Setting, new_unsigned_versioned_transaction, request_signer,
}
use solus_protocol.Methods.Steps.{>>=-returns}
use solus_protocol.Methods.Transfer.{
  Builders, TransferRequest, TransferResponse, requested_transfer, signed_transfer, transfer_by,
  transfer_transaction,
}
use solus_protocol.Methods.Requested.{IsRequested, requested_transfer-IsRequested}

put_signature-eq-ok :
    (t : VersionedTransaction) (i signature : ℕ) {signed : VersionedTransaction}
    → put_signature t i signature ≡ ok signed
    → (i < length t.signatures) × (signed ≡ record t { signatures = set t.signatures i signature })
unfolding put_signature
put_signature-eq-ok t i signature h = elim (Bool-cases (ltb i (length t.signatures))) [
  | inl q ↦ (ground arith, ok-injective (sym (rw (q, if◌then◌else◌) at h)))
  | inr q ↦ absurd (cc (rw (q, if◌then◌else◌) at h))
]

module _ {F D S : Type 0} (g : Setting F D S) (b : Builders) where
  -- The answer carries the transaction with the signer's signature where the signer's key stands.
  abbrev pub Carries : Pubkey → Resolved → TransferResponse → Type 0
  Carries k r response =
      (i : ℕ) × (signature : ℕ) × (find_signer_position r.transaction k ≡ ok i)
      × ((g.wallet k).sign_message r.transaction ≡ some signature)
      × (i < length r.transaction.signatures)
      × (g.codecs.encode_transaction
            (record (r.transaction) { signatures = set r.transaction.signatures i signature })
          ≡ some response.transaction)

  signed_transfer-Carries :
      (k : Pubkey) (blockhash : ℕ) (t : VersionedTransaction) (r : Resolved)
      {response : TransferResponse}
      → signed_transfer g b k blockhash t r ≡ ok response
      → Carries k r response
  unfolding signed_transfer
  signed_transfer-Carries k blockhash t r {response} h =
      let (i, e₁, h₁) = >>=-eq-ok (find_signer_position r.transaction k) _ {b = response} h in
      let (signature, e₂, h₂) =
        >>=-eq-ok (ok_or ((g.wallet k).sign_message r.transaction) signing_error) _ {b = response}
          h₁ in
      let (signed, e₃, h₃) =
        >>=-eq-ok (put_signature r.transaction i signature) _ {b = response} h₂ in
      let (encoded, e₄, h₄) =
        >>=-eq-ok (ok_or (g.codecs.encode_transaction signed) serialization_error) _ {b = response}
          h₃ in
      let (message, e₅, h₅) =
        >>=-eq-ok (ok_or (g.codecs.encode_message t) serialization_error) _ {b = response} h₄ in
      let (in_range, same) = put_signature-eq-ok r.transaction i signature e₃ in
      (
        i,
        signature,
        e₁,
        ok_or-eq-ok _ _ e₂,
        in_range,
        ap g.codecs.encode_transaction (sym same)
            ∙ (ok_or-eq-ok _ _ e₄ ∙ ap (λ q. some q.transaction) (ok-injective h₅)),
      )

  abbrev pub IsBuilt : TransferRequest → Server S → Server S → TransferResponse → Type 0
  IsBuilt request before after response =
      (k : Pubkey) × (v : TransactionValidator) × (ixs : List Instruction) × (blockhash : ℕ)
      × (r : Resolved) × (request_signer g request.signer_key before ≡ (ok k, after))
      × (new_validator g.chain.from_str g.config k ≡ ok v)
      × IsRequested g b v k request ixs
      × (from_kora_built_transaction
            (new_unsigned_versioned_transaction (b.new_with_blockhash ixs k blockhash))
          ≡ ok r)
      × IsValidated g.chain g.iteration v r
      × Carries k r response

  -- Whenever `transfer_transaction` answers, its transaction moves the amount of the request from
  -- its source to its destination, neither of which is disallowed: by one transfer of lamports for
  -- the native token, and otherwise by one checked transfer of the requested mint with the mint's
  -- decimals and the source as authority, from the source's associated account, which exists, to
  -- the destination's, which the signer creates first if it is missing; the transaction is
  -- validated by the rules of the validator of the picked signer, and the answer carries it with
  -- the signer's signature at the position that was found for the signer's key, which is within its
  -- signatures.
  pub transfer_transaction-IsBuilt :
      (request : TransferRequest) (s s' : Server S) {response : TransferResponse}
      → transfer_transaction g b request s ≡ (ok response, s')
      → IsBuilt request s s' response
  unfolding transfer_transaction transfer_by
  transfer_transaction-IsBuilt request s s' {response} h =
      let (k, u, e₁, h₁) =
        >>=-returns (request_signer g request.signer_key) (λ k. lift (transfer_by g b request k)) s
          h in
      let run : transfer_by g b request k ≡ ok response = ap (λ q. q.0) h₁ in
      let (v, e₂, h₂) =
        >>=-eq-ok (new_validator g.chain.from_str g.config k) _ {b = response} run in
      let (ixs, e₃, h₃) = >>=-eq-ok (requested_transfer g b v k request) _ {b = response} h₂ in
      let (blockhash, e₄, h₄) = >>=-eq-ok ((g.wallet k).get_latest_blockhash) _ {b = response} h₃ in
      let t = new_unsigned_versioned_transaction (b.new_with_blockhash ixs k blockhash) in
      let (r, e₅, h₅) = >>=-eq-ok (from_kora_built_transaction t) _ {b = response} h₄ in
      let (_, e₆, h₆) =
        >>=-eq-ok (validate_transaction g.chain g.iteration v r) _ {b = response} h₅ in
      (
        k,
        v,
        ixs,
        blockhash,
        r,
        e₁ ∙ ap (λ w. (ok k, w)) (ap (λ q. q.1) h₁),
        e₂,
        requested_transfer-IsRequested g b v k request e₃,
        e₅,
        (validate_transaction_iff g.chain g.iteration v r).0 e₆,
        signed_transfer-Carries k blockhash t r h₆,
      )

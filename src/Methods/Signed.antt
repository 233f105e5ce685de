-- ===== src/Methods/Signed.antt =====
-- What the signing methods promise of a whole request, from its text to the signed transaction.
use solus_protocol.Base.{String, ◌≡◌, ap, ◌∙◌}
use solus_protocol.Error.{ok, ok-injective}
use solus_protocol.Instruction.{Pubkey}
use solus_protocol.Transaction.{VersionedTransaction, Resolved}
use solus_protocol.Resolve.Inner.{from_transaction}
use solus_protocol.Resolve.Inner.Whole.{IsResolved, from_transaction_iff}
use solus_protocol.Signing
use solus_protocol.Signing.Soundness.{IsSigned, sign_transaction-IsSigned}
use solus_protocol.Methods.{
  Server, Setting, TransactionRequest, decode_b64_transaction, encode_versioned_transaction,
  check_usage, request_signer, resolve_request, sign_checked, sign_transaction,
}
use solus_protocol.Methods.Steps.{>>=-returns, lift-returns}

module _ {F D S : Type 0} (g : Setting F D S) where
  -- A transaction that passed the check of the usage limit: it is resolved with what a simulation finds
  -- inside, and signed by the picked signer.
  abbrev pub IsServed :
      TransactionRequest → VersionedTransaction → Server S → Server S → String → String → Type 0
  IsServed request t before after encoded signer_text =
      (signer : Pubkey) × (r : Resolved) × (signed : VersionedTransaction) × (request_signer g
          request.signer_key before
        ≡ (ok signer, after))
      × IsResolved g.chain g.encoders g.simulate g.deserialize_table t request.sig_verify r
      × IsSigned g.chain g.iteration g.next_iteration g.config g.payment_address (g.wallet signer) r
          signed
      × (encode_versioned_transaction g.codecs signed ≡ ok encoded)
      × (g.chain.to_string signer ≡ signer_text)

  sign_checked-IsServed :
      (request : TransactionRequest) (t : VersionedTransaction) (s s' : Server S)
      (encoded signer_text : String)
      → sign_checked g request t s ≡ (ok (encoded, signer_text), s')
      → IsServed request t s s' encoded signer_text
  unfolding sign_checked resolve_request
  sign_checked-IsServed request t s s' encoded signer_text h =
      let (k, v, e₃, h₃) = >>=-returns (request_signer g request.signer_key) _ s h in
      let (r, e₄, h₄) =
        lift-returns
          (from_transaction g.chain g.encoders g.simulate g.deserialize_table t request.sig_verify)
          _ v h₃ in
      let ((signed, packed), e₅, h₅) =
        lift-returns
          (Signing.sign_transaction g.chain g.iteration g.next_iteration g.config g.payment_address
            (g.wallet k) r)
          _ v h₄ in
      let (enc, e₆, h₆) = lift-returns (encode_versioned_transaction g.codecs signed) _ v h₅ in
      let answer : ok (enc, g.chain.to_string k) ≡ ok (encoded, signer_text) = ap (λ q. q.0) h₆ in
      let pair : ◌≡◌ {A = String × String} (enc, g.chain.to_string k) (encoded, signer_text) =
        ok-injective answer in
      let end : v ≡ s' = ap (λ q. q.1) h₆ in
      (
        k,
        r,
        signed,
        e₃ ∙ ap (λ w. (ok k, w)) end,
        (from_transaction_iff g.chain g.encoders g.simulate g.deserialize_table t request.sig_verify
              r).0
            e₄,
        sign_transaction-IsSigned g.chain g.iteration g.next_iteration g.config g.payment_address
            (g.wallet k) r e₅,
        e₆ ∙ ap (λ q. ok q.0) pair,
        ap (λ q. q.1) pair,
      )

  -- The text of the request decodes, and the transaction counts against the limit of its sender.
  abbrev pub IsAnswered : TransactionRequest → Server S → Server S → String → String → Type 0
  IsAnswered request before after encoded signer_text =
      (t : VersionedTransaction) × (counted : Server S) × (decode_b64_transaction g.codecs
          request.transaction
        ≡ ok t)
      × (check_usage g t before ≡ (ok tt, counted))
      × IsServed request t counted after encoded signer_text

  -- Whenever the method `sign_transaction` answers a request, its text decodes to a transaction
  -- that passed the check of the usage limit, was resolved with the inner instructions of a
  -- simulation, and was signed by the signer that the pool picked, under all conditions that
  -- signing promises; the answer is the encoding of the signed transaction and the signer's name.
  pub sign_transaction-IsAnswered :
      (request : TransactionRequest) (s s' : Server S) {encoded signer_text : String}
      → sign_transaction g request s ≡ (ok (encoded, signer_text), s')
      → IsAnswered request s s' encoded signer_text
  unfolding sign_transaction
  sign_transaction-IsAnswered request s s' {encoded} {signer_text} h =
      let (t, e₁, h₁) = lift-returns (decode_b64_transaction g.codecs request.transaction) _ s h in
      let (_, u, e₂, h₂) = >>=-returns (check_usage g t) (λ _. sign_checked g request t) s h₁ in
      (t, u, e₁, e₂, sign_checked-IsServed request t u s' encoded signer_text h₂)

-- ===== src/Methods/Quota.antt =====
-- The usage limit is charged by a signing method before anything else is known of the transaction.
use solus_protocol.Base.{Option, none, some, ◌≡◌, refl, ◌∙◌, String}
use solus_protocol.Error.{Result, ok, err}
use solus_protocol.Transaction.{VersionedTransaction}
use solus_protocol.Usage.{check_transaction_usage_limit}
use solus_protocol.Pool.{SignerPool}
use solus_protocol.Instruction.{Pubkey}
use solus_protocol.Signing
use solus_protocol.Methods.{
  resolve_request, encode_versioned_transaction, sign_checked, send_checked, Server, Method,
  Setting, TransactionRequest, continue, lift, picked, pick, from_pool, decode_b64_transaction,
  check_usage, request_signer, sign_transaction, sign_and_send_transaction,
}

module _ {S : Type 0} where
  -- A method after whose run the usage store is as before it.
  abbrev KeepsUsage : {A : Type 0} → Method S A → Type 0
  KeepsUsage m = (s : Server S) → (m s).1.usage ≡ s.usage

  continue-KeepsUsage :
      {A B : Type 0} (r : Result A × Server S) (next : A → Method S B)
      → ((a : A) → KeepsUsage (next a))
      → (continue r next).1.usage ≡ r.1.usage
  continue-KeepsUsage (ok a, s) next keep = keep a s
  continue-KeepsUsage (err e, s) next keep = refl

  picked-usage : (s : Server S) (r : Result (Pubkey × SignerPool)) → (picked s r).1.usage ≡ s.usage
  picked-usage s (ok (k, p)) = refl
  picked-usage s (err e) = refl

  bind-KeepsUsage :
      {A B : Type 0} (m : Method S A) (next : A → Method S B)
      → KeepsUsage m
      → ((a : A) → KeepsUsage (next a))
      → (s : Server S) → (continue (m s) next).1.usage ≡ s.usage
  bind-KeepsUsage m next first rest s = continue-KeepsUsage (m s) next rest ∙ first s

  lift-KeepsUsage :
      {A B : Type 0} (r : Result A) (next : A → Method S B)
      → ((a : A) → KeepsUsage (next a))
      → (s : Server S) → (continue (lift r s) next).1.usage ≡ s.usage
  lift-KeepsUsage r next rest s = continue-KeepsUsage (r, s) next rest

module _ {F D S : Type 0} (g : Setting F D S) where
  request_signer-KeepsUsage :
      (signer_key : Option String) → KeepsUsage (request_signer g signer_key)
  unfolding request_signer
  request_signer-KeepsUsage signer_key s = by_pool s.pool
    where
      by_pool :
          (o : Option SignerPool)
          → (from_pool g.chain.from_str g.random g.now signer_key s o).1.usage ≡ s.usage
      by_pool none = refl
      by_pool (some p) = picked-usage s (pick g.chain.from_str g.random g.now p signer_key)

  sign_checked-KeepsUsage :
      (request : TransactionRequest) (t : VersionedTransaction)
      → KeepsUsage (sign_checked g request t)
  unfolding sign_checked
  sign_checked-KeepsUsage request t =
      bind-KeepsUsage (request_signer g request.signer_key) _
        (request_signer-KeepsUsage request.signer_key)
        λ k. lift-KeepsUsage (resolve_request g t request.sig_verify) _ λ r.
          lift-KeepsUsage
            (Signing.sign_transaction g.chain g.iteration g.next_iteration g.config
              g.payment_address (g.wallet k) r)
            _
            λ signed.
              lift-KeepsUsage (encode_versioned_transaction g.codecs signed.0) _ λ encoded s. refl

  send_checked-KeepsUsage :
      (request : TransactionRequest) (t : VersionedTransaction)
      → KeepsUsage (send_checked g request t)
  unfolding send_checked
  send_checked-KeepsUsage request t =
      bind-KeepsUsage (request_signer g request.signer_key) _
        (request_signer-KeepsUsage request.signer_key)
        λ k. lift-KeepsUsage (resolve_request g t request.sig_verify) _ λ r.
          lift-KeepsUsage
            (Signing.sign_and_send_transaction g.chain g.iteration g.next_iteration g.config
              g.payment_address (g.wallet k) r)
            _ λ sent s. refl

  -- Both signing methods charge the usage limit of the transaction's sender as soon as the request
  -- decodes, and whatever comes after: the usage store after the method is the one after the check
  -- of the limit, also if the transaction is then refused or cannot be resolved.
  pub signing-charges :
      (request : TransactionRequest) (t : VersionedTransaction) (s : Server S)
      → decode_b64_transaction g.codecs request.transaction ≡ ok t
      → ((sign_transaction g request s).1.usage
          ≡ (check_transaction_usage_limit g.store g.limiter g.usage_enabled g.usage_fallback t
              s.usage).1)
        × ((sign_and_send_transaction g request s).1.usage
            ≡ (check_transaction_usage_limit g.store g.limiter g.usage_enabled g.usage_fallback t
                s.usage).1)
  unfolding sign_transaction sign_and_send_transaction check_usage
  signing-charges request t s decoded = (
    rw decoded (
        continue-KeepsUsage (check_usage g t s) (λ _. sign_checked g request t)
          (λ _. sign_checked-KeepsUsage request t)),
    rw decoded (
        continue-KeepsUsage (check_usage g t s) (λ _. send_checked g request t)
          (λ _. send_checked-KeepsUsage request t)),
  )

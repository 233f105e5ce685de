-- ===== src/Signing.antt =====
-- `sign_transaction` and `sign_and_send_transaction` of
-- kora/crates/lib/src/transaction/versioned_transaction.rs.
pub mod Soundness
pub mod Costs
use solus_protocol.Base.{
  ℕ, suc, ◌+◌, String, Bool, true, false, Option, none, some, List, [], ◌∷◌, ◌==◌, nat_eq, ltb,
  length, set, is_empty, if◌then◌else◌,
}
use solus_protocol.Error.{
  Result, ok, err, panicked, invalid_transaction, signing_error, serialization_error, rpc_error,
  ok_or, ◌>>=◌, ◌>>◌,
}
use solus_protocol.Instruction.{Pubkey}
use solus_protocol.Config.{ValidationConfig, get_payment_address, is_payment_required}
use solus_protocol.External.{External}
use solus_protocol.Transaction.{VersionedTransaction, Resolved}
use solus_protocol.Token.Outflow.{Groups}
use solus_protocol.Fee.Calculation.{TotalFeeCalculation}
use solus_protocol.Fee.Estimate.{estimate_kora_fee, get_estimate_fee_resolved}
use solus_protocol.Validator.Checks.{new_validator, validate_lamport_fee}
use solus_protocol.Validator.Validate.{
  validate_transaction, validate_token_payment, validate_strict_pricing_with_fee,
}

-- The signer's key, the signature that it gives for a message, the network's blockhash, the
-- encoding of a signed transaction, and its submission.
pub record Wallet : Type 0 where
  pub pubkey : Pubkey
  pub sign_message : VersionedTransaction → Option ℕ
  pub get_latest_blockhash : Result ℕ
  pub encode : VersionedTransaction → Option String
  pub send_and_confirm : VersionedTransaction → Option String

unfoldable pub position : Pubkey → List Pubkey → Option ℕ
position k [] = none
position k (j ∷ ks) =
    let rest : Option ℕ = elim (position k ks) [ none ↦ none | some i ↦ some (suc i) ] in
    if j == k then some 0 else rest

unfoldable pub find_signer_position : VersionedTransaction → Pubkey → Result ℕ
unfolding position
find_signer_position t signer_pubkey =
    ok_or (position signer_pubkey t.static_account_keys) invalid_transaction

-- `transaction.signatures[position] = signature`, which panics out of range.
unfoldable pub put_signature : VersionedTransaction → ℕ → ℕ → Result VersionedTransaction
put_signature t i signature =
    if ltb i (length t.signatures)
    then ok (record t { signatures = set t.signatures i signature })
    else err panicked

-- `iteration` is the order in which the map of token transfers is walked while the transaction is
-- validated, `next_iteration` that of the map which the estimate builds anew.
module _ {F D : Type 0} (x : External F D) (iteration : Groups → Groups)
    (next_iteration : Groups → Groups) (config : ValidationConfig F)
    (payment_address : Option String) (w : Wallet) where
  -- The block under `if required_lamports > 0`.
  unfoldable pub validate_payment : Resolved → TotalFeeCalculation → Result (Unit {0})
  validate_payment r fee_calculation = do
    payment_destination ← get_payment_address x.from_str payment_address w.pubkey
    validate_token_payment x config r.all_instructions fee_calculation.total_fee_lamports
        payment_destination
    validate_strict_pricing_with_fee config.price fee_calculation

  -- A transaction without signatures gets the latest blockhash.
  unfoldable pub refresh_blockhash : VersionedTransaction → Result VersionedTransaction
  refresh_blockhash t =
      let refreshed =
        (w.get_latest_blockhash >>= λ blockhash. ok (record t { recent_blockhash = blockhash })) in
      if is_empty t.signatures then refreshed else ok t

  unfoldable pub sign_transaction : Resolved → Result (VersionedTransaction × String)
  unfolding validate_payment refresh_blockhash find_signer_position put_signature
  sign_transaction r = do
    validator ← new_validator x.from_str config w.pubkey
    validate_transaction x iteration validator r
    fee_calculation ←
        estimate_kora_fee x next_iteration config.price payment_address r w.pubkey
          (is_payment_required config)
    (if ltb 0 fee_calculation.total_fee_lamports then validate_payment r fee_calculation else ok tt)
    transaction ← refresh_blockhash r.transaction
    estimated_fee ← get_estimate_fee_resolved x next_iteration r
    validate_lamport_fee validator estimated_fee
    signature ← ok_or (w.sign_message transaction) signing_error
    fee_payer_position ← find_signer_position r.transaction w.pubkey
    signed ← put_signature transaction fee_payer_position signature
    encoded ← ok_or (w.encode signed) serialization_error
    ok (signed, encoded)

  unfoldable pub sign_and_send_transaction : Resolved → Result (String × String)
  unfolding sign_transaction
  sign_and_send_transaction r = do
    (transaction, encoded) ← sign_transaction r
    signature ← ok_or (w.send_and_confirm transaction) rpc_error
    ok (signature, encoded)

-- ===== src/Methods/Transfer.antt =====
-- `transfer_transaction` of kora/crates/lib/src/rpc_server/method/transfer_transaction.rs: Kora builds
-- a transfer itself, validates it, and signs it as its fee payer.
use solus_protocol.Base.{
  ℕ, String, Bool, true, false, Option, List, [], ◌∷◌, ◌++◌, ◌==◌, string_eq, if◌then◌else◌,
}
use solus_protocol.Error.{
  Result, ok, err, invalid_transaction, serialization_error, account_not_found, validation_error,
  signing_error, ok_or, map_err, fail_if, ◌>>=◌, ◌>>◌,
}
use solus_protocol.Instruction.{Pubkey, Instruction}
use solus_protocol.Transaction.{VersionedTransaction, Resolved}
use solus_protocol.Resolve.{from_kora_built_transaction}
use solus_protocol.Validator.Checks.{TransactionValidator, new_validator, is_disallowed_account}
use solus_protocol.Validator.Validate.{validate_transaction, fetch_and_validate_token_mint}
use solus_protocol.Signing.{find_signer_position, put_signature}
use solus_protocol.Methods.{
  Method, continue, lift, new_unsigned_versioned_transaction, Setting, request_signer,
}

-- The instruction builders of the interface crates, and `Message::new_with_blockhash`, by the
-- instructions, the fee payer and the blockhash. The token builders take whether the program is
-- Token-2022.
pub record Builders : Type 0 where
  pub transfer : Pubkey → Pubkey → ℕ → Instruction
  pub create_associated_token_account : Bool → Pubkey → Pubkey → Pubkey → Instruction
  pub transfer_checked : Bool → Pubkey → Pubkey → Pubkey → Pubkey → ℕ → ℕ → Option Instruction
  pub new_with_blockhash : List Instruction → Pubkey → ℕ → VersionedTransaction

pub record TransferRequest : Type 0 where
  pub amount : ℕ
  pub token : String
  pub source : String
  pub destination : String
  pub signer_key : Option String

pub record TransferResponse : Type 0 where
  pub transaction : String
  pub message : String
  pub blockhash : ℕ
  pub signer_pubkey : String

abbrev pub native_sol : String
native_sol = "11111111111111111111111111111111"

abbrev pub is_err : {A : Type 0} → Result A → Bool
is_err (ok _) = false
is_err (err _) = true

module _ {F D S : Type 0} (g : Setting F D S) (b : Builders) where
  -- The instructions of a token transfer: the destination's account is created if it is missing.
  unfoldable pub token_instructions :
      TransactionValidator → Pubkey → Pubkey → Pubkey → Pubkey → ℕ → Result (List Instruction)
  token_instructions validator fee_payer source destination token_mint amount = do
    (is_2022, mint) ← fetch_and_validate_token_mint g.chain g.iteration validator token_mint
    let program = (if is_2022 then g.chain.programs.spl_token_2022 else g.chain.programs.spl_token)
    let source_ata = g.chain.associated_token_address source token_mint program
    let dest_ata = g.chain.associated_token_address destination token_mint program
    _ ← map_err (g.chain.get_account source_ata false) account_not_found
    let creation =
        (if is_err (g.chain.get_account dest_ata false)
          then b.create_associated_token_account is_2022 fee_payer destination token_mint ∷ []
          else [])
    transfer ←
        ok_or
          (b.transfer_checked is_2022 source_ata token_mint dest_ata source amount mint.decimals)
          invalid_transaction
    ok (creation ++ transfer ∷ [])

  unfoldable pub transfer_instructions :
      TransactionValidator
      → Pubkey
      → TransferRequest
      → Pubkey
      → Pubkey
      → Pubkey
      → Result (List Instruction)
  unfolding token_instructions
  transfer_instructions validator fee_payer request source destination token_mint =
      if request.token == native_sol
      then ok (b.transfer source destination request.amount ∷ [])
      else token_instructions validator fee_payer source destination token_mint request.amount

  -- The first part: the instructions of the request, between accounts that are not disallowed.
  unfoldable pub requested_transfer :
      TransactionValidator → Pubkey → TransferRequest → Result (List Instruction)
  unfolding transfer_instructions
  requested_transfer validator fee_payer request = do
    source ← ok_or (g.chain.from_str request.source) validation_error
    destination ← ok_or (g.chain.from_str request.destination) validation_error
    token_mint ← ok_or (g.chain.from_str request.token) validation_error
    fail_if (is_disallowed_account validator source) invalid_transaction
    fail_if (is_disallowed_account validator destination) invalid_transaction
    transfer_instructions validator fee_payer request source destination token_mint

  -- The last part: the signature of the validated transaction, and the answer.
  unfoldable pub signed_transfer :
      Pubkey → ℕ → VersionedTransaction → Resolved → Result TransferResponse
  signed_transfer fee_payer blockhash transaction resolved = do
    fee_payer_position ← find_signer_position resolved.transaction fee_payer
    signature ← ok_or ((g.wallet fee_payer).sign_message resolved.transaction) signing_error
    signed ← put_signature resolved.transaction fee_payer_position signature
    encoded ← ok_or (g.codecs.encode_transaction signed) serialization_error
    message ← ok_or (g.codecs.encode_message transaction) serialization_error
    ok (record {
      transaction = encoded;
      message = message;
      blockhash = blockhash;
      signer_pubkey = g.chain.to_string fee_payer;
    })

  unfoldable pub transfer_by : TransferRequest → Pubkey → Result TransferResponse
  unfolding requested_transfer signed_transfer
  transfer_by request fee_payer = do
    validator ← new_validator g.chain.from_str g.config fee_payer
    instructions ← requested_transfer validator fee_payer request
    blockhash ← (g.wallet fee_payer).get_latest_blockhash
    let transaction =
        new_unsigned_versioned_transaction (b.new_with_blockhash instructions fee_payer blockhash)
    resolved ← from_kora_built_transaction transaction
    validate_transaction g.chain g.iteration validator resolved
    signed_transfer fee_payer blockhash transaction resolved

  unfoldable pub transfer_transaction : TransferRequest → Method S TransferResponse
  unfolding transfer_by request_signer
  transfer_transaction request s =
      continue (request_signer g request.signer_key s)
        (λ fee_payer. lift (transfer_by request fee_payer))

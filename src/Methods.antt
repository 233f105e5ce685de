-- ===== src/Methods.antt =====
-- The JSON-RPC methods of kora/crates/lib/src/rpc_server/method that touch transactions, with
-- `get_request_signer_with_signer_key` of kora/crates/lib/src/state.rs and `TransactionUtil` of
-- kora/crates/lib/src/transaction/transaction.rs. A method runs on the state that requests share,
-- the signer pool and the usage store, and a failing method leaves what it has changed so far.
pub mod Transfer
pub mod Steps
pub mod Signed
pub mod Requested
pub mod Built
pub mod Quota
use solus_protocol.Base.{
  ℕ, String, Bool, true, false, Option, none, some, List, [], ◌∷◌, ◌++◌, ◌==◌, string_eq, zero, suc,
  is_empty, if◌then◌else◌,
}
use solus_protocol.Error.{
  KoraError, Result, ok, err, internal_server_error, invalid_transaction, serialization_error,
  account_not_found, validation_error, rpc_error, signing_error, ok_or, map_err, fail_if,
}
use solus_protocol.Error
use solus_protocol.Instruction.{Pubkey, Bytes, Instruction}
use solus_protocol.Config.{ValidationConfig, get_payment_address, is_payment_required}
use solus_protocol.External.{External, Account}
use solus_protocol.Transaction.{VersionedTransaction, Resolved}
use solus_protocol.Token.Outflow.{Groups}
use solus_protocol.Fee.Calculation.{TotalFeeCalculation}
use solus_protocol.Fee.Estimate.{estimate_kora_fee, calculate_fee_in_token}
use solus_protocol.Reconstruct.{Encoders}
use solus_protocol.Resolve.{from_kora_built_transaction}
use solus_protocol.Resolve.Inner.{Simulation, from_transaction}
use solus_protocol.Validator.Checks.{new_validator, is_disallowed_account}
use solus_protocol.Validator.Validate.{validate_transaction, fetch_and_validate_token_mint}
use solus_protocol.Signing.{Wallet, find_signer_position, put_signature}
use solus_protocol.Signing
use solus_protocol.Usage.{UsageStore, UsageTracker, check_transaction_usage_limit}
use solus_protocol.Pool.{SignerPool, get_next_signer, get_signer_by_pubkey}

-- What requests share. The pool is `none` until it is initialised.
pub record Server (S : Type 0) : Type 0 where
  pub usage : S
  pub pool : Option SignerPool

abbrev pub Method : Type 0 → Type 0 → Type 0
Method S A = Server S → Result A × Server S

abbrev pub continue :
    {S A B : Type 0} → Result A × Server S → (A → Method S B) → Result B × Server S
continue (ok a, s) next = next a s
continue (err e, s) next = (err e, s)

infixl 5 ◌>>=◌ ◌>>◌
abbrev pub ◌>>=◌ : {S A B : Type 0} → Method S A → (A → Method S B) → Method S B
◌>>=◌ m next s = continue (m s) next

abbrev pub ◌>>◌ : {S B : Type 0} → Method S (Unit {0}) → Method S B → Method S B
first >> next = first >>= λ _. next

-- A step that does not touch the shared state.
abbrev pub lift : {S A : Type 0} → Result A → Method S A
lift r s = (r, s)

-- `base64` and `bincode`, each with what it answers for malformed input, and the node's blockhash.
pub record Codecs : Type 0 where
  pub decode_base64 : String → Option Bytes
  pub deserialize_versioned : Bytes → Option VersionedTransaction
  pub deserialize_legacy : Bytes → Option VersionedTransaction
  pub encode_transaction : VersionedTransaction → Option String
  pub encode_message : VersionedTransaction → Option String

-- A legacy transaction is tried where the bytes are no versioned one.
unfoldable pub decode_b64_transaction : Codecs → String → Result VersionedTransaction
decode_b64_transaction c encoded = elim (c.decode_base64 encoded) [
  | none ↦ err invalid_transaction
  | some bytes ↦ elim (c.deserialize_versioned bytes) [
    | some t ↦ ok t
    | none ↦ ok_or (c.deserialize_legacy bytes) invalid_transaction
  ]
]

unfoldable pub encode_versioned_transaction : Codecs → VersionedTransaction → Result String
encode_versioned_transaction c t = ok_or (c.encode_transaction t) serialization_error

abbrev replicate : {A : Type 0} → ℕ → A → List A
replicate zero a = []
replicate (suc n) a = a ∷ replicate n a

-- An empty signature is 0. The argument stands for its message.
unfoldable pub new_unsigned_versioned_transaction : VersionedTransaction → VersionedTransaction
new_unsigned_versioned_transaction t = record t {
  signatures = replicate t.num_required_signatures 0;
}

module _ (from_str : String → Option Pubkey) (random now : ℕ) where
  abbrev pub pick : SignerPool → Option String → Result (Pubkey × SignerPool)
  pick p none = map_err (get_next_signer p random now) internal_server_error
  pick p (some signer_key) = get_signer_by_pubkey from_str p signer_key now

module _ {S : Type 0} where
  abbrev pub picked : Server S → Result (Pubkey × SignerPool) → Result Pubkey × Server S
  picked s (ok (k, p)) = (ok k, record s { pool = some p })
  picked s (err e) = (err e, s)

  abbrev pub from_pool :
      (String → Option Pubkey)
      → ℕ
      → ℕ
      → Option String
      → Server S
      → Option SignerPool
      → Result Pubkey × Server S
  from_pool from_str random now signer_key s none = (err internal_server_error, s)
  from_pool from_str random now signer_key s (some p) =
      picked s (pick from_str random now p signer_key)

  unfoldable pub get_request_signer_with_signer_key :
      (String → Option Pubkey) → ℕ → ℕ → Option String → Method S Pubkey
  get_request_signer_with_signer_key from_str random now signer_key s =
      from_pool from_str random now signer_key s s.pool

pub record TransactionRequest : Type 0 where
  pub transaction : String
  pub signer_key : Option String
  pub sig_verify : Bool

pub record FeeRequest : Type 0 where
  pub transaction : String
  pub fee_token : Option String
  pub signer_key : Option String
  pub sig_verify : Bool

pub record FeeResponse : Type 0 where
  pub fee_in_lamports : ℕ
  pub fee_in_token : Option ℕ
  pub signer_pubkey : String
  pub payment_address : String

-- All that a method needs besides the shared state: the chain, the encoders and codecs, the
-- configuration, and the wallet of each signer. `iteration` and `next_iteration` are the orders in which
-- the first and the second map of token transfers of a request are walked.
pub record Setting (F D S : Type 0) : Type 0 where
  pub chain : External F D
  pub iteration : Groups → Groups
  pub next_iteration : Groups → Groups
  pub encoders : Encoders
  pub codecs : Codecs
  pub simulate : VersionedTransaction → Bool → Option Simulation
  pub deserialize_table : Bytes → Option (List Pubkey)
  pub config : ValidationConfig F
  pub payment_address : Option String
  pub wallet : Pubkey → Wallet
  pub store : UsageStore S
  pub limiter : Option (Option UsageTracker)
  pub usage_enabled : Bool
  pub usage_fallback : Bool
  pub random : ℕ
  pub now : ℕ

module _ {F D S : Type 0} (g : Setting F D S) where
  abbrev pub counted : Server S → Result (Unit {0}) × S → Result (Unit {0}) × Server S
  counted s (r, usage) = (r, record s { usage = usage })

  unfoldable pub check_usage : VersionedTransaction → Method S (Unit {0})
  check_usage t s =
      counted s
        (check_transaction_usage_limit g.store g.limiter g.usage_enabled g.usage_fallback t s.usage)

  unfoldable pub request_signer : Option String → Method S Pubkey
  unfolding get_request_signer_with_signer_key
  request_signer = get_request_signer_with_signer_key g.chain.from_str g.random g.now

  unfoldable pub resolve_request : VersionedTransaction → Bool → Result Resolved
  resolve_request t sig_verify =
      from_transaction g.chain g.encoders g.simulate g.deserialize_table t sig_verify

  -- The rest of `sign_transaction` behind the check of the usage limit, and that of
  -- `sign_and_send_transaction`.
  unfoldable pub sign_checked :
      TransactionRequest → VersionedTransaction → Method S (String × String)
  unfolding request_signer resolve_request encode_versioned_transaction
  sign_checked request transaction = do
    signer ← request_signer request.signer_key
    resolved ← lift (resolve_request transaction request.sig_verify)
    (signed, _) ← lift (
        Signing.sign_transaction g.chain g.iteration g.next_iteration g.config g.payment_address
          (g.wallet signer) resolved)
    encoded ← lift (encode_versioned_transaction g.codecs signed)
    lift (ok (encoded, g.chain.to_string signer))

  unfoldable pub send_checked :
      TransactionRequest → VersionedTransaction → Method S (String × String)
  unfolding request_signer resolve_request
  send_checked request transaction = do
    signer ← request_signer request.signer_key
    resolved ← lift (resolve_request transaction request.sig_verify)
    (_, signed) ← lift (
        Signing.sign_and_send_transaction g.chain g.iteration g.next_iteration g.config
          g.payment_address (g.wallet signer) resolved)
    lift (ok (signed, g.chain.to_string signer))

  unfoldable pub sign_transaction : TransactionRequest → Method S (String × String)
  unfolding check_usage decode_b64_transaction sign_checked
  sign_transaction request = do
    transaction ← lift (decode_b64_transaction g.codecs request.transaction)
    check_usage transaction
    sign_checked request transaction

  unfoldable pub sign_and_send_transaction : TransactionRequest → Method S (String × String)
  unfolding check_usage decode_b64_transaction send_checked
  sign_and_send_transaction request = do
    transaction ← lift (decode_b64_transaction g.codecs request.transaction)
    check_usage transaction
    send_checked request transaction

  -- No usage limit applies to an estimate.
  unfoldable pub estimate_transaction_fee : FeeRequest → Method S FeeResponse
  unfolding request_signer resolve_request decode_b64_transaction
  estimate_transaction_fee request = do
    transaction ← lift (decode_b64_transaction g.codecs request.transaction)
    signer ← request_signer request.signer_key
    payment_destination ← lift (get_payment_address g.chain.from_str g.payment_address signer)
    resolved ← lift (resolve_request transaction request.sig_verify)
    fee_calculation ← lift (
        estimate_kora_fee g.chain g.iteration g.config.price g.payment_address resolved signer
          (is_payment_required g.config))
    fee_in_token ← lift (
        calculate_fee_in_token g.chain g.config fee_calculation.total_fee_lamports
          request.fee_token)
    lift (
        ok (record {
          fee_in_lamports = fee_calculation.total_fee_lamports;
          fee_in_token = fee_in_token;
          signer_pubkey = g.chain.to_string signer;
          payment_address = g.chain.to_string payment_destination;
        }))

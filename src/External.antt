-- ===== src/External.antt =====
-- What the core calls and does not implement: the chain behind the RPC client and its cache, the
-- interface crates that decode account data, the price feed, and `rust_decimal`. Each is a
-- function of its inputs: during one request the chain answers the same question alike.
use solus_protocol.Base.{ℕ, String, Bool, Option, List}
use solus_protocol.Error.{Result}
use solus_protocol.Instruction.{Pubkey, Bytes, Programs}
use solus_protocol.Transaction.{VersionedTransaction}

-- `solana_sdk::account::Account`, as far as it is read.
pub record Account : Type 0 where
  pub owner : Pubkey
  pub payload : Bytes
  pub executable : Bool

-- `TokenState` and `Token2022Account`, as far as they are read (kora/crates/lib/src/token/interface.rs,
-- kora/crates/lib/src/token/spl_token_2022.rs). An SPL Token account has no extensions.
pub record TokenAccount : Type 0 where
  pub mint : Pubkey
  pub owner : Pubkey
  pub extension_types : List ℕ

-- One side of the transfer fee extension of Token-2022.
pub record TransferFee : Type 0 where
  pub epoch : ℕ
  pub maximum_fee : ℕ
  pub transfer_fee_basis_points : ℕ

pub record TransferFeeConfig : Type 0 where
  pub older_transfer_fee : TransferFee
  pub newer_transfer_fee : TransferFee

-- `TokenMint` and `Token2022Mint`, as far as they are read.
pub record Mint : Type 0 where
  pub decimals : ℕ
  pub extension_types : List ℕ
  pub transfer_fee_config : Option TransferFeeConfig

-- `rust_decimal::Decimal` as `D`, and `f64` as `F`.
pub record Decimals (F D : Type 0) : Type 0 where
  pub from_u64 : ℕ → Option D
  pub from_f64 : F → Option D
  pub checked_add : D → D → Option D
  pub checked_mul : D → D → Option D
  pub checked_div : D → D → Option D
  pub floor : D → D
  pub ceil : D → D
  pub to_u64 : D → Option ℕ

pub record External (F D : Type 0) : Type 0 where
  pub programs : Programs
  pub from_str : String → Option Pubkey
  pub to_string : Pubkey → String
  -- `CacheUtil::get_account`, by key and `force_refresh`
  pub get_account : Pubkey → Bool → Result Account
  -- by whether the program is Token-2022
  pub unpack_token_account : Bool → Bytes → Option TokenAccount
  pub unpack_mint : Bool → Bytes → Option Mint
  pub associated_token_address : Pubkey → Pubkey → Pubkey → Pubkey
  pub get_epoch : Result ℕ
  -- by the transaction that has the message
  pub get_fee_for_message : VersionedTransaction → Option ℕ
  -- `PriceOracle::get_prices`, by the number of the attempt
  pub get_prices : ℕ → List String → Result (String → Option D)
  pub decimals : Decimals F D

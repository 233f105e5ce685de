-- ===== src/Instruction.antt =====
-- What a transaction is made of: keys, accounts and instructions, in compiled form (indices into
-- the message's keys) and resolved form. These are types of the Solana SDK; their fields and the
-- instruction variants below are those that kora/crates/lib/src reads.
use solus_protocol.Base.{ℕ, String, Bool, Option, List, ◌≢◌}

-- A public key is only compared.
abbrev pub Pubkey : Type 0
Pubkey = ℕ

pub record AccountMeta : Type 0 where
  pub pubkey : Pubkey
  pub is_signer : Bool
  pub is_writable : Bool

abbrev pub Bytes : Type 0
Bytes = List ℕ

pub record Instruction : Type 0 where
  pub program_id : Pubkey
  pub accounts : List AccountMeta
  pub payload : Bytes

pub record CompiledInstruction : Type 0 where
  pub program_id_index : ℕ
  pub account_indexes : List ℕ
  pub payload : Bytes

-- The decoded instructions of the System program, with lamports before spaces and owners; a base and
-- its seed come first.
pub data SystemInstruction : Type 0 where
  create_account : ℕ → ℕ → Pubkey → SystemInstruction
  create_account_with_seed : Pubkey → String → ℕ → ℕ → Pubkey → SystemInstruction
  transfer withdraw_nonce_account allocate : ℕ → SystemInstruction
  transfer_with_seed : ℕ → String → Pubkey → SystemInstruction
  assign : Pubkey → SystemInstruction
  assign_with_seed : Pubkey → String → Pubkey → SystemInstruction
  allocate_with_seed : Pubkey → String → ℕ → Pubkey → SystemInstruction
  initialize_nonce_account : Pubkey → SystemInstruction
  advance_nonce_account upgrade_nonce_account : SystemInstruction
  authorize_nonce_account : Pubkey → SystemInstruction

-- The decoded instructions of the two token programs: amounts, then decimals. `unread` is every variant that the source
-- does not name, such as the extension instructions of Token-2022.
pub data TokenInstruction : Type 0 where
  transfer burn approve mint_to : ℕ → TokenInstruction
  transfer_checked burn_checked approve_checked mint_to_checked : ℕ → ℕ → TokenInstruction
  close_account revoke set_authority : TokenInstruction
  initialize_mint initialize_mint2 : Pubkey → TokenInstruction
  initialize_account : TokenInstruction
  initialize_account2 initialize_account3 : Pubkey → TokenInstruction
  initialize_multisig initialize_multisig2 freeze_account thaw_account : TokenInstruction
  unread : TokenInstruction

-- The on-chain programs: their ids, and the decoders of the interface crates.
pub record Programs : Type 0 where
  pub system_program : Pubkey
  pub spl_token : Pubkey
  pub spl_token_2022 : Pubkey
  pub associated_token : Pubkey
  pub deserialize_system : Bytes → Option SystemInstruction
  pub unpack_spl : Bytes → Option TokenInstruction
  pub unpack_2022 : Bytes → Option TokenInstruction
  pub spl-ne-2022 : spl_token ≢ spl_token_2022

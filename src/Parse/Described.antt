-- ===== src/Parse/Described.antt =====
-- What the parsers say of a decoded instruction, by its accounts in the order in which the on-chain
-- programs take them, and what they say of any instruction.
use solus_protocol.Base.{Bool, true, false, Option, none, some, List, ◌∷◌, ◌≡◌, ◌≢◌, ◌⊎◌}
use solus_protocol.Error.{Result, ok, err, invalid_transaction}
use solus_protocol.Instruction.{Pubkey, Instruction, Programs, SystemInstruction, TokenInstruction}
use solus_protocol.Parse.Types.{
  system_transfer, system_create_account, system_withdraw_nonce_account, system_assign,
  system_allocate, system_initialize_nonce_account, system_advance_nonce_account,
  system_authorize_nonce_account, ParsedSystemData, create_account_data, withdraw_nonce_data,
  assign_data, allocate_data, initialize_nonce_data, advance_nonce_data, authorize_nonce_data,
  spl_transfer, spl_burn, spl_close_account, spl_approve, spl_revoke, spl_set_authority,
  spl_mint_to, spl_initialize_mint, spl_initialize_account, spl_initialize_multisig,
  spl_freeze_account, spl_thaw_account, ParsedSplData, burn_data, close_account_data, approve_data,
  revoke_data, set_authority_data, mint_to_data, initialize_mint_data, initialize_account_data,
  initialize_multisig_data, freeze_account_data, thaw_account_data,
}
use solus_protocol.Parse.Accounts.{pubkeys}
use solus_protocol.Parse.System.{SystemEntry}
use solus_protocol.Parse.Token.{SplEntry}

-- An instruction with fewer accounts than its program takes is malformed.
abbrev pub described_system : SystemInstruction → List Pubkey → Result (Option SystemEntry)
described_system (SystemInstruction.create_account lamports _ _) (payer ∷ _) =
    ok (some (system_create_account, create_account_data lamports payer))
described_system (SystemInstruction.create_account_with_seed _ _ lamports _ _) (payer ∷ _) =
    ok (some (system_create_account, create_account_data lamports payer))
described_system (SystemInstruction.transfer lamports) (sender ∷ receiver ∷ _) =
    ok (some (system_transfer, ParsedSystemData.transfer_data lamports sender receiver))
described_system (SystemInstruction.transfer_with_seed lamports _ _) (_ ∷ base ∷ receiver ∷ _) =
    ok (some (system_transfer, ParsedSystemData.transfer_data lamports base receiver))
described_system (SystemInstruction.withdraw_nonce_account lamports)
      (_ ∷ recipient ∷ _ ∷ _ ∷ authority ∷ _) =
    ok (some (system_withdraw_nonce_account, withdraw_nonce_data lamports authority recipient))
described_system (SystemInstruction.assign _) (account ∷ _) =
    ok (some (system_assign, assign_data account))
described_system (SystemInstruction.assign_with_seed _ _ _) (_ ∷ base ∷ _) =
    ok (some (system_assign, assign_data base))
described_system (SystemInstruction.allocate _) (account ∷ _) =
    ok (some (system_allocate, allocate_data account))
described_system (SystemInstruction.allocate_with_seed _ _ _ _) (_ ∷ base ∷ _) =
    ok (some (system_allocate, allocate_data base))
described_system (SystemInstruction.initialize_nonce_account authority) (nonce ∷ _ ∷ _ ∷ _) =
    ok (some (system_initialize_nonce_account, initialize_nonce_data nonce authority))
described_system SystemInstruction.advance_nonce_account (nonce ∷ _ ∷ authority ∷ _) =
    ok (some (system_advance_nonce_account, advance_nonce_data nonce authority))
described_system (SystemInstruction.authorize_nonce_account _) (nonce ∷ authority ∷ _) =
    ok (some (system_authorize_nonce_account, authorize_nonce_data nonce authority))
described_system SystemInstruction.upgrade_nonce_account _ = ok none
described_system _ _ = err invalid_transaction

-- Of either token program; `is_2022` tells which.
abbrev pub described_token : Bool → TokenInstruction → List Pubkey → Result (Option SplEntry)
described_token is_2022 (TokenInstruction.transfer amount) (source ∷ destination ∷ owner ∷ _) = ok (
    some (
      spl_transfer,
      ParsedSplData.transfer_data (record {
        amount = amount;
        owner = owner;
        mint = none;
        source_address = source;
        destination_address = destination;
        is_2022 = is_2022;
      }),
    ))
described_token is_2022 (TokenInstruction.transfer_checked amount _)
      (source ∷ mint ∷ destination ∷ owner ∷ _) =
    ok (
      some (
        spl_transfer,
        ParsedSplData.transfer_data (record {
          amount = amount;
          owner = owner;
          mint = some mint;
          source_address = source;
          destination_address = destination;
          is_2022 = is_2022;
        }),
      ))
described_token is_2022 (TokenInstruction.burn _) (_ ∷ _ ∷ owner ∷ _) =
    ok (some (spl_burn, burn_data owner is_2022))
described_token is_2022 (TokenInstruction.burn_checked _ _) (_ ∷ _ ∷ owner ∷ _) =
    ok (some (spl_burn, burn_data owner is_2022))
described_token is_2022 TokenInstruction.close_account (_ ∷ _ ∷ owner ∷ _) =
    ok (some (spl_close_account, close_account_data owner is_2022))
described_token is_2022 (TokenInstruction.approve _) (_ ∷ _ ∷ owner ∷ _) =
    ok (some (spl_approve, approve_data owner is_2022))
described_token is_2022 (TokenInstruction.approve_checked _ _) (_ ∷ _ ∷ _ ∷ owner ∷ _) =
    ok (some (spl_approve, approve_data owner is_2022))
described_token is_2022 TokenInstruction.revoke (_ ∷ owner ∷ _) =
    ok (some (spl_revoke, revoke_data owner is_2022))
described_token is_2022 TokenInstruction.set_authority (_ ∷ authority ∷ _) =
    ok (some (spl_set_authority, set_authority_data authority is_2022))
described_token is_2022 (TokenInstruction.mint_to _) (_ ∷ _ ∷ authority ∷ _) =
    ok (some (spl_mint_to, mint_to_data authority is_2022))
described_token is_2022 (TokenInstruction.mint_to_checked _ _) (_ ∷ _ ∷ authority ∷ _) =
    ok (some (spl_mint_to, mint_to_data authority is_2022))
described_token is_2022 (TokenInstruction.initialize_mint authority) (_ ∷ _ ∷ _) =
    ok (some (spl_initialize_mint, initialize_mint_data authority is_2022))
described_token is_2022 (TokenInstruction.initialize_mint2 authority) (_ ∷ _) =
    ok (some (spl_initialize_mint, initialize_mint_data authority is_2022))
described_token is_2022 TokenInstruction.initialize_account (_ ∷ _ ∷ owner ∷ _ ∷ _) =
    ok (some (spl_initialize_account, initialize_account_data owner is_2022))
described_token is_2022 (TokenInstruction.initialize_account2 owner) (_ ∷ _ ∷ _ ∷ _) =
    ok (some (spl_initialize_account, initialize_account_data owner is_2022))
described_token is_2022 (TokenInstruction.initialize_account3 owner) (_ ∷ _ ∷ _) =
    ok (some (spl_initialize_account, initialize_account_data owner is_2022))
described_token is_2022 TokenInstruction.initialize_multisig (_ ∷ _ ∷ signers) =
    ok (some (spl_initialize_multisig, initialize_multisig_data signers is_2022))
described_token is_2022 TokenInstruction.initialize_multisig2 (_ ∷ signers) =
    ok (some (spl_initialize_multisig, initialize_multisig_data signers is_2022))
described_token is_2022 TokenInstruction.freeze_account (_ ∷ _ ∷ authority ∷ _) =
    ok (some (spl_freeze_account, freeze_account_data authority is_2022))
described_token is_2022 TokenInstruction.thaw_account (_ ∷ _ ∷ authority ∷ _) =
    ok (some (spl_thaw_account, thaw_account_data authority is_2022))
described_token is_2022 TokenInstruction.unread _ = ok none
described_token _ _ _ = err invalid_transaction

-- What an instruction of one of a program's decoders says: nothing if its bytes do not decode.
abbrev pub Decoded : {I E : Type 0} → Option I → (I → Result (Option E)) → Option E → Type 0
Decoded {I} decoded described entry =
    ((decoded ≡ none) × (entry ≡ none)) ⊎ ((i : I) × (decoded ≡ some i) × (described i ≡ ok entry))

module _ (p : Programs) (ix : Instruction) where
  abbrev pub SaysSystem : Option SystemEntry → Type 0
  SaysSystem entry =
      ((ix.program_id ≢ p.system_program) × (entry ≡ none))
      ⊎ ((ix.program_id ≡ p.system_program)
          × Decoded (p.deserialize_system ix.payload)
              (λ i. described_system i (pubkeys ix.accounts)) entry)

  abbrev pub SaysToken : Option SplEntry → Type 0
  SaysToken entry =
      ((ix.program_id ≢ p.spl_token) × (ix.program_id ≢ p.spl_token_2022) × (entry ≡ none))
      ⊎ ((ix.program_id ≡ p.spl_token)
          × Decoded (p.unpack_spl ix.payload) (λ i. described_token false i (pubkeys ix.accounts))
              entry)
      ⊎ ((ix.program_id ≡ p.spl_token_2022)
          × Decoded (p.unpack_2022 ix.payload) (λ i. described_token true i (pubkeys ix.accounts))
              entry)

-- ===== src/Reconstruct/Token/Accounts.antt =====
-- The arms of `reconstruct_spl_token_instruction`
-- (kora/crates/lib/src/transaction/instruction_util.rs) for instructions without an amount. Where the
-- source writes a tag alone, the rest of the instruction's bytes is missing.
use solus_protocol.Base.{ℕ, String, ◌∷◌, []}
use solus_protocol.Error.{Result, ok, serialization_error, ok_or, ◌>>=◌}
use solus_protocol.Instruction.{
  CompiledInstruction, close_account, revoke, freeze_account, thaw_account,
}
use solus_protocol.External.{External}
use solus_protocol.Json
use solus_protocol.Json.{Json, get_field_as_str, get_field_as_u64, get_field_as_pubkey}
use solus_protocol.Reconstruct.Keys.{Encoders, AccountIndexes, assemble}
use solus_protocol.Reconstruct.Token.Pack.{pack}

module _ {F D : Type 0} (x : External F D) (e : Encoders) (m : AccountIndexes) where
  unfoldable pub rebuild_close_account : String → ℕ → Json → Result CompiledInstruction
  rebuild_close_account program_id program_id_index info = do
    account ← get_field_as_pubkey x.from_str info "account"
    destination ← get_field_as_pubkey x.from_str info "destination"
    authority ← get_field_as_pubkey x.from_str info "owner"
    assemble m program_id_index (account ∷ destination ∷ authority ∷ [])
        (ok (pack x e program_id close_account))

  unfoldable pub rebuild_revoke : String → ℕ → Json → Result CompiledInstruction
  rebuild_revoke program_id program_id_index info = do
    source ← get_field_as_pubkey x.from_str info "source"
    owner ← get_field_as_pubkey x.from_str info "owner"
    assemble m program_id_index (source ∷ owner ∷ []) (ok (pack x e program_id revoke))

  unfoldable pub rebuild_set_authority : ℕ → Json → Result CompiledInstruction
  rebuild_set_authority program_id_index info = do
    account ← get_field_as_pubkey x.from_str info "account"
    current_authority ← get_field_as_pubkey x.from_str info "authority"
    assemble m program_id_index (account ∷ current_authority ∷ []) (ok (6 ∷ []))

  unfoldable pub rebuild_initialize_mint : ℕ → Json → Result CompiledInstruction
  rebuild_initialize_mint program_id_index info = do
    mint ← get_field_as_pubkey x.from_str info "mint"
    _ ← get_field_as_pubkey x.from_str info "mintAuthority"
    assemble m program_id_index (mint ∷ []) (ok (0 ∷ []))

  unfoldable pub rebuild_initialize_mint2 : ℕ → Json → Result CompiledInstruction
  rebuild_initialize_mint2 program_id_index info = do
    mint ← get_field_as_pubkey x.from_str info "mint"
    _ ← get_field_as_pubkey x.from_str info "mintAuthority"
    assemble m program_id_index (mint ∷ []) (ok (20 ∷ []))

  unfoldable pub rebuild_initialize_account : ℕ → Json → Result CompiledInstruction
  rebuild_initialize_account program_id_index info = do
    account ← get_field_as_pubkey x.from_str info "account"
    mint ← get_field_as_pubkey x.from_str info "mint"
    owner ← get_field_as_pubkey x.from_str info "owner"
    assemble m program_id_index (account ∷ mint ∷ owner ∷ []) (ok (1 ∷ []))

  unfoldable pub rebuild_initialize_account2 : ℕ → Json → Result CompiledInstruction
  rebuild_initialize_account2 program_id_index info = do
    account ← get_field_as_pubkey x.from_str info "account"
    mint ← get_field_as_pubkey x.from_str info "mint"
    _ ← get_field_as_pubkey x.from_str info "owner"
    assemble m program_id_index (account ∷ mint ∷ []) (ok (16 ∷ []))

  unfoldable pub rebuild_initialize_account3 : ℕ → Json → Result CompiledInstruction
  rebuild_initialize_account3 program_id_index info = do
    account ← get_field_as_pubkey x.from_str info "account"
    mint ← get_field_as_pubkey x.from_str info "mint"
    _ ← get_field_as_pubkey x.from_str info "owner"
    assemble m program_id_index (account ∷ mint ∷ []) (ok (18 ∷ []))

  unfoldable pub rebuild_initialize_multisig : ℕ → Json → Result CompiledInstruction
  rebuild_initialize_multisig program_id_index info = do
    multisig ← get_field_as_pubkey x.from_str info "multisig"
    _ ← ok_or (Json.get "signers" info) serialization_error
    assemble m program_id_index (multisig ∷ []) (ok (2 ∷ []))

  unfoldable pub rebuild_initialize_multisig2 : ℕ → Json → Result CompiledInstruction
  rebuild_initialize_multisig2 program_id_index info = do
    multisig ← get_field_as_pubkey x.from_str info "multisig"
    _ ← ok_or (Json.get "signers" info) serialization_error
    assemble m program_id_index (multisig ∷ []) (ok (19 ∷ []))

  unfoldable pub rebuild_freeze_account : String → ℕ → Json → Result CompiledInstruction
  rebuild_freeze_account program_id program_id_index info = do
    account ← get_field_as_pubkey x.from_str info "account"
    mint ← get_field_as_pubkey x.from_str info "mint"
    freeze_authority ← get_field_as_pubkey x.from_str info "freezeAuthority"
    assemble m program_id_index (account ∷ mint ∷ freeze_authority ∷ [])
        (ok (pack x e program_id freeze_account))

  unfoldable pub rebuild_thaw_account : String → ℕ → Json → Result CompiledInstruction
  rebuild_thaw_account program_id program_id_index info = do
    account ← get_field_as_pubkey x.from_str info "account"
    mint ← get_field_as_pubkey x.from_str info "mint"
    freeze_authority ← get_field_as_pubkey x.from_str info "freezeAuthority"
    assemble m program_id_index (account ∷ mint ∷ freeze_authority ∷ [])
        (ok (pack x e program_id thaw_account))

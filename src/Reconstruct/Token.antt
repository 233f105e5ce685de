-- ===== src/Reconstruct/Token.antt =====
-- `reconstruct_spl_token_instruction` of kora/crates/lib/src/transaction/instruction_util.rs: a token
-- instruction from the JSON form in which a simulation reports it.
mod Pack
mod Amounts
mod Accounts
unfoldable pub use Pack.*
unfoldable pub use Amounts.*
unfoldable pub use Accounts.*
use solus_protocol.Base.{ℕ, String, ◌==◌, string_eq, if◌then◌else◌}
use solus_protocol.Error.{Result, ok, err, serialization_error, ok_or, ◌>>=◌}
use solus_protocol.Instruction.{Pubkey, Bytes, CompiledInstruction, TokenInstruction}
use solus_protocol.External.{External}
use solus_protocol.Json
use solus_protocol.Json.{Json, get_field_as_str, get_field_as_u64, get_field_as_pubkey}
use solus_protocol.Reconstruct.Keys.{
  Encoders, AccountIndexes, get_account_index, build_default_compiled_instruction,
}

module _ {F D : Type 0} (x : External F D) (e : Encoders) (m : AccountIndexes) where
  -- The match on the type. Another type keeps only its program.
  unfoldable pub rebuild_token : String → String → ℕ → Json → Result CompiledInstruction
  unfolding rebuild_token_transfer rebuild_token_transfer_checked rebuild_burn rebuild_burn_checked
      rebuild_close_account rebuild_approve rebuild_approve_checked rebuild_revoke
      rebuild_set_authority rebuild_mint_to rebuild_mint_to_checked rebuild_initialize_mint
      rebuild_initialize_mint2 rebuild_initialize_account rebuild_initialize_account2
      rebuild_initialize_account3 rebuild_initialize_multisig rebuild_initialize_multisig2
      rebuild_freeze_account rebuild_thaw_account
  rebuild_token instruction_type program_id program_id_index info =
      if instruction_type == "transfer"
      then rebuild_token_transfer x e m program_id program_id_index info
      else if instruction_type == "transferChecked"
      then rebuild_token_transfer_checked x e m program_id program_id_index info
      else if instruction_type == "burn"
      then rebuild_burn x e m program_id program_id_index info
      else if instruction_type == "burnChecked"
      then rebuild_burn_checked x e m program_id program_id_index info
      else if instruction_type == "closeAccount"
      then rebuild_close_account x e m program_id program_id_index info
      else if instruction_type == "approve"
      then rebuild_approve x e m program_id program_id_index info
      else if instruction_type == "approveChecked"
      then rebuild_approve_checked x e m program_id program_id_index info
      else if instruction_type == "revoke"
      then rebuild_revoke x e m program_id program_id_index info
      else if instruction_type == "setAuthority"
      then rebuild_set_authority x e m program_id_index info
      else if instruction_type == "mintTo"
      then rebuild_mint_to x e m program_id program_id_index info
      else if instruction_type == "mintToChecked"
      then rebuild_mint_to_checked x e m program_id program_id_index info
      else if instruction_type == "initializeMint"
      then rebuild_initialize_mint x e m program_id_index info
      else if instruction_type == "initializeMint2"
      then rebuild_initialize_mint2 x e m program_id_index info
      else if instruction_type == "initializeAccount"
      then rebuild_initialize_account x e m program_id_index info
      else if instruction_type == "initializeAccount2"
      then rebuild_initialize_account2 x e m program_id_index info
      else if instruction_type == "initializeAccount3"
      then rebuild_initialize_account3 x e m program_id_index info
      else if instruction_type == "initializeMultisig"
      then rebuild_initialize_multisig x e m program_id_index info
      else if instruction_type == "initializeMultisig2"
      then rebuild_initialize_multisig2 x e m program_id_index info
      else if instruction_type == "freezeAccount"
      then rebuild_freeze_account x e m program_id program_id_index info
      else if instruction_type == "thawAccount"
      then rebuild_thaw_account x e m program_id program_id_index info
      else ok (build_default_compiled_instruction program_id_index)

  unfoldable pub reconstruct_spl_token_instruction : String → Json → Result CompiledInstruction
  unfolding rebuild_token
  reconstruct_spl_token_instruction program_id parsed = do
    program ← ok_or (x.from_str program_id) serialization_error
    program_id_index ← get_account_index m program
    instruction_type ← get_field_as_str parsed "type"
    info ← ok_or (Json.get "info" parsed) serialization_error
    rebuild_token instruction_type program_id program_id_index info

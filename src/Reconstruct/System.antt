-- ===== src/Reconstruct/System.antt =====
-- `reconstruct_system_instruction` of kora/crates/lib/src/transaction/instruction_util.rs: a System
-- instruction from the JSON form in which a simulation reports it, an arm for each type.
use solus_protocol.Base.{ℕ, String, ◌∷◌, [], ◌==◌, string_eq, if◌then◌else◌}
use solus_protocol.Error.{Result, ok, serialization_error, ok_or, ◌>>=◌}
use solus_protocol.Instruction.{
  Bytes, CompiledInstruction, SystemInstruction, create_account, create_account_with_seed,
  withdraw_nonce_account, transfer_with_seed, assign_with_seed, allocate_with_seed,
  initialize_nonce_account, advance_nonce_account, authorize_nonce_account,
}
use solus_protocol.External.{External}
use solus_protocol.Json
use solus_protocol.Json.{Json, get_field_as_str, get_field_as_u64, get_field_as_pubkey}
use solus_protocol.Reconstruct.Keys.{
  Encoders, AccountIndexes, get_account_index, build_default_compiled_instruction, assemble,
}

abbrev pub serialized : Encoders → SystemInstruction → Result Bytes
serialized e i = ok_or (e.serialize_system i) serialization_error

module _ {F D : Type 0} (x : External F D) (e : Encoders) (m : AccountIndexes) where
  unfoldable pub rebuild_transfer : ℕ → Json → Result CompiledInstruction
  rebuild_transfer program_id_index info = do
    source ← get_field_as_pubkey x.from_str info "source"
    destination ← get_field_as_pubkey x.from_str info "destination"
    lamports ← get_field_as_u64 info "lamports"
    assemble m program_id_index (source ∷ destination ∷ [])
        (serialized e (SystemInstruction.transfer lamports))

  unfoldable pub rebuild_create_account : ℕ → Json → Result CompiledInstruction
  rebuild_create_account program_id_index info = do
    source ← get_field_as_pubkey x.from_str info "source"
    new_account ← get_field_as_pubkey x.from_str info "newAccount"
    owner ← get_field_as_pubkey x.from_str info "owner"
    lamports ← get_field_as_u64 info "lamports"
    space ← get_field_as_u64 info "space"
    assemble m program_id_index (source ∷ new_account ∷ [])
        (serialized e (create_account lamports space owner))

  unfoldable pub rebuild_assign : ℕ → Json → Result CompiledInstruction
  rebuild_assign program_id_index info = do
    authority ← get_field_as_pubkey x.from_str info "account"
    owner ← get_field_as_pubkey x.from_str info "owner"
    assemble m program_id_index (authority ∷ []) (serialized e (SystemInstruction.assign owner))

  unfoldable pub rebuild_transfer_with_seed : ℕ → Json → Result CompiledInstruction
  rebuild_transfer_with_seed program_id_index info = do
    source ← get_field_as_pubkey x.from_str info "source"
    destination ← get_field_as_pubkey x.from_str info "destination"
    lamports ← get_field_as_u64 info "lamports"
    source_base ← get_field_as_pubkey x.from_str info "sourceBase"
    source_seed ← get_field_as_str info "sourceSeed"
    source_owner ← get_field_as_pubkey x.from_str info "sourceOwner"
    assemble m program_id_index (source ∷ source_base ∷ destination ∷ [])
        (serialized e (transfer_with_seed lamports source_seed source_owner))

  unfoldable pub rebuild_create_account_with_seed : ℕ → Json → Result CompiledInstruction
  rebuild_create_account_with_seed program_id_index info = do
    source ← get_field_as_pubkey x.from_str info "source"
    new_account ← get_field_as_pubkey x.from_str info "newAccount"
    base ← get_field_as_pubkey x.from_str info "base"
    seed ← get_field_as_str info "seed"
    owner ← get_field_as_pubkey x.from_str info "owner"
    lamports ← get_field_as_u64 info "lamports"
    space ← get_field_as_u64 info "space"
    assemble m program_id_index (source ∷ new_account ∷ base ∷ [])
        (serialized e (create_account_with_seed base seed lamports space owner))

  unfoldable pub rebuild_assign_with_seed : ℕ → Json → Result CompiledInstruction
  rebuild_assign_with_seed program_id_index info = do
    account ← get_field_as_pubkey x.from_str info "account"
    base ← get_field_as_pubkey x.from_str info "base"
    seed ← get_field_as_str info "seed"
    owner ← get_field_as_pubkey x.from_str info "owner"
    assemble m program_id_index (account ∷ base ∷ [])
        (serialized e (assign_with_seed base seed owner))

  unfoldable pub rebuild_withdraw_nonce : ℕ → Json → Result CompiledInstruction
  rebuild_withdraw_nonce program_id_index info = do
    nonce_account ← get_field_as_pubkey x.from_str info "nonceAccount"
    recipient ← get_field_as_pubkey x.from_str info "destination"
    nonce_authority ← get_field_as_pubkey x.from_str info "nonceAuthority"
    lamports ← get_field_as_u64 info "lamports"
    assemble m program_id_index (nonce_account ∷ recipient ∷ nonce_authority ∷ [])
        (serialized e (withdraw_nonce_account lamports))

  unfoldable pub rebuild_allocate : ℕ → Json → Result CompiledInstruction
  rebuild_allocate program_id_index info = do
    account ← get_field_as_pubkey x.from_str info "account"
    space ← get_field_as_u64 info "space"
    assemble m program_id_index (account ∷ []) (serialized e (SystemInstruction.allocate space))

  unfoldable pub rebuild_allocate_with_seed : ℕ → Json → Result CompiledInstruction
  rebuild_allocate_with_seed program_id_index info = do
    account ← get_field_as_pubkey x.from_str info "account"
    base ← get_field_as_pubkey x.from_str info "base"
    seed ← get_field_as_str info "seed"
    space ← get_field_as_u64 info "space"
    owner ← get_field_as_pubkey x.from_str info "owner"
    assemble m program_id_index (account ∷ base ∷ [])
        (serialized e (allocate_with_seed base seed space owner))

  unfoldable pub rebuild_initialize_nonce : ℕ → Json → Result CompiledInstruction
  rebuild_initialize_nonce program_id_index info = do
    nonce_account ← get_field_as_pubkey x.from_str info "nonceAccount"
    nonce_authority ← get_field_as_pubkey x.from_str info "nonceAuthority"
    assemble m program_id_index (nonce_account ∷ [])
        (serialized e (initialize_nonce_account nonce_authority))

  unfoldable pub rebuild_advance_nonce : ℕ → Json → Result CompiledInstruction
  rebuild_advance_nonce program_id_index info = do
    nonce_account ← get_field_as_pubkey x.from_str info "nonceAccount"
    nonce_authority ← get_field_as_pubkey x.from_str info "nonceAuthority"
    assemble m program_id_index (nonce_account ∷ nonce_authority ∷ [])
        (serialized e advance_nonce_account)

  unfoldable pub rebuild_authorize_nonce : ℕ → Json → Result CompiledInstruction
  rebuild_authorize_nonce program_id_index info = do
    nonce_account ← get_field_as_pubkey x.from_str info "nonceAccount"
    nonce_authority ← get_field_as_pubkey x.from_str info "nonceAuthority"
    new_authority ← get_field_as_pubkey x.from_str info "newAuthority"
    assemble m program_id_index (nonce_account ∷ nonce_authority ∷ [])
        (serialized e (authorize_nonce_account new_authority))

  -- The match on the type. Another type keeps only its program.
  unfoldable pub rebuild_system : String → ℕ → Json → Result CompiledInstruction
  unfolding rebuild_transfer rebuild_create_account rebuild_assign rebuild_transfer_with_seed
      rebuild_create_account_with_seed rebuild_assign_with_seed rebuild_withdraw_nonce
      rebuild_allocate rebuild_allocate_with_seed rebuild_initialize_nonce rebuild_advance_nonce
      rebuild_authorize_nonce
  rebuild_system instruction_type program_id_index info =
      if instruction_type == "transfer"
      then rebuild_transfer program_id_index info
      else if instruction_type == "createAccount"
      then rebuild_create_account program_id_index info
      else if instruction_type == "assign"
      then rebuild_assign program_id_index info
      else if instruction_type == "transferWithSeed"
      then rebuild_transfer_with_seed program_id_index info
      else if instruction_type == "createAccountWithSeed"
      then rebuild_create_account_with_seed program_id_index info
      else if instruction_type == "assignWithSeed"
      then rebuild_assign_with_seed program_id_index info
      else if instruction_type == "withdrawFromNonce"
      then rebuild_withdraw_nonce program_id_index info
      else if instruction_type == "allocate"
      then rebuild_allocate program_id_index info
      else if instruction_type == "allocateWithSeed"
      then rebuild_allocate_with_seed program_id_index info
      else if instruction_type == "initializeNonce"
      then rebuild_initialize_nonce program_id_index info
      else if instruction_type == "advanceNonce"
      then rebuild_advance_nonce program_id_index info
      else if instruction_type == "authorizeNonce"
      then rebuild_authorize_nonce program_id_index info
      else ok (build_default_compiled_instruction program_id_index)

  -- `parsed` is the field of that name of the parsed instruction.
  unfoldable pub reconstruct_system_instruction : Json → Result CompiledInstruction
  unfolding rebuild_system
  reconstruct_system_instruction parsed = do
    program_id_index ← get_account_index m x.programs.system_program
    instruction_type ← get_field_as_str parsed "type"
    info ← ok_or (Json.get "info" parsed) serialization_error
    rebuild_system instruction_type program_id_index info

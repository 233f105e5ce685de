-- ===== src/Reconstruct/Token/Amounts.antt =====
-- The arms of `reconstruct_spl_token_instruction`
-- (kora/crates/lib/src/transaction/instruction_util.rs) for instructions that carry an amount.
use solus_protocol.Base.{ℕ, String, ◌∷◌, []}
use solus_protocol.Error.{Result, ok, serialization_error, ok_or, ◌>>=◌}
use solus_protocol.Instruction.{
  CompiledInstruction, TokenInstruction, transfer_checked, approve, approve_checked, mint_to,
  mint_to_checked, burn_checked, burn,
}
use solus_protocol.External.{External}
use solus_protocol.Json
use solus_protocol.Json.{Json, get_field_as_str, get_field_as_u64, get_field_as_pubkey}
use solus_protocol.Reconstruct.Keys.{Encoders, AccountIndexes, assemble}
use solus_protocol.Reconstruct.Token.Pack.{pack, as_u8, or_zero}

module _ {F D : Type 0} (x : External F D) (e : Encoders) (m : AccountIndexes) where
  unfoldable pub rebuild_token_transfer : String → ℕ → Json → Result CompiledInstruction
  rebuild_token_transfer program_id program_id_index info = do
    source ← get_field_as_pubkey x.from_str info "source"
    destination ← get_field_as_pubkey x.from_str info "destination"
    authority ← get_field_as_pubkey x.from_str info "authority"
    amount ← get_field_as_u64 info "amount"
    assemble m program_id_index (source ∷ destination ∷ authority ∷ [])
        (ok (pack x e program_id (TokenInstruction.transfer amount)))

  unfoldable pub rebuild_token_transfer_checked : String → ℕ → Json → Result CompiledInstruction
  rebuild_token_transfer_checked program_id program_id_index info = do
    source ← get_field_as_pubkey x.from_str info "source"
    destination ← get_field_as_pubkey x.from_str info "destination"
    authority ← get_field_as_pubkey x.from_str info "authority"
    mint ← get_field_as_pubkey x.from_str info "mint"
    token_amount ← ok_or (Json.get "tokenAmount" info) serialization_error
    amount ← get_field_as_u64 token_amount "amount"
    decimals ← as_u8 (get_field_as_u64 token_amount "decimals")
    assemble m program_id_index (source ∷ mint ∷ destination ∷ authority ∷ [])
        (ok (pack x e program_id (transfer_checked amount decimals)))

  unfoldable pub rebuild_approve : String → ℕ → Json → Result CompiledInstruction
  rebuild_approve program_id program_id_index info = do
    source ← get_field_as_pubkey x.from_str info "source"
    delegate ← get_field_as_pubkey x.from_str info "delegate"
    owner ← get_field_as_pubkey x.from_str info "owner"
    amount ← get_field_as_u64 info "amount"
    assemble m program_id_index (source ∷ delegate ∷ owner ∷ [])
        (ok (pack x e program_id (approve amount)))

  unfoldable pub rebuild_approve_checked : String → ℕ → Json → Result CompiledInstruction
  rebuild_approve_checked program_id program_id_index info = do
    source ← get_field_as_pubkey x.from_str info "source"
    delegate ← get_field_as_pubkey x.from_str info "delegate"
    owner ← get_field_as_pubkey x.from_str info "owner"
    mint ← get_field_as_pubkey x.from_str info "mint"
    token_amount ← ok_or (Json.get "tokenAmount" info) serialization_error
    amount ← get_field_as_u64 token_amount "amount"
    decimals ← as_u8 (get_field_as_u64 token_amount "decimals")
    assemble m program_id_index (source ∷ mint ∷ delegate ∷ owner ∷ [])
        (ok (pack x e program_id (approve_checked amount decimals)))

  unfoldable pub rebuild_mint_to : String → ℕ → Json → Result CompiledInstruction
  rebuild_mint_to program_id program_id_index info = do
    mint ← get_field_as_pubkey x.from_str info "mint"
    account ← get_field_as_pubkey x.from_str info "account"
    mint_authority ← get_field_as_pubkey x.from_str info "mintAuthority"
    amount ← get_field_as_u64 info "amount"
    assemble m program_id_index (mint ∷ account ∷ mint_authority ∷ [])
        (ok (pack x e program_id (mint_to amount)))

  unfoldable pub rebuild_mint_to_checked : String → ℕ → Json → Result CompiledInstruction
  rebuild_mint_to_checked program_id program_id_index info = do
    mint ← get_field_as_pubkey x.from_str info "mint"
    account ← get_field_as_pubkey x.from_str info "account"
    mint_authority ← get_field_as_pubkey x.from_str info "mintAuthority"
    token_amount ← ok_or (Json.get "tokenAmount" info) serialization_error
    amount ← get_field_as_u64 token_amount "amount"
    decimals ← as_u8 (get_field_as_u64 token_amount "decimals")
    assemble m program_id_index (mint ∷ account ∷ mint_authority ∷ [])
        (ok (pack x e program_id (mint_to_checked amount decimals)))

  unfoldable pub rebuild_burn_checked : String → ℕ → Json → Result CompiledInstruction
  rebuild_burn_checked program_id program_id_index info = do
    account ← get_field_as_pubkey x.from_str info "account"
    authority ← get_field_as_pubkey x.from_str info "authority"
    token_amount ← ok_or (Json.get "tokenAmount" info) serialization_error
    amount ← get_field_as_u64 token_amount "amount"
    decimals ← as_u8 (get_field_as_u64 token_amount "decimals")
    mint ← get_field_as_pubkey x.from_str info "mint"
    assemble m program_id_index (account ∷ mint ∷ authority ∷ [])
        (ok (pack x e program_id (burn_checked amount decimals)))

  unfoldable pub rebuild_burn : String → ℕ → Json → Result CompiledInstruction
  rebuild_burn program_id program_id_index info = do
    account ← get_field_as_pubkey x.from_str info "account"
    authority ← get_field_as_pubkey x.from_str info "authority"
    amount ← or_zero (get_field_as_u64 info "amount")
    assemble m program_id_index (account ∷ authority ∷ []) (ok (pack x e program_id (burn amount)))

-- ===== src/Reconstruct/Ui.antt =====
-- `reconstruct_instruction_from_ui` of kora/crates/lib/src/transaction/instruction_util.rs.
use solus_protocol.Base.{
  ℕ, String, Option, none, some, List, [], ◌∷◌, ◌==◌, ◌||◌, string_eq, if◌then◌else◌,
}
use solus_protocol.Error.{Result, ok, err}
use solus_protocol.Instruction.{Pubkey, Bytes, CompiledInstruction}
use solus_protocol.External.{External}
use solus_protocol.Json.{Json}
use solus_protocol.Reconstruct.Keys.{
  Encoders, AccountIndexes, index_of, build_account_keys_hashmap,
  build_default_compiled_instruction,
}
use solus_protocol.Reconstruct.System.{reconstruct_system_instruction}
use solus_protocol.Reconstruct.Token.{reconstruct_spl_token_instruction}

-- An instruction as a simulation reports it: compiled, parsed by the node (its program, and the
-- JSON), or decoded in part.
pub data UiInstruction : Type 0 where
  compiled : ℕ → List ℕ → String → UiInstruction
  parsed : String → Json → UiInstruction
  partially_decoded : String → List String → String → UiInstruction

-- `.ok()`
abbrev pub ok_of : {A : Type 0} → Result A → Option A
ok_of (ok a) = some a
ok_of (err _) = none

module _ {F D : Type 0} (x : External F D) (e : Encoders) where
  -- `bs58::decode(..).into_vec().unwrap_or_default()`
  unfoldable pub bytes_of : String → Bytes
  bytes_of s = elim (e.decode_base58 s) [ none ↦ [] | some bytes ↦ bytes ]

  -- `filter_map` over the addresses: what is no key, or none of the transaction, is dropped.
  unfoldable pub known_indexes : AccountIndexes → List String → List ℕ
  known_indexes m [] = []
  known_indexes m (address ∷ addresses) =
      let rest = known_indexes m addresses in
      elim (x.from_str address) [
        | none ↦ rest
        | some k ↦ elim (index_of m k) [ none ↦ rest | some i ↦ i ∷ rest ]
      ]

  unfoldable pub reconstruct_stub : AccountIndexes → String → Option CompiledInstruction
  reconstruct_stub m program_id = elim (x.from_str program_id) [
    | none ↦ none
    | some k ↦ elim (index_of m k) [
      | none ↦ none
      | some i ↦ some (build_default_compiled_instruction i)
    ]
  ]

  unfoldable pub reconstruct_parsed : AccountIndexes → String → Json → Option CompiledInstruction
  reconstruct_parsed m program_id json =
      if program_id == x.to_string x.programs.system_program
      then ok_of (reconstruct_system_instruction x e m json)
      else if program_id == x.to_string x.programs.spl_token
          || program_id == x.to_string x.programs.spl_token_2022
      then ok_of (reconstruct_spl_token_instruction x e m program_id json)
      else reconstruct_stub m program_id

  unfoldable pub reconstruct_partially_decoded :
      AccountIndexes → String → List String → String → Option CompiledInstruction
  unfolding known_indexes bytes_of
  reconstruct_partially_decoded m program_id accounts encoded = elim (x.from_str program_id) [
    | none ↦ none
    | some k ↦ elim (index_of m k) [
      | none ↦ none
      | some i ↦ some (record {
        program_id_index = i;
        account_indexes = known_indexes m accounts;
        payload = bytes_of encoded;
      })
    ]
  ]

  unfoldable pub reconstruct_instruction_from_ui :
      UiInstruction → List Pubkey → Option CompiledInstruction
  unfolding reconstruct_parsed reconstruct_partially_decoded bytes_of
  reconstruct_instruction_from_ui (compiled i accounts encoded) all_account_keys =
      some (record { program_id_index = i; account_indexes = accounts; payload = bytes_of encoded })
  reconstruct_instruction_from_ui (parsed program_id json) all_account_keys =
      reconstruct_parsed (build_account_keys_hashmap all_account_keys) program_id json
  reconstruct_instruction_from_ui (partially_decoded program_id accounts encoded) all_account_keys =
      reconstruct_partially_decoded (build_account_keys_hashmap all_account_keys) program_id
        accounts encoded

-- ===== src/Reconstruct/Keys.antt =====
-- The indexes of a transaction's keys, the encoders of instructions, and how an arm of the
-- reconstruction puts its instruction together.
use solus_protocol.Base.{
  ℕ, ◌+◌, ◌%◌, String, Option, none, some, List, [], ◌∷◌, ◌==◌, nat_eq, if◌then◌else◌,
}
use solus_protocol.Error.{Result, ok, serialization_error, ok_or, traverse, ◌>>=◌}
use solus_protocol.Instruction.{
  Pubkey, Bytes, CompiledInstruction, SystemInstruction, TokenInstruction,
}

-- `bincode::serialize`, `TokenInstruction::pack` of the two interface crates, and `bs58::decode`.
pub record Encoders : Type 0 where
  pub serialize_system : SystemInstruction → Option Bytes
  pub pack_spl : TokenInstruction → Bytes
  pub pack_2022 : TokenInstruction → Bytes
  pub decode_base58 : String → Option Bytes

-- `HashMap<Pubkey, u8>`: the newest entry of a key counts.
abbrev pub AccountIndexes : Type 0
AccountIndexes = List (Pubkey × ℕ)

unfoldable pub index_of : AccountIndexes → Pubkey → Option ℕ
index_of [] k = none
index_of ((j, i) ∷ m) k = if j == k then some i else index_of m k

-- `idx as u8` keeps the low 8 bits.
unfoldable pub index_keys : ℕ → List Pubkey → AccountIndexes → AccountIndexes
index_keys idx [] m = m
index_keys idx (k ∷ ks) m = index_keys (idx + 1) ks ((k, idx % 256) ∷ m)

unfoldable pub build_account_keys_hashmap : List Pubkey → AccountIndexes
unfolding index_keys
build_account_keys_hashmap account_keys = index_keys 0 account_keys []

unfoldable pub get_account_index : AccountIndexes → Pubkey → Result ℕ
unfolding index_of
get_account_index m k = ok_or (index_of m k) serialization_error

unfoldable pub build_default_compiled_instruction : ℕ → CompiledInstruction
build_default_compiled_instruction program_id_index = record {
  program_id_index = program_id_index;
  account_indexes = [];
  payload = [];
}

-- The end of an arm: the indexes of its accounts, its bytes, and the instruction. Both fail with the
-- same error, so the order in which the indexes are looked up cannot be told.
unfoldable pub assemble :
    AccountIndexes → ℕ → List Pubkey → Result Bytes → Result CompiledInstruction
assemble m program_id_index accounts encoded = do
  indexes ← traverse (get_account_index m) accounts
  payload ← encoded
  ok (record { program_id_index = program_id_index; account_indexes = indexes; payload = payload })

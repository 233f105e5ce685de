-- ===== src/Resolve.antt =====
-- From compiled to plain instructions: `LookupTableUtil`, `from_kora_built_transaction` and the caches
-- of `VersionedTransactionResolved` (kora/crates/lib/src/transaction/versioned_transaction.rs), and
-- `uncompile_instructions` of kora/crates/lib/src/transaction/instruction_util.rs.
pub mod Addresses
pub mod Lookups
pub mod Cache
pub mod Inner
pub mod Order
use solus_protocol.Base.{ℕ, Bool, true, false, Option, none, some, List, [], ◌∷◌, ◌++◌, get_elem?}
use solus_protocol.Error.{
  Result, ok, err, rpc_error, invalid_transaction, serialization_error, ok_or, map_err, traverse,
  ◌>>=◌,
}
use solus_protocol.Instruction.{
  Pubkey, Bytes, AccountMeta, Instruction, CompiledInstruction, Programs,
}
use solus_protocol.External.{External}
use solus_protocol.Parse.{
  SystemTable, SplTable, parse_system_instructions, parse_token_instructions,
}
use solus_protocol.Transaction.{AddressTableLookup, VersionedTransaction, Resolved}

unfoldable pub get_account_key_required : List Pubkey → ℕ → Result Pubkey
get_account_key_required account_keys index =
    ok_or (get_elem? account_keys index) serialization_error

-- Every account becomes writable and no signer.
abbrev pub account_meta : Pubkey → AccountMeta
account_meta k = record { pubkey = k; is_signer = false; is_writable = true }

unfoldable pub uncompile_instruction : List Pubkey → CompiledInstruction → Result Instruction
unfolding get_account_key_required
uncompile_instruction account_keys ix = do
  program_id ← get_account_key_required account_keys ix.program_id_index
  accounts ←
      traverse (λ index. get_account_key_required account_keys index >>= λ k. ok (account_meta k))
        ix.account_indexes
  ok (record { program_id = program_id; accounts = accounts; payload = ix.payload })

unfoldable pub uncompile_instructions :
    List CompiledInstruction → List Pubkey → Result (List Instruction)
unfolding uncompile_instruction
uncompile_instructions ixs account_keys = traverse (uncompile_instruction account_keys) ixs

-- The two loops over the indexes of a lookup.
unfoldable pub addresses_at : List Pubkey → List ℕ → Result (List Pubkey)
addresses_at addresses = traverse (λ index. ok_or (get_elem? addresses index) invalid_transaction)

-- `AddressLookupTable::deserialize` is the argument `deserialize`.
module _ {F D : Type 0} (x : External F D) (deserialize : Bytes → Option (List Pubkey)) where
  unfoldable pub resolve_lookup : AddressTableLookup → Result (List Pubkey)
  unfolding addresses_at
  resolve_lookup lookup = do
    account ← map_err (x.get_account lookup.account_key false) rpc_error
    addresses ← ok_or (deserialize account.payload) invalid_transaction
    writable ← addresses_at addresses lookup.writable_indexes
    readonly ← addresses_at addresses lookup.readonly_indexes
    ok (writable ++ readonly)

  unfoldable pub resolve_lookup_table_addresses : List AddressTableLookup → Result (List Pubkey)
  unfolding resolve_lookup
  resolve_lookup_table_addresses [] = ok []
  resolve_lookup_table_addresses (lookup ∷ lookups) = do
    resolved ← resolve_lookup lookup
    rest ← resolve_lookup_table_addresses lookups
    ok (resolved ++ rest)

  -- The keys of a transaction: its own, then the resolved ones.
  unfoldable pub all_account_keys_of : VersionedTransaction → Result (List Pubkey)
  unfolding resolve_lookup_table_addresses
  all_account_keys_of t = elim t.address_table_lookups [
    | none ↦ ok (t.static_account_keys ++ [])
    | some lookups ↦ resolve_lookup_table_addresses lookups >>= λ resolved.
        ok (t.static_account_keys ++ resolved)
  ]

unfoldable pub from_kora_built_transaction : VersionedTransaction → Result Resolved
unfolding uncompile_instructions
from_kora_built_transaction t = do
  instructions ← uncompile_instructions t.instructions t.static_account_keys
  ok (record {
    transaction = t;
    all_account_keys = t.static_account_keys;
    all_instructions = instructions;
    parsed_system_instructions = none;
    parsed_spl_instructions = none;
  })

-- The tables are parsed on first use and kept: `none` is replaced by the parsed table.
abbrev pub kept_or : {T : Type 0} → Option T → Result T → Result T
kept_or none parsed = parsed
kept_or (some t) parsed = ok t

module _ (p : Programs) where
  unfoldable pub get_or_parse_system_instructions : Resolved → Result (SystemTable × Resolved)
  get_or_parse_system_instructions r = do
    t ← kept_or r.parsed_system_instructions (parse_system_instructions p r.all_instructions)
    ok (t, record r { parsed_system_instructions = some t })

  unfoldable pub get_or_parse_spl_instructions : Resolved → Result (SplTable × Resolved)
  get_or_parse_spl_instructions r = do
    t ← kept_or r.parsed_spl_instructions (parse_token_instructions p r.all_instructions)
    ok (t, record r { parsed_spl_instructions = some t })

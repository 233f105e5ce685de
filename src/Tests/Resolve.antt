-- ===== src/Tests/Resolve.antt =====
-- Compiled instructions with a lookup table, resolved.
use solus_protocol.Base.{Bool, true, ◌++◌, Option, none, some, List, [], ◌∷◌, ◌≡◌, ◌↔◌, refl}
use solus_protocol.Error.{ok, ◌>>=◌}
use solus_protocol.Instruction.{Pubkey, Bytes, Instruction, CompiledInstruction}
use solus_protocol.Parse.{
  system_transfer, ParsedSystemData, parse_system_instructions, parse_token_instructions,
}
use solus_protocol.Transaction.{AddressTableLookup, VersionedTransaction, Resolved}
use solus_protocol.Resolve.{
  uncompile_instructions, resolve_lookup_table_addresses, from_kora_built_transaction,
  get_or_parse_system_instructions, get_or_parse_spl_instructions, account_meta,
}
use solus_protocol.Resolve.Lookups.{NamesAll, resolve_lookup_table_addresses_iff}
use solus_protocol.Resolve.Order.{two_lookups-network_order_iff}
use solus_protocol.Reconstruct.{Encoders, UiInstruction}
use solus_protocol.Resolve.Inner.{Simulation, from_transaction}
use solus_protocol.Resolve.Inner.Whole.{IsResolved, from_transaction_iff}
use solus_protocol.Resolve.Cache.{of_system, of_spl, accesses, accesses-transparent}
use solus_protocol.Tests.World.{world, programs, kora, user, token_account}

abbrev keys : List Pubkey
keys = kora ∷ user ∷ 100 ∷ []

-- The transfer of 40 lamports from the fee payer to the user.
abbrev compiled : List CompiledInstruction
compiled = record { program_id_index = 2; account_indexes = 0 ∷ 1 ∷ []; payload = 40 ∷ [] } ∷ []

abbrev plain : List Instruction
plain =
    record {
      program_id = 100;
      accounts = account_meta kora ∷ account_meta user ∷ [];
      payload = 40 ∷ [];
    }
    ∷ []

abbrev table_of : Bytes → Option (List Pubkey)
table_of bytes = some bytes

-- The account 20 of the chain holds the numbers 10 and 2, here read as a table of two keys.
abbrev lookups : List AddressTableLookup
lookups = record { account_key = 20; writable_indexes = 1 ∷ []; readonly_indexes = 0 ∷ [] } ∷ []

lookups_resolve : resolve_lookup_table_addresses world table_of lookups ≡ ok (2 ∷ 10 ∷ [])
unfolding resolve_lookup_table_addresses
lookups_resolve = refl

resolve_lookup_table_addresses_iff_example :
    (resolve_lookup_table_addresses world table_of lookups ≡ ok (2 ∷ 10 ∷ []))
    ↔ NamesAll world table_of lookups (2 ∷ 10 ∷ [])
resolve_lookup_table_addresses_iff_example =
    resolve_lookup_table_addresses_iff world table_of lookups (2 ∷ 10 ∷ [])

abbrev transaction : VersionedTransaction
transaction = record {
  signatures = 0 ∷ [];
  num_required_signatures = 1;
  static_account_keys = keys;
  recent_blockhash = 3;
  instructions = compiled;
  address_table_lookups = none;
}

abbrev built : Resolved
built = record {
  transaction = transaction;
  all_account_keys = keys;
  all_instructions = plain;
  parsed_system_instructions = none;
  parsed_spl_instructions = none;
}

transaction_built : from_kora_built_transaction transaction ≡ ok built
unfolding from_kora_built_transaction
transaction_built = refl

-- Both tables are used, the first one twice.
abbrev used : Resolved
used = record built {
  parsed_system_instructions =
      some ((system_transfer, ParsedSystemData.transfer_data 40 kora user ∷ []) ∷ []);
  parsed_spl_instructions = some [];
}

tables_used : accesses programs (of_system ∷ of_spl ∷ of_system ∷ []) built ≡ ok used
unfolding accesses get_or_parse_spl_instructions get_or_parse_system_instructions
    parse_system_instructions parse_token_instructions solus_protocol.Parse.account_at
    solus_protocol.Parse.read_system solus_protocol.Parse.read_token
    solus_protocol.Parse.system_entry
tables_used = refl

accesses-transparent_example :
    ((get_or_parse_system_instructions programs used >>= λ s. ok s.0)
      ≡ parse_system_instructions programs plain)
    × ((get_or_parse_spl_instructions programs used >>= λ s. ok s.0)
        ≡ parse_token_instructions programs plain)
    × (used.all_instructions ≡ plain)
accesses-transparent_example =
    accesses-transparent programs transaction (of_system ∷ of_spl ∷ of_system ∷ []) built used
      transaction_built tables_used

-- Two tables: the second lookup's writable key comes behind the readonly key of the first.
abbrev first_lookup : AddressTableLookup
first_lookup = record { account_key = 20; writable_indexes = 1 ∷ []; readonly_indexes = 0 ∷ [] }

abbrev second_lookup : AddressTableLookup
second_lookup = record { account_key = 21; writable_indexes = 1 ∷ []; readonly_indexes = [] }

two_lookups-network_order_iff_example :
    (resolve_lookup_table_addresses world table_of (first_lookup ∷ second_lookup ∷ [])
      ≡ ok (2 ∷ 1 ∷ 10 ∷ []))
    ↔ (◌≡◌ {A = List Pubkey} (10 ∷ 1 ∷ []) (1 ∷ 10 ∷ []))
two_lookups-network_order_iff_example =
    two_lookups-network_order_iff world table_of first_lookup second_lookup (2 ∷ []) (10 ∷ [])
      (1 ∷ []) [] (token_account 10 user, 10 ∷ 2 ∷ [], refl, refl, (refl, tt), (refl, tt))
      (token_account 10 kora, 10 ∷ 1 ∷ [], refl, refl, (refl, tt), tt)

-- A simulation that finds the same transfer once more inside.
abbrev no_encoders : Encoders
no_encoders = record {
  serialize_system = λ i. none;
  pack_spl = λ i. [];
  pack_2022 = λ i. [];
  decode_base58 = λ s. some (40 ∷ []);
}

abbrev found_inside : VersionedTransaction → Bool → Option Simulation
found_inside t sig_verify = some (record {
  failure = none;
  inner_instructions = some ((UiInstruction.compiled 2 (0 ∷ 1 ∷ []) "h" ∷ []) ∷ []);
})

abbrev whole : Resolved
whole = record built { all_instructions = plain ++ plain }

from_transaction_iff_example :
    (from_transaction world no_encoders found_inside table_of transaction true ≡ ok whole)
    ↔ IsResolved world no_encoders found_inside table_of transaction true whole
from_transaction_iff_example =
    from_transaction_iff world no_encoders found_inside table_of transaction true whole

whole_resolved :
    from_transaction world no_encoders found_inside table_of transaction true ≡ ok whole
unfolding from_transaction uncompile_instructions solus_protocol.Resolve.all_account_keys_of
    solus_protocol.Reconstruct.reconstruct_instruction_from_ui
whole_resolved = refl

-- ===== src/Resolve/Inner.antt =====
-- `from_transaction` and `fetch_inner_instructions` of
-- kora/crates/lib/src/transaction/versioned_transaction.rs: the instructions of a transaction, its own
-- and those that a simulation finds inside.
pub mod Whole
use solus_protocol.Base.{Bool, Option, none, some, List, [], ◌∷◌, ◌++◌, String}
use solus_protocol.Error.{Result, ok, err, rpc_error, invalid_transaction, ok_or, ◌>>=◌}
use solus_protocol.Instruction.{Pubkey, Bytes, Instruction, CompiledInstruction}
use solus_protocol.External.{External}
use solus_protocol.Transaction.{VersionedTransaction, Resolved}
use solus_protocol.Reconstruct.{Encoders, UiInstruction, reconstruct_instruction_from_ui}
use solus_protocol.Resolve.{uncompile_instructions, all_account_keys_of}

-- What the node answers to a simulation: an error of the transaction, and the inner instructions of
-- each instruction that has some. They may be missing.
pub record Simulation : Type 0 where
  pub failure : Option String
  pub inner_instructions : Option (List (List UiInstruction))

-- `simulate` stands for the node, by transaction and `sig_verify`; `none` if the call fails.
module _ {F D : Type 0} (x : External F D) (e : Encoders)
    (simulate : VersionedTransaction → Bool → Option Simulation) where
  -- An instruction that cannot be rebuilt is left out.
  unfoldable pub rebuilt : List Pubkey → List UiInstruction → List CompiledInstruction
  rebuilt keys [] = []
  rebuilt keys (ix ∷ ixs) =
      let rest = rebuilt keys ixs in
      elim (reconstruct_instruction_from_ui x e ix keys) [ none ↦ rest | some c ↦ c ∷ rest ]

  unfoldable pub rebuilt_all : List Pubkey → List (List UiInstruction) → List CompiledInstruction
  unfolding rebuilt
  rebuilt_all keys [] = []
  rebuilt_all keys (ixs ∷ groups) = rebuilt keys ixs ++ rebuilt_all keys groups

  unfoldable pub inner_of :
      List Pubkey → Option (List (List UiInstruction)) → Result (List Instruction)
  unfolding rebuilt_all
  inner_of keys none = ok []
  inner_of keys (some groups) = uncompile_instructions (rebuilt_all keys groups) keys

  unfoldable pub fetch_inner_instructions :
      VersionedTransaction → List Pubkey → Bool → Result (List Instruction)
  unfolding inner_of
  fetch_inner_instructions t keys sig_verify = do
    simulation ← ok_or (simulate t sig_verify) rpc_error
    elim simulation.failure [
      | some failure ↦ err invalid_transaction
      | none ↦ inner_of keys simulation.inner_instructions
    ]

  unfoldable pub from_transaction :
      (Bytes → Option (List Pubkey)) → VersionedTransaction → Bool → Result Resolved
  unfolding fetch_inner_instructions
  from_transaction deserialize t sig_verify = do
    all_account_keys ← all_account_keys_of x deserialize t
    outer_instructions ← uncompile_instructions t.instructions all_account_keys
    inner_instructions ← fetch_inner_instructions t all_account_keys sig_verify
    ok (record {
      transaction = t;
      all_account_keys = all_account_keys;
      all_instructions = outer_instructions ++ inner_instructions;
      parsed_system_instructions = none;
      parsed_spl_instructions = none;
    })

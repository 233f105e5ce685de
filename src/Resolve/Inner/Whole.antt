-- ===== src/Resolve/Inner/Whole.antt =====
-- What a resolved transaction is: all keys, and plain instructions for its own and for the inner ones.
use solus_protocol.Base.{Bool, Option, none, some, List, [], ◌∷◌, ◌++◌, ◌≡◌, ◌↔◌, refl, ap, String}
use solus_protocol.Error.{
  ok, err, rpc_error, invalid_transaction, ok_or, ◌>>=◌, >>=-eq-ok, ok_or-eq-ok, ok-injective,
}
use solus_protocol.Error.Traverse.{AllPairs}
use solus_protocol.Instruction.{Pubkey, Bytes, Instruction, CompiledInstruction}
use solus_protocol.External.{External}
use solus_protocol.Transaction.{VersionedTransaction, Resolved, AddressTableLookup}
use solus_protocol.Reconstruct.{Encoders, UiInstruction}
use solus_protocol.Resolve.{
  uncompile_instructions, all_account_keys_of, resolve_lookup_table_addresses,
}
use solus_protocol.Resolve.Addresses.{StandsFor, uncompile_instructions_iff}
use solus_protocol.Resolve.Lookups.{NamesAll, resolve_lookup_table_addresses_iff}
use solus_protocol.Resolve.Inner.{
  Simulation, rebuilt_all, inner_of, fetch_inner_instructions, from_transaction,
}

module _ {F D : Type 0} (x : External F D) (e : Encoders)
    (simulate : VersionedTransaction → Bool → Option Simulation)
    (deserialize : Bytes → Option (List Pubkey)) where
  -- The keys of a transaction without lookups are its own; else those that the lookups name follow.
  abbrev pub KeysBy : List Pubkey → Option (List AddressTableLookup) → List Pubkey → Type 0
  KeysBy own none ks = own ++ [] ≡ ks
  KeysBy own (some lookups) ks =
      (found : List Pubkey) × NamesAll x deserialize lookups found × (own ++ found ≡ ks)

  abbrev pub compiled_inner :
      List Pubkey → Option (List (List UiInstruction)) → List CompiledInstruction
  compiled_inner keys none = []
  compiled_inner keys (some groups) = rebuilt_all x e simulate keys groups

  abbrev pub assembled : VersionedTransaction → List Pubkey → List Instruction → Resolved
  assembled t keys instructions = record {
    transaction = t;
    all_account_keys = keys;
    all_instructions = instructions;
    parsed_system_instructions = none;
    parsed_spl_instructions = none;
  }

  abbrev pub IsResolved : VersionedTransaction → Bool → Resolved → Type 0
  IsResolved t sig_verify r =
      (s : Simulation) × (keys : List Pubkey) × (outer : List Instruction) × (inner : List
        Instruction)
      × (simulate t sig_verify ≡ some s)
      × (s.failure ≡ none)
      × KeysBy t.static_account_keys t.address_table_lookups keys
      × AllPairs (StandsFor keys) t.instructions outer
      × AllPairs (StandsFor keys) (compiled_inner keys s.inner_instructions) inner
      × (assembled t keys (outer ++ inner) ≡ r)

  keys_iff :
      (t : VersionedTransaction) (ks : List Pubkey)
      → (all_account_keys_of x deserialize t ≡ ok ks)
        ↔ KeysBy t.static_account_keys t.address_table_lookups ks
  unfolding all_account_keys_of
  keys_iff t ks = by_lookups t.address_table_lookups
    where
      by_lookups :
          (o : Option (List AddressTableLookup))
          → ((elim o [
            | none ↦ ok (t.static_account_keys ++ [])
            | some lookups ↦ resolve_lookup_table_addresses x deserialize lookups >>= λ found.
                ok (t.static_account_keys ++ found)
          ])
              ≡ ok ks)
            ↔ KeysBy t.static_account_keys o ks
      by_lookups none = (ok-injective, ap ok)
      by_lookups (some lookups) = (
        λ h.
            let (found, q, h') =
              >>=-eq-ok (resolve_lookup_table_addresses x deserialize lookups) _ {b = ks} h in
            (
              found,
              (resolve_lookup_table_addresses_iff x deserialize lookups found).0 q,
              ok-injective h',
            ),
        λ (found, names, same).
            rw ((resolve_lookup_table_addresses_iff x deserialize lookups found).1 names)
              (ap ok same),
      )

  inner_iff :
      (keys : List Pubkey) (o : Option (List (List UiInstruction))) (inner : List Instruction)
      → (inner_of x e simulate keys o ≡ ok inner)
        ↔ AllPairs (StandsFor keys) (compiled_inner keys o) inner
  unfolding inner_of
  inner_iff keys none [] = (λ h. tt, λ h. refl)
  inner_iff keys none (ix ∷ ixs) = (λ h. cc, λ h. elim h [ ])
  inner_iff keys (some groups) inner =
      uncompile_instructions_iff keys (rebuilt_all x e simulate keys groups) inner

  fetched_iff :
      (t : VersionedTransaction) (keys : List Pubkey) (sig_verify : Bool) (inner : List Instruction)
      → (fetch_inner_instructions x e simulate t keys sig_verify ≡ ok inner) ↔ (
          (s : Simulation) × (simulate t sig_verify ≡ some s)
          × (s.failure ≡ none)
          × AllPairs (StandsFor keys) (compiled_inner keys s.inner_instructions) inner)
  unfolding fetch_inner_instructions
  fetched_iff t keys sig_verify inner = (
    λ h.
        let (s, q, h') = >>=-eq-ok (ok_or (simulate t sig_verify) rpc_error) _ {b = inner} h in
        let (fine, h'') = passed s s.failure h' in
        (
          s,
          ok_or-eq-ok (simulate t sig_verify) rpc_error q,
          fine,
          (inner_iff keys s.inner_instructions inner).0 h'',
        ),
    λ (s, q, fine, all). rw (q, fine) ((inner_iff keys s.inner_instructions inner).1 all),
  )
    where
      passed :
          (s : Simulation) (o : Option String)
          → elim o [
            | some failure ↦ err invalid_transaction
            | none ↦ inner_of x e simulate keys s.inner_instructions
          ]
            ≡ ok inner
          → (o ≡ none) × (inner_of x e simulate keys s.inner_instructions ≡ ok inner)
      passed s none h = (refl, h)
      passed s (some failure) h = cc

  -- A transaction is resolved exactly if the node's simulation answers without an error, all
  -- lookups name keys, and all indexes of its own instructions and of the rebuilt inner ones name
  -- keys; the result has the transaction's keys followed by the looked-up ones, and the plain
  -- instructions that stand for its own, followed by those for the inner ones.
  pub from_transaction_iff :
      (t : VersionedTransaction) (sig_verify : Bool) (r : Resolved)
      → (from_transaction x e simulate deserialize t sig_verify ≡ ok r) ↔ IsResolved t sig_verify r
  unfolding from_transaction
  from_transaction_iff t sig_verify r = (
    λ h.
        let (keys, q, h₁) = >>=-eq-ok (all_account_keys_of x deserialize t) _ {b = r} h in
        let (outer, u, h₂) = >>=-eq-ok (uncompile_instructions t.instructions keys) _ {b = r} h₁ in
        let (inner, v, h₃) =
          >>=-eq-ok (fetch_inner_instructions x e simulate t keys sig_verify) _ {b = r} h₂ in
        let (s, asked, fine, all) = (fetched_iff t keys sig_verify inner).0 v in
        (
          s,
          keys,
          outer,
          inner,
          asked,
          fine,
          (keys_iff t keys).0 q,
          (uncompile_instructions_iff keys t.instructions outer).0 u,
          all,
          ok-injective h₃,
        ),
    λ (s, keys, outer, inner, asked, fine, named, stands, all, same).
        rw
          (
            (keys_iff t keys).1 named,
            (uncompile_instructions_iff keys t.instructions outer).1 stands,
            (fetched_iff t keys sig_verify inner).1 (s, asked, fine, all),
          )
          (ap ok same),
  )

-- ===== src/Resolve/Addresses.antt =====
-- Resolution takes every index to the key that stands there, or fails.
use solus_protocol.Base.{ℕ, Option, some, List, ◌≡◌, ◌↔◌, sym, ap, subst, ◌∙◌, get_elem?}
use solus_protocol.Error.{
  Result, ok, serialization_error, ok_or, ok_or-eq-ok, traverse, ◌>>=◌, >>=-eq-ok, ok-injective,
}
use solus_protocol.Error.Traverse.{AllPairs, AllPairs-iff, traverse_iff}
use solus_protocol.Instruction.{Pubkey, AccountMeta, Instruction, CompiledInstruction}
use solus_protocol.Resolve.{
  account_meta, get_account_key_required, uncompile_instruction, uncompile_instructions,
}

-- A plain instruction stands for a compiled one: its program, its accounts and its data are those that
-- the indexes name. The accounts are writable and no signers.
abbrev pub StandsFor : List Pubkey → CompiledInstruction → Instruction → Type 0
StandsFor keys c ix =
    (get_elem? keys c.program_id_index ≡ some ix.program_id)
    × AllPairs (λ index a. (k : Pubkey) × (get_elem? keys index ≡ some k) × (account_meta k ≡ a))
        c.account_indexes ix.accounts
    × (ix.payload ≡ c.payload)

ok_or_iff : {A : Type 0} (o : Option A) (e : _) (a : A) → (ok_or o e ≡ ok a) ↔ (o ≡ some a)
ok_or_iff o e a = (ok_or-eq-ok o e, λ h. rw h)

module _ (keys : List Pubkey) where
  account_iff :
      (index : ℕ) (a : AccountMeta)
      → ((get_account_key_required keys index >>= λ k. ok (account_meta k)) ≡ ok a)
        ↔ ((k : Pubkey) × (get_elem? keys index ≡ some k) × (account_meta k ≡ a))
  unfolding get_account_key_required
  account_iff index a = (
    λ h.
        let (k, e, q) =
          >>=-eq-ok (ok_or (get_elem? keys index) serialization_error) (λ k. ok (account_meta k))
            {b = a} h in
        (k, ok_or-eq-ok (get_elem? keys index) serialization_error e, ok-injective q),
    λ (k, e, q). rw e (ap ok q),
  )

  uncompile_instruction_iff :
      (c : CompiledInstruction) (ix : Instruction)
      → (uncompile_instruction keys c ≡ ok ix) ↔ StandsFor keys c ix
  unfolding uncompile_instruction get_account_key_required
  uncompile_instruction_iff c ix = (
    λ h.
        let (program, e, h₁) =
          >>=-eq-ok (ok_or (get_elem? keys c.program_id_index) serialization_error) _ {b = ix} h in
        let (accounts, q, h₂) = >>=-eq-ok (traverse account c.account_indexes) _ {b = ix} h₁ in
        let same = ok-injective h₂ in
        (
          ok_or-eq-ok (get_elem? keys c.program_id_index) serialization_error e
              ∙ ap (λ i. some i.program_id) same,
          subst Accounts (ap (λ i. i.accounts) same) ((accounts_iff accounts).0 q),
          sym (ap (λ i. i.payload) same),
        ),
    λ (e, a, q).
        rw (e, (accounts_iff ix.accounts).1 a) (ap (λ d. ok (record ix { payload = d })) (sym q)),
  )
    where
      account : ℕ → Result AccountMeta
      account index = get_account_key_required keys index >>= λ k. ok (account_meta k)

      Accounts : List AccountMeta → Type 0
      Accounts =
          AllPairs
            (λ index a. (k : Pubkey) × (get_elem? keys index ≡ some k) × (account_meta k ≡ a))
            c.account_indexes

      accounts_iff :
          (as' : List AccountMeta) → (traverse account c.account_indexes ≡ ok as') ↔ Accounts as'
      accounts_iff as' =
          let each = traverse_iff account c.account_indexes as' in
          let meaning = AllPairs-iff account_iff c.account_indexes as' in
          (λ h. meaning.0 (each.0 h), λ h. each.1 (meaning.1 h))

  -- `uncompile_instructions` succeeds with instructions exactly if they stand for the compiled
  -- ones, one by one and in order: every index names a key.
  pub uncompile_instructions_iff :
      (cs : List CompiledInstruction) (ixs : List Instruction)
      → (uncompile_instructions cs keys ≡ ok ixs) ↔ AllPairs (StandsFor keys) cs ixs
  unfolding uncompile_instructions
  uncompile_instructions_iff cs ixs =
      let each = traverse_iff (uncompile_instruction keys) cs ixs in
      let meaning = AllPairs-iff uncompile_instruction_iff cs ixs in
      (λ h. meaning.0 (each.0 h), λ h. each.1 (meaning.1 h))

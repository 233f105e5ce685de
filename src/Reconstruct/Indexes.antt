-- ===== src/Reconstruct/Indexes.antt =====
-- The index that a key of the transaction gets leads back to the key, so that an assembled instruction
-- expands to the accounts that it was assembled from.
use solus_protocol.Base.{
  ℕ, suc, ◌+◌, ◌%◌, ◌≤◌, ◌≡◌, refl, ◌⊎◌, inl, inr, true, some, List, [], ◌∷◌, map, arith, ◌==◌,
  nat_eq, eqb_iff, Bool-cases, length, get_elem?, contains, All, if◌then◌else◌, ◌||◌,
}
use solus_protocol.Error.{ok, ok_or, traverse, ◌>>=◌}
use solus_protocol.Instruction.{Pubkey, Bytes, CompiledInstruction}
use solus_protocol.Resolve.{get_account_key_required, uncompile_instruction, account_meta}
use solus_protocol.Reconstruct.Keys.{
  AccountIndexes, index_of, index_keys, build_account_keys_hashmap, get_account_index, assemble,
}

index_keys-names :
    (k : Pubkey) (j n : ℕ) (ks : List Pubkey) (m : AccountIndexes)
    → n + length ks ≤ 256
    → index_of (index_keys n ks m) k ≡ some j
    → ((i : ℕ) × (j ≡ n + i) × (get_elem? ks i ≡ some k)) ⊎ (index_of m k ≡ some j)
unfolding index_of index_keys
index_keys-names k j n [] m fits h = inr h
index_keys-names k j n (k' ∷ ks) m fits h =
    elim (index_keys-names k j (n + 1) ks ((k', n % 256) ∷ m) (omega arith) h) [
      | inl (i, e, g) ↦ inl (suc i, omega arith, g)
      | inr found ↦ elim (Bool-cases (k' == k)) [
        | inl q ↦ inl (0, ground arith, rw ((eqb_iff k' k).0 q) refl)
        | inr q ↦ inr (rw (q, if◌then◌else◌) at found)
      ]
    ]

index_keys-keeps :
    (k : Pubkey) (n : ℕ) (ks : List Pubkey) (m : AccountIndexes)
    → (j : ℕ) × (index_of m k ≡ some j)
    → (j : ℕ) × (index_of (index_keys n ks m) k ≡ some j)
unfolding index_of index_keys
index_keys-keeps k n [] m known = known
index_keys-keeps k n (k' ∷ ks) m (j, e) =
    index_keys-keeps k (n + 1) ks ((k', n % 256) ∷ m) (if k' == k then n % 256 else j, ground arith)

index_keys-knows :
    (k : Pubkey) (n : ℕ) (ks : List Pubkey) (m : AccountIndexes)
    → contains ks k ≡ true
    → (j : ℕ) × (index_of (index_keys n ks m) k ≡ some j)
unfolding index_of index_keys
index_keys-knows k n [] m h = cc
index_keys-knows k n (k' ∷ ks) m h = elim (Bool-cases (k' == k)) [
  | inl q ↦ index_keys-keeps k (n + 1) ks ((k', n % 256) ∷ m) (n % 256, rw (q, if◌then◌else◌))
  | inr q ↦ index_keys-knows k (n + 1) ks ((k', n % 256) ∷ m) (rw (q, ◌||◌) at h)
]

abbrev pub AllKnown : List Pubkey → List Pubkey → Type 0
AllKnown keys = All (λ k. contains keys k ≡ true)

module _ (keys : List Pubkey) (few : length keys ≤ 256) where
  pub known-index :
      (k : Pubkey)
      → contains keys k ≡ true
      → (j : ℕ) × (get_account_index (build_account_keys_hashmap keys) k ≡ ok j)
        × (get_account_key_required keys j ≡ ok k)
  unfolding get_account_index build_account_keys_hashmap get_account_key_required index_of
  known-index k h =
      let (j, e) = index_keys-knows k 0 keys [] h in
      elim (index_keys-names k j 0 keys [] (omega arith) e) [
        | inl (i, same, g) ↦
            let at_j : get_elem? keys j ≡ some k = ground arith in
            (j, rw (e, ok_or), rw (at_j, ok_or))
        | inr absent ↦ absurd (cc)
      ]

  known-indexes :
      (accounts : List Pubkey)
      → AllKnown keys accounts
      → (indexes : List ℕ) × (traverse
            (get_account_index (build_account_keys_hashmap keys))
            accounts
          ≡ ok indexes)
        × (traverse
              (λ index. get_account_key_required keys index >>= λ k. ok (account_meta k))
              indexes
            ≡ ok (map account_meta accounts))
  known-indexes [] h = ([], refl, refl)
  known-indexes (k ∷ ks) (h, hs) =
      let (j, e, f) = known-index k h in
      let (js, es, fs) = known-indexes ks hs in (j ∷ js, rw (e, es), rw (f, fs))

  -- What is assembled from known accounts expands to these accounts.
  pub assemble-uncompile :
      (program : Pubkey) (program_id_index : ℕ) (accounts : List Pubkey) (payload : Bytes)
      → get_account_key_required keys program_id_index ≡ ok program
      → AllKnown keys accounts
      → (ix : CompiledInstruction) × (assemble
            (build_account_keys_hashmap keys)
            program_id_index
            accounts
            (ok payload)
          ≡ ok ix)
        × (uncompile_instruction keys ix
            ≡ ok (record {
              program_id = program;
              accounts = map account_meta accounts;
              payload = payload;
            }))
  unfolding assemble uncompile_instruction
  assemble-uncompile program p accounts payload program_at known =
      let (indexes, e, f) = known-indexes accounts known in
      (
        record { program_id_index = p; account_indexes = indexes; payload = payload },
        rw e,
        rw (program_at, f),
      )

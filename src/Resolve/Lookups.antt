-- ===== src/Resolve/Lookups.antt =====
-- What lookup tables resolve to (`resolve_lookup_table_addresses` of
-- kora/crates/lib/src/transaction/versioned_transaction.rs).
use solus_protocol.Base.{ℕ, false, Option, some, List, [], ◌∷◌, ◌++◌, ◌≡◌, ◌↔◌, ap, get_elem?}
use solus_protocol.Error.{
  Result, ok, err, rpc_error, invalid_transaction, ok_or, map_err, ok_or-eq-ok, >>=-eq-ok,
  ok-injective,
}
use solus_protocol.Error.Traverse.{AllPairs, AllPairs-iff, traverse_iff}
use solus_protocol.Instruction.{Pubkey, Bytes}
use solus_protocol.External.{External, Account}
use solus_protocol.Transaction.{AddressTableLookup}
use solus_protocol.Resolve.{addresses_at, resolve_lookup, resolve_lookup_table_addresses}

abbrev pub AllAt : List Pubkey → List ℕ → List Pubkey → Type 0
AllAt table = AllPairs (λ index k. get_elem? table index ≡ some k)

addresses_at_iff :
    (table : List Pubkey) (indexes : List ℕ) (ks : List Pubkey)
    → (addresses_at table indexes ≡ ok ks) ↔ AllAt table indexes ks
unfolding addresses_at
addresses_at_iff table indexes ks =
    let each =
      traverse_iff (λ index. ok_or (get_elem? table index) invalid_transaction) indexes ks in
    let meaning = AllPairs-iff key_iff indexes ks in
    (λ h. meaning.0 (each.0 h), λ h. each.1 (meaning.1 h))
  where
    key_iff :
        (index : ℕ) (k : Pubkey)
        → (ok_or (get_elem? table index) invalid_transaction ≡ ok k)
          ↔ (get_elem? table index ≡ some k)
    key_iff index k = (ok_or-eq-ok (get_elem? table index) invalid_transaction, λ h. rw h)

map_err-eq-ok : {A : Type 0} (r : Result A) (e : _) {a : A} → map_err r e ≡ ok a → r ≡ ok a
map_err-eq-ok (ok a) e h = h
map_err-eq-ok (err _) e h = cc

module _ {F D : Type 0} (x : External F D) (deserialize : Bytes → Option (List Pubkey)) where
  -- One lookup names a table that the chain holds, and the keys at its writable indexes and then those at
  -- its readonly ones.
  abbrev pub Names : AddressTableLookup → List Pubkey → Type 0
  Names l ks =
      (a : Account) × (table : List Pubkey) × (writable : List Pubkey) × (readonly : List Pubkey)
      × (x.get_account l.account_key false ≡ ok a)
      × (deserialize a.payload ≡ some table)
      × AllAt table l.writable_indexes writable
      × AllAt table l.readonly_indexes readonly
      × (writable ++ readonly ≡ ks)

  abbrev pub NamesAll : List AddressTableLookup → List Pubkey → Type 0
  NamesAll [] ks = [] ≡ ks
  NamesAll (l ∷ ls) ks =
      (first : List Pubkey) × (rest : List Pubkey) × Names l first
      × NamesAll ls rest
      × (first ++ rest ≡ ks)

  resolve_lookup_iff :
      (l : AddressTableLookup) (ks : List Pubkey)
      → (resolve_lookup x deserialize l ≡ ok ks) ↔ Names l ks
  unfolding resolve_lookup
  resolve_lookup_iff l ks = (
    λ h.
        let (a, e, h₁) =
          >>=-eq-ok (map_err (x.get_account l.account_key false) rpc_error) _ {b = ks} h in
        let (table, q, h₂) =
          >>=-eq-ok (ok_or (deserialize a.payload) invalid_transaction) _ {b = ks} h₁ in
        let (ws, u, h₃) = >>=-eq-ok (addresses_at table l.writable_indexes) _ {b = ks} h₂ in
        let (rs, v, h₄) = >>=-eq-ok (addresses_at table l.readonly_indexes) _ {b = ks} h₃ in
        (
          a,
          table,
          ws,
          rs,
          map_err-eq-ok (x.get_account l.account_key false) rpc_error e,
          ok_or-eq-ok (deserialize a.payload) invalid_transaction q,
          (addresses_at_iff table l.writable_indexes ws).0 u,
          (addresses_at_iff table l.readonly_indexes rs).0 v,
          ok-injective h₄,
        ),
    λ (a, table, ws, rs, e, q, u, v, s).
        rw
          (
            e,
            q,
            (addresses_at_iff table l.writable_indexes ws).1 u,
            (addresses_at_iff table l.readonly_indexes rs).1 v,
          )
          (ap ok s),
  )

  -- The lookups of a transaction resolve to keys exactly if every lookup names a table of the chain
  -- in which all its indexes are taken; the keys are those at its writable and then at its readonly
  -- indexes, lookup after lookup.
  pub resolve_lookup_table_addresses_iff :
      (ls : List AddressTableLookup) (ks : List Pubkey)
      → (resolve_lookup_table_addresses x deserialize ls ≡ ok ks) ↔ NamesAll ls ks
  unfolding resolve_lookup_table_addresses
  resolve_lookup_table_addresses_iff [] ks = (ok-injective, ap ok)
  resolve_lookup_table_addresses_iff (l ∷ ls) ks = (
    λ h.
        let (first, e, h₁) = >>=-eq-ok (resolve_lookup x deserialize l) _ {b = ks} h in
        let (rest, q, h₂) =
          >>=-eq-ok (resolve_lookup_table_addresses x deserialize ls) _ {b = ks} h₁ in
        (
          first,
          rest,
          (resolve_lookup_iff l first).0 e,
          (resolve_lookup_table_addresses_iff ls rest).0 q,
          ok-injective h₂,
        ),
    λ (first, rest, n, m, s).
        rw ((resolve_lookup_iff l first).1 n, (resolve_lookup_table_addresses_iff ls rest).1 m)
          (ap ok s),
  )

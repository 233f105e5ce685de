-- ===== src/Resolve/Cache.antt =====
-- The tables that `get_or_parse_system_instructions` and `get_or_parse_spl_instructions` keep
-- (kora/crates/lib/src/transaction/versioned_transaction.rs) are those that parsing gives.
use solus_protocol.Base.{Option, none, some, List, [], ◌∷◌, ◌≡◌, refl, sym, ap, subst, ◌∙◌}
use solus_protocol.Error.{Result, ok, err, ◌>>=◌, >>=-eq-ok, ok-injective}
use solus_protocol.Instruction.{Instruction, Programs}
use solus_protocol.Parse.{parse_system_instructions, parse_token_instructions}
use solus_protocol.Transaction.{VersionedTransaction, Resolved}
use solus_protocol.Resolve.{
  kept_or, uncompile_instructions, from_kora_built_transaction, get_or_parse_system_instructions,
  get_or_parse_spl_instructions,
}

-- A use of one of the two tables.
pub data Access : Type 0 where
  of_system of_spl : Access

paired : {T : Type 0} → Result T → (T → Resolved) → Result (T × Resolved)
paired m g = m >>= λ t. ok (t, g t)

first_of : {T : Type 0} (m : Result T) (g : T → Resolved) → (paired m g >>= λ s. ok s.0) ≡ m
unfolding paired
first_of (ok t) g = refl
first_of (err e) g = refl

module _ (p : Programs) where
  unfoldable pub access : Access → Resolved → Result Resolved
  access of_system r = get_or_parse_system_instructions p r >>= λ s. ok s.1
  access of_spl r = get_or_parse_spl_instructions p r >>= λ s. ok s.1

  unfoldable pub accesses : List Access → Resolved → Result Resolved
  unfolding access
  accesses [] r = ok r
  accesses (a ∷ as') r = access a r >>= accesses as'

  -- A table that is kept is the one that the instructions parse to.
  abbrev Agrees : {T : Type 0} → Option T → Result T → Type 0
  Agrees none parsed = Unit
  Agrees (some t) parsed = parsed ≡ ok t

  abbrev IsCoherent : List Instruction → Resolved → Type 0
  IsCoherent ixs r =
      (r.all_instructions ≡ ixs)
      × Agrees r.parsed_system_instructions (parse_system_instructions p ixs)
      × Agrees r.parsed_spl_instructions (parse_token_instructions p ixs)

  kept :
      {T : Type 0} (o : Option T) (parsed : Result T) → Agrees o parsed → kept_or o parsed ≡ parsed
  kept none parsed a = refl
  kept (some t) parsed a = sym a

  system_table :
      (ixs : List Instruction) (r : Resolved)
      → IsCoherent ixs r
      → kept_or r.parsed_system_instructions (parse_system_instructions p r.all_instructions)
        ≡ parse_system_instructions p ixs
  system_table ixs r (same, sys, spl) =
      rw same (kept r.parsed_system_instructions (parse_system_instructions p ixs) sys)

  spl_table :
      (ixs : List Instruction) (r : Resolved)
      → IsCoherent ixs r
      → kept_or r.parsed_spl_instructions (parse_token_instructions p r.all_instructions)
        ≡ parse_token_instructions p ixs
  spl_table ixs r (same, sys, spl) =
      rw same (kept r.parsed_spl_instructions (parse_token_instructions p ixs) spl)

  access-IsCoherent :
      (a : Access) (ixs : List Instruction) (r : Resolved) {r' : Resolved}
      → IsCoherent ixs r
      → access a r ≡ ok r'
      → IsCoherent ixs r'
  unfolding access get_or_parse_system_instructions get_or_parse_spl_instructions
  access-IsCoherent of_system ixs r {r'} c h =
      let ((t, s), e, q) =
        >>=-eq-ok (get_or_parse_system_instructions p r) (λ s. ok s.1) {b = r'} h in
      let (u, e', q') =
        >>=-eq-ok _ (λ t. ok (t, record r { parsed_system_instructions = some t })) {b = (t, s)}
          e in
      let found = sym (system_table ixs r c) ∙ e' in
      subst (IsCoherent ixs) (ap (λ s. s.1) (ok-injective q') ∙ ok-injective q) (c.0, found, c.2)
  access-IsCoherent of_spl ixs r {r'} c h =
      let ((t, s), e, q) = >>=-eq-ok (get_or_parse_spl_instructions p r) (λ s. ok s.1) {b = r'} h in
      let (u, e', q') =
        >>=-eq-ok _ (λ t. ok (t, record r { parsed_spl_instructions = some t })) {b = (t, s)} e in
      let found = sym (spl_table ixs r c) ∙ e' in
      subst (IsCoherent ixs) (ap (λ s. s.1) (ok-injective q') ∙ ok-injective q) (c.0, c.1, found)

  accesses-IsCoherent :
      (as' : List Access) (ixs : List Instruction) (r : Resolved) {r' : Resolved}
      → IsCoherent ixs r
      → accesses as' r ≡ ok r'
      → IsCoherent ixs r'
  unfolding accesses
  accesses-IsCoherent [] ixs r {r'} c h = subst (IsCoherent ixs) (ok-injective h) c
  accesses-IsCoherent (a ∷ as') ixs r {r'} c h =
      let (s, e, q) = >>=-eq-ok (access a r) (accesses as') {b = r'} h in
      accesses-IsCoherent as' ixs s (access-IsCoherent a ixs r c e) q

  -- Caching is transparent: after any sequence of uses of the two tables of parsed instructions of
  -- a transaction that Kora built, a use gives what parsing the transaction's instructions anew
  -- gives, errors included.
  pub accesses-transparent :
      (t : VersionedTransaction) (as' : List Access) (r r' : Resolved)
      → from_kora_built_transaction t ≡ ok r
      → accesses as' r ≡ ok r'
      → ((get_or_parse_system_instructions p r' >>= λ s. ok s.0)
          ≡ parse_system_instructions p r.all_instructions)
        × ((get_or_parse_spl_instructions p r' >>= λ s. ok s.0)
            ≡ parse_token_instructions p r.all_instructions)
        × (r'.all_instructions ≡ r.all_instructions)
  unfolding from_kora_built_transaction get_or_parse_system_instructions
      get_or_parse_spl_instructions paired
  accesses-transparent t as' r r' built h =
      let (ixs, e, q) =
        >>=-eq-ok (uncompile_instructions t.instructions t.static_account_keys) _ {b = r} built in
      let start =
        subst (IsCoherent r.all_instructions) (ok-injective q)
          (ap (λ s. s.all_instructions) (ok-injective q), tt, tt) in
      let c = accesses-IsCoherent as' r.all_instructions r start h in
      (
        first_of
              (kept_or r'.parsed_system_instructions
                (parse_system_instructions p r'.all_instructions))
              (λ t. record r' { parsed_system_instructions = some t })
            ∙ system_table r.all_instructions r' c,
        first_of
              (kept_or r'.parsed_spl_instructions (parse_token_instructions p r'.all_instructions))
              (λ t. record r' { parsed_spl_instructions = some t })
            ∙ spl_table r.all_instructions r' c,
        c.0,
      )

-- ===== src/Reconstruct/RoundTrip/System.antt =====
-- A System instruction goes through the JSON form of a simulation and back: what is rebuilt from the
-- form reads as the instruction that the form describes, but for three instructions on nonces.
use solus_protocol.Base.{
  ℕ, String, ◌≡◌, refl, ◌≤◌, true, Option, some, List, [], ◌∷◌, map, length, ◌==◌, eqb_iff, nat_eq,
  string_eq,
}
use solus_protocol.Error.{Result, ok, err, invalid_transaction, ok_or}
use solus_protocol.Instruction.{Pubkey, Bytes, Instruction, CompiledInstruction, SystemInstruction}
use solus_protocol.External.{External}
use solus_protocol.Json
use solus_protocol.Json.{Json, get_field_as_str, get_field_as_u64, get_field_as_pubkey}
use solus_protocol.Parse.{
  SystemEntry, ParsedSystemData, system_entry, read_system, system_transfer, system_create_account,
  system_assign, system_allocate, system_authorize_nonce_account, create_account_data, assign_data,
  allocate_data, authorize_nonce_data,
}
use solus_protocol.Resolve.{uncompile_instruction, account_meta}
use solus_protocol.Reconstruct.Keys.{
  Encoders, AccountIndexes, get_account_index, build_account_keys_hashmap, assemble,
}
use solus_protocol.Reconstruct.System.{serialized, rebuild_system, reconstruct_system_instruction}
use solus_protocol.Reconstruct.Ui.{parsed, reconstruct_instruction_from_ui}
use solus_protocol.Reconstruct.Indexes.{AllKnown, known-index, assemble-uncompile}

-- What the form of a System instruction tells, in the order of the source's reads.
pub data SystemUi : Type 0 where
  transfer : Pubkey → Pubkey → ℕ → SystemUi
  create_account : Pubkey → Pubkey → Pubkey → ℕ → ℕ → SystemUi
  assign : Pubkey → Pubkey → SystemUi
  transfer_with_seed : Pubkey → Pubkey → ℕ → Pubkey → String → Pubkey → SystemUi
  create_account_with_seed : Pubkey → Pubkey → Pubkey → String → Pubkey → ℕ → ℕ → SystemUi
  assign_with_seed : Pubkey → Pubkey → String → Pubkey → SystemUi
  withdraw_nonce : Pubkey → Pubkey → Pubkey → ℕ → SystemUi
  allocate : Pubkey → ℕ → SystemUi
  allocate_with_seed : Pubkey → Pubkey → String → ℕ → Pubkey → SystemUi
  initialize_nonce : Pubkey → Pubkey → SystemUi
  advance_nonce : Pubkey → Pubkey → SystemUi
  authorize_nonce : Pubkey → Pubkey → Pubkey → SystemUi

abbrev pub type_of : SystemUi → String
type_of (SystemUi.transfer _ _ _) = "transfer"
type_of (SystemUi.create_account _ _ _ _ _) = "createAccount"
type_of (SystemUi.assign _ _) = "assign"
type_of (SystemUi.transfer_with_seed _ _ _ _ _ _) = "transferWithSeed"
type_of (SystemUi.create_account_with_seed _ _ _ _ _ _ _) = "createAccountWithSeed"
type_of (SystemUi.assign_with_seed _ _ _ _) = "assignWithSeed"
type_of (SystemUi.withdraw_nonce _ _ _ _) = "withdrawFromNonce"
type_of (SystemUi.allocate _ _) = "allocate"
type_of (SystemUi.allocate_with_seed _ _ _ _ _) = "allocateWithSeed"
type_of (SystemUi.initialize_nonce _ _) = "initializeNonce"
type_of (SystemUi.advance_nonce _ _) = "advanceNonce"
type_of (SystemUi.authorize_nonce _ _ _) = "authorizeNonce"

-- The accounts that the rebuilt instruction has.
abbrev pub accounts_of : SystemUi → List Pubkey
accounts_of (SystemUi.transfer source destination _) = source ∷ destination ∷ []
accounts_of (SystemUi.create_account source new_account _ _ _) = source ∷ new_account ∷ []
accounts_of (SystemUi.assign authority _) = authority ∷ []
accounts_of (SystemUi.transfer_with_seed source destination _ source_base _ _) =
    source ∷ source_base ∷ destination ∷ []
accounts_of (SystemUi.create_account_with_seed source new_account base _ _ _ _) =
    source ∷ new_account ∷ base ∷ []
accounts_of (SystemUi.assign_with_seed account base _ _) = account ∷ base ∷ []
accounts_of (SystemUi.withdraw_nonce nonce_account recipient nonce_authority _) =
    nonce_account ∷ recipient ∷ nonce_authority ∷ []
accounts_of (SystemUi.allocate account _) = account ∷ []
accounts_of (SystemUi.allocate_with_seed account base _ _ _) = account ∷ base ∷ []
accounts_of (SystemUi.initialize_nonce nonce_account _) = nonce_account ∷ []
accounts_of (SystemUi.advance_nonce nonce_account nonce_authority) =
    nonce_account ∷ nonce_authority ∷ []
accounts_of (SystemUi.authorize_nonce nonce_account nonce_authority _) =
    nonce_account ∷ nonce_authority ∷ []

abbrev pub instruction_of : SystemUi → SystemInstruction
instruction_of (SystemUi.transfer _ _ lamports) = SystemInstruction.transfer lamports
instruction_of (SystemUi.create_account _ _ owner lamports space) =
    SystemInstruction.create_account lamports space owner
instruction_of (SystemUi.assign _ owner) = SystemInstruction.assign owner
instruction_of (SystemUi.transfer_with_seed _ _ lamports _ source_seed source_owner) =
    SystemInstruction.transfer_with_seed lamports source_seed source_owner
instruction_of (SystemUi.create_account_with_seed _ _ base seed owner lamports space) =
    SystemInstruction.create_account_with_seed base seed lamports space owner
instruction_of (SystemUi.assign_with_seed _ base seed owner) =
    SystemInstruction.assign_with_seed base seed owner
instruction_of (SystemUi.withdraw_nonce _ _ _ lamports) =
    SystemInstruction.withdraw_nonce_account lamports
instruction_of (SystemUi.allocate _ space) = SystemInstruction.allocate space
instruction_of (SystemUi.allocate_with_seed _ base seed space owner) =
    SystemInstruction.allocate_with_seed base seed space owner
instruction_of (SystemUi.initialize_nonce _ nonce_authority) =
    SystemInstruction.initialize_nonce_account nonce_authority
instruction_of (SystemUi.advance_nonce _ _) = SystemInstruction.advance_nonce_account
instruction_of (SystemUi.authorize_nonce _ _ new_authority) =
    SystemInstruction.authorize_nonce_account new_authority

-- What the parser files for it.
abbrev pub filed : SystemUi → Result (Option SystemEntry)
filed (SystemUi.transfer source destination lamports) =
    ok (some (system_transfer, ParsedSystemData.transfer_data lamports source destination))
filed (SystemUi.create_account source _ _ lamports _) =
    ok (some (system_create_account, create_account_data lamports source))
filed (SystemUi.assign authority _) = ok (some (system_assign, assign_data authority))
filed (SystemUi.transfer_with_seed _ destination lamports source_base _ _) =
    ok (some (system_transfer, ParsedSystemData.transfer_data lamports source_base destination))
filed (SystemUi.create_account_with_seed source _ _ _ _ lamports _) =
    ok (some (system_create_account, create_account_data lamports source))
filed (SystemUi.assign_with_seed _ base _ _) = ok (some (system_assign, assign_data base))
filed (SystemUi.withdraw_nonce _ _ _ _) = err invalid_transaction
filed (SystemUi.allocate account _) = ok (some (system_allocate, allocate_data account))
filed (SystemUi.allocate_with_seed _ base _ _ _) = ok (some (system_allocate, allocate_data base))
filed (SystemUi.initialize_nonce _ _) = err invalid_transaction
filed (SystemUi.advance_nonce _ _) = err invalid_transaction
filed (SystemUi.authorize_nonce nonce_account nonce_authority _) =
    ok (some (system_authorize_nonce_account, authorize_nonce_data nonce_account nonce_authority))

-- The members of the form, read by the getters.
abbrev pub Says : (String → Option Pubkey) → Json → SystemUi → Type 0
Says from_str info (SystemUi.transfer source destination lamports) =
    (get_field_as_pubkey from_str info "source" ≡ ok source)
    × (get_field_as_pubkey from_str info "destination" ≡ ok destination)
    × (get_field_as_u64 info "lamports" ≡ ok lamports)
Says from_str info (SystemUi.create_account source new_account owner lamports space) =
    (get_field_as_pubkey from_str info "source" ≡ ok source)
    × (get_field_as_pubkey from_str info "newAccount" ≡ ok new_account)
    × (get_field_as_pubkey from_str info "owner" ≡ ok owner)
    × (get_field_as_u64 info "lamports" ≡ ok lamports)
    × (get_field_as_u64 info "space" ≡ ok space)
Says from_str info (SystemUi.assign authority owner) =
    (get_field_as_pubkey from_str info "account" ≡ ok authority)
    × (get_field_as_pubkey from_str info "owner" ≡ ok owner)
Says from_str info
      (SystemUi.transfer_with_seed source destination lamports source_base source_seed
        source_owner) =
    (get_field_as_pubkey from_str info "source" ≡ ok source)
    × (get_field_as_pubkey from_str info "destination" ≡ ok destination)
    × (get_field_as_u64 info "lamports" ≡ ok lamports)
    × (get_field_as_pubkey from_str info "sourceBase" ≡ ok source_base)
    × (get_field_as_str info "sourceSeed" ≡ ok source_seed)
    × (get_field_as_pubkey from_str info "sourceOwner" ≡ ok source_owner)
Says from_str info
      (SystemUi.create_account_with_seed source new_account base seed owner lamports space) =
    (get_field_as_pubkey from_str info "source" ≡ ok source)
    × (get_field_as_pubkey from_str info "newAccount" ≡ ok new_account)
    × (get_field_as_pubkey from_str info "base" ≡ ok base)
    × (get_field_as_str info "seed" ≡ ok seed)
    × (get_field_as_pubkey from_str info "owner" ≡ ok owner)
    × (get_field_as_u64 info "lamports" ≡ ok lamports)
    × (get_field_as_u64 info "space" ≡ ok space)
Says from_str info (SystemUi.assign_with_seed account base seed owner) =
    (get_field_as_pubkey from_str info "account" ≡ ok account)
    × (get_field_as_pubkey from_str info "base" ≡ ok base)
    × (get_field_as_str info "seed" ≡ ok seed)
    × (get_field_as_pubkey from_str info "owner" ≡ ok owner)
Says from_str info (SystemUi.withdraw_nonce nonce_account recipient nonce_authority lamports) =
    (get_field_as_pubkey from_str info "nonceAccount" ≡ ok nonce_account)
    × (get_field_as_pubkey from_str info "destination" ≡ ok recipient)
    × (get_field_as_pubkey from_str info "nonceAuthority" ≡ ok nonce_authority)
    × (get_field_as_u64 info "lamports" ≡ ok lamports)
Says from_str info (SystemUi.allocate account space) =
    (get_field_as_pubkey from_str info "account" ≡ ok account)
    × (get_field_as_u64 info "space" ≡ ok space)
Says from_str info (SystemUi.allocate_with_seed account base seed space owner) =
    (get_field_as_pubkey from_str info "account" ≡ ok account)
    × (get_field_as_pubkey from_str info "base" ≡ ok base)
    × (get_field_as_str info "seed" ≡ ok seed)
    × (get_field_as_u64 info "space" ≡ ok space)
    × (get_field_as_pubkey from_str info "owner" ≡ ok owner)
Says from_str info (SystemUi.initialize_nonce nonce_account nonce_authority) =
    (get_field_as_pubkey from_str info "nonceAccount" ≡ ok nonce_account)
    × (get_field_as_pubkey from_str info "nonceAuthority" ≡ ok nonce_authority)
Says from_str info (SystemUi.advance_nonce nonce_account nonce_authority) =
    (get_field_as_pubkey from_str info "nonceAccount" ≡ ok nonce_account)
    × (get_field_as_pubkey from_str info "nonceAuthority" ≡ ok nonce_authority)
Says from_str info (SystemUi.authorize_nonce nonce_account nonce_authority new_authority) =
    (get_field_as_pubkey from_str info "nonceAccount" ≡ ok nonce_account)
    × (get_field_as_pubkey from_str info "nonceAuthority" ≡ ok nonce_authority)
    × (get_field_as_pubkey from_str info "newAuthority" ≡ ok new_authority)

module _ {F D : Type 0} (x : External F D) (e : Encoders) where
  rebuild_system-Says :
      (m : AccountIndexes) (p : ℕ) (info : Json) (u : SystemUi)
      → Says x.from_str info u
      → rebuild_system x e m (type_of u) p info
        ≡ assemble m p (accounts_of u) (serialized e (instruction_of u))
  unfolding rebuild_system
  rebuild_system-Says m p info (SystemUi.transfer v0 v1 v2) (h0, h1, h2) = rw (h0, h1, h2)
  rebuild_system-Says m p info (SystemUi.create_account v0 v1 v2 v3 v4) (h0, h1, h2, h3, h4) =
      rw (h0, h1, h2, h3, h4)
  rebuild_system-Says m p info (SystemUi.assign v0 v1) (h0, h1) = rw (h0, h1)
  rebuild_system-Says m p info (SystemUi.transfer_with_seed v0 v1 v2 v3 v4 v5)
        (h0, h1, h2, h3, h4, h5) =
      rw (h0, h1, h2, h3, h4, h5)
  rebuild_system-Says m p info (SystemUi.create_account_with_seed v0 v1 v2 v3 v4 v5 v6)
        (h0, h1, h2, h3, h4, h5, h6) =
      rw (h0, h1, h2, h3, h4, h5, h6)
  rebuild_system-Says m p info (SystemUi.assign_with_seed v0 v1 v2 v3) (h0, h1, h2, h3) =
      rw (h0, h1, h2, h3)
  rebuild_system-Says m p info (SystemUi.withdraw_nonce v0 v1 v2 v3) (h0, h1, h2, h3) =
      rw (h0, h1, h2, h3)
  rebuild_system-Says m p info (SystemUi.allocate v0 v1) (h0, h1) = rw (h0, h1)
  rebuild_system-Says m p info (SystemUi.allocate_with_seed v0 v1 v2 v3 v4) (h0, h1, h2, h3, h4) =
      rw (h0, h1, h2, h3, h4)
  rebuild_system-Says m p info (SystemUi.initialize_nonce v0 v1) (h0, h1) = rw (h0, h1)
  rebuild_system-Says m p info (SystemUi.advance_nonce v0 v1) (h0, h1) = rw (h0, h1)
  rebuild_system-Says m p info (SystemUi.authorize_nonce v0 v1 v2) (h0, h1, h2) = rw (h0, h1, h2)

  -- The plain instruction that the form stands for.
  abbrev pub plain : SystemUi → Bytes → Instruction
  plain u payload = record {
    program_id = x.programs.system_program;
    accounts = map account_meta (accounts_of u);
    payload = payload;
  }

  system_entry-filed :
      (u : SystemUi) (b : Bytes) → system_entry (plain u b) (instruction_of u) ≡ filed u
  unfolding system_entry solus_protocol.Parse.account_at
  system_entry-filed (SystemUi.transfer _ _ _) b = refl
  system_entry-filed (SystemUi.create_account _ _ _ _ _) b = refl
  system_entry-filed (SystemUi.assign _ _) b = refl
  system_entry-filed (SystemUi.transfer_with_seed _ _ _ _ _ _) b = refl
  system_entry-filed (SystemUi.create_account_with_seed _ _ _ _ _ _ _) b = refl
  system_entry-filed (SystemUi.assign_with_seed _ _ _ _) b = refl
  system_entry-filed (SystemUi.withdraw_nonce _ _ _ _) b = refl
  system_entry-filed (SystemUi.allocate _ _) b = refl
  system_entry-filed (SystemUi.allocate_with_seed _ _ _ _ _) b = refl
  system_entry-filed (SystemUi.initialize_nonce _ _) b = refl
  system_entry-filed (SystemUi.advance_nonce _ _) b = refl
  system_entry-filed (SystemUi.authorize_nonce _ _ _) b = refl

  rebuilt_by-form :
      (m : AccountIndexes) (p : ℕ) (json info : Json) (u : SystemUi)
      → get_account_index m x.programs.system_program ≡ ok p
      → get_field_as_str json "type" ≡ ok (type_of u)
      → Json.get "info" json ≡ some info
      → Says x.from_str info u
      → reconstruct_system_instruction x e m json
        ≡ assemble m p (accounts_of u) (serialized e (instruction_of u))
  unfolding reconstruct_system_instruction
  rebuilt_by-form m p json info u program_at typed has_info says =
      rw (program_at, typed, has_info, ok_or) (rebuild_system-Says m p info u says)

  -- From the JSON form in which a simulation reports a System instruction, all of whose accounts
  -- are among at most 256 keys of the transaction, the code rebuilds a compiled instruction that
  -- expands to the System program, the accounts of the form and its encoding, and the parser reads
  -- from it the sender or authority that the form names, but refuses it if it withdraws from,
  -- initializes or advances a nonce, for whose missing accounts the parser asks. It is assumed that
  -- the encoding succeeds and decodes to the same instruction.
  pub reconstruct-read_system :
      (keys : List Pubkey) (json info : Json) (u : SystemUi) (payload : Bytes)
      → length keys ≤ 256
      → AllKnown keys (x.programs.system_program ∷ accounts_of u)
      → get_field_as_str json "type" ≡ ok (type_of u)
      → Json.get "info" json ≡ some info
      → Says x.from_str info u
      → e.serialize_system (instruction_of u) ≡ some payload
      → x.programs.deserialize_system payload ≡ some (instruction_of u)
      → (ix : CompiledInstruction) × (reconstruct_instruction_from_ui x e
            (parsed (x.to_string x.programs.system_program) json)
            keys
          ≡ some ix)
        × (uncompile_instruction keys ix ≡ ok (plain u payload))
        × (read_system x.programs (plain u payload) ≡ filed u)
  unfolding reconstruct_instruction_from_ui read_system
  reconstruct-read_system keys json info u payload few (knows, known) typed has_info says coded
        decoded =
      let (p, e_p, at_p) = known-index keys few x.programs.system_program knows in
      let (ix, made, expanded) =
        assemble-uncompile keys few x.programs.system_program p (accounts_of u) payload at_p
          known in
      let m = build_account_keys_hashmap keys in
      let name = x.to_string x.programs.system_program in
      let same_text : (name == name) ≡ true = (string_eq.equal_iff name name).1 refl in
      let form = rebuilt_by-form m p json info u e_p typed has_info says in
      (
        ix,
        rw (same_text, form, coded, made),
        expanded,
        rw ((eqb_iff x.programs.system_program x.programs.system_program).1 refl, decoded)
            (system_entry-filed u payload),
      )

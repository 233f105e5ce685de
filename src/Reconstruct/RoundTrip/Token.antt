-- ===== src/Reconstruct/RoundTrip/Token.antt =====
-- A token instruction goes through the JSON form of a simulation and back: what is rebuilt from the
-- form, and what the parser reads of it.
use solus_protocol.Base.{
  ℕ, String, Bool, true, false, ◌≡◌, ◌≢◌, refl, ◌≤◌, ap, sym, ◌∙◌, Option, some, none, List, [],
  ◌∷◌, map, length, ◌==◌, ◌||◌, eqb_iff, nat_eq, string_eq, Bool-cases, inl, inr,
}
use mathlib.Core.Option.{some-injective}
use solus_protocol.Error.{Result, ok, ok_or}
use solus_protocol.Instruction.{Pubkey, Bytes, Instruction, CompiledInstruction, TokenInstruction}
use solus_protocol.External.{External}
use solus_protocol.Json
use solus_protocol.Json.{Json, get_field_as_str}
use solus_protocol.Parse.{SplEntry, spl_token_entry, token_2022_entry, read_token}
use solus_protocol.Resolve.{uncompile_instruction, account_meta}
use solus_protocol.Reconstruct.Keys.{
  Encoders, AccountIndexes, get_account_index, build_account_keys_hashmap, assemble,
}
use solus_protocol.Reconstruct.Token.{pack, rebuild_token, reconstruct_spl_token_instruction}
use solus_protocol.Reconstruct.Ui.{parsed, reconstruct_instruction_from_ui}
use solus_protocol.Reconstruct.Indexes.{AllKnown, known-index, assemble-uncompile}
use solus_protocol.Reconstruct.RoundTrip.TokenForm.{
  TokenUi, type_of, accounts_of, Payload, packed, tag, payload_of, read_back, filed, Says,
}

abbrev entry_from : Bool → Instruction → Option TokenInstruction → Result (Option SplEntry)
entry_from is_2022 ix none = ok none
entry_from true ix (some i) = token_2022_entry ix i
entry_from false ix (some i) = spl_token_entry ix i

entry_from-filed :
    (is_2022 : Bool) (u : TokenUi) (program : Pubkey) (payload : Bytes)
    → entry_from is_2022
        (record {
          program_id = program;
          accounts = map account_meta (accounts_of u);
          payload = payload;
        })
        (read_back u)
      ≡ filed is_2022 u
unfolding spl_token_entry token_2022_entry solus_protocol.Parse.account_at
entry_from-filed true (TokenUi.revoke _ _) program payload = refl
entry_from-filed true _ program payload = refl
entry_from-filed false (TokenUi.revoke _ _) program payload = refl
entry_from-filed false _ program payload = refl

or_true : (b : Bool) → (b || true) ≡ true
or_true true = refl
or_true false = refl

module _ {F D : Type 0} (x : External F D) (e : Encoders) where
  -- The program's id, and what its decoder gives.
  abbrev pub program_of : Bool → Pubkey
  program_of true = x.programs.spl_token_2022
  program_of false = x.programs.spl_token

  abbrev pub unpack : Bool → Bytes → Option TokenInstruction
  unpack true = x.programs.unpack_2022
  unpack false = x.programs.unpack_spl

  abbrev pub bytes_for : String → Payload → Bytes
  bytes_for program_id (packed i) = pack x e program_id i
  bytes_for program_id (tag n) = n ∷ []

  abbrev pub rebuilt_bytes : Bool → TokenUi → Bytes
  rebuilt_bytes is_2022 u = bytes_for (x.to_string (program_of is_2022)) (payload_of u)

  rebuild_token-Says :
      (m : AccountIndexes) (program_id : String) (p : ℕ) (info : Json) (u : TokenUi)
      → Says x.from_str info u
      → rebuild_token x e m (type_of u) program_id p info
        ≡ assemble m p (accounts_of u) (ok (bytes_for program_id (payload_of u)))
  unfolding rebuild_token
  rebuild_token-Says m name p info (TokenUi.token_transfer v0 v1 v2 v3) (h1, h2, h3, h4) =
      rw (h1, h2, h3, h4)
  rebuild_token-Says m name p info (TokenUi.token_transfer_checked v0 v1 v2 v3 v4 v5)
        (h1, h2, h3, h4, ta, h5, h6, h7) =
      rw (h1, h2, h3, h4, h5, h6, h7)
  rebuild_token-Says m name p info (TokenUi.burn v0 v1 v2) (h1, h2, h3) = rw (h1, h2, h3)
  rebuild_token-Says m name p info (TokenUi.burn_checked v0 v1 v2 v3 v4)
        (h1, h2, ta, h3, h4, h5, h6) =
      rw (h1, h2, h3, h4, h5, h6)
  rebuild_token-Says m name p info (TokenUi.close_account v0 v1 v2) (h1, h2, h3) = rw (h1, h2, h3)
  rebuild_token-Says m name p info (TokenUi.approve v0 v1 v2 v3) (h1, h2, h3, h4) =
      rw (h1, h2, h3, h4)
  rebuild_token-Says m name p info (TokenUi.approve_checked v0 v1 v2 v3 v4 v5)
        (h1, h2, h3, h4, ta, h5, h6, h7) =
      rw (h1, h2, h3, h4, h5, h6, h7)
  rebuild_token-Says m name p info (TokenUi.revoke v0 v1) (h1, h2) = rw (h1, h2)
  rebuild_token-Says m name p info (TokenUi.set_authority v0 v1) (h1, h2) = rw (h1, h2)
  rebuild_token-Says m name p info (TokenUi.mint_to v0 v1 v2 v3) (h1, h2, h3, h4) =
      rw (h1, h2, h3, h4)
  rebuild_token-Says m name p info (TokenUi.mint_to_checked v0 v1 v2 v3 v4)
        (h1, h2, h3, ta, h4, h5, h6) =
      rw (h1, h2, h3, h4, h5, h6)
  rebuild_token-Says m name p info (TokenUi.initialize_mint v0 v1) (h1, h2) = rw (h1, h2)
  rebuild_token-Says m name p info (TokenUi.initialize_mint2 v0 v1) (h1, h2) = rw (h1, h2)
  rebuild_token-Says m name p info (TokenUi.initialize_account v0 v1 v2) (h1, h2, h3) =
      rw (h1, h2, h3)
  rebuild_token-Says m name p info (TokenUi.initialize_account2 v0 v1 v2) (h1, h2, h3) =
      rw (h1, h2, h3)
  rebuild_token-Says m name p info (TokenUi.initialize_account3 v0 v1 v2) (h1, h2, h3) =
      rw (h1, h2, h3)
  rebuild_token-Says m name p info (TokenUi.initialize_multisig v0) (h1, ss, h2) = rw (h1, h2)
  rebuild_token-Says m name p info (TokenUi.initialize_multisig2 v0) (h1, ss, h2) = rw (h1, h2)
  rebuild_token-Says m name p info (TokenUi.freeze_account v0 v1 v2) (h1, h2, h3) = rw (h1, h2, h3)
  rebuild_token-Says m name p info (TokenUi.thaw_account v0 v1 v2) (h1, h2, h3) = rw (h1, h2, h3)

  -- The plain instruction that the form stands for.
  abbrev pub plain : Bool → TokenUi → Instruction
  plain is_2022 u = record {
    program_id = program_of is_2022;
    accounts = map account_meta (accounts_of u);
    payload = rebuilt_bytes is_2022 u;
  }

  read_token-filed :
      (is_2022 : Bool) (u : TokenUi)
      → unpack is_2022 (rebuilt_bytes is_2022 u) ≡ read_back u
      → read_token x.programs (plain is_2022 u) ≡ filed is_2022 u
  unfolding read_token
  read_token-filed true u decoded =
      let same : (x.programs.spl_token_2022 == x.programs.spl_token_2022) ≡ true =
        (eqb_iff x.programs.spl_token_2022 x.programs.spl_token_2022).1 refl in
      let other : (x.programs.spl_token_2022 == x.programs.spl_token) ≡ false =
        elim (Bool-cases (x.programs.spl_token_2022 == x.programs.spl_token)) [
          | inl q ↦ absurd (x.programs.spl-ne-2022 (sym ((eqb_iff _ _).0 q)))
          | inr q ↦ q
        ] in
      rw (other, same, decoded)
        (entry_from-filed true u x.programs.spl_token_2022 (rebuilt_bytes true u))
  read_token-filed false u decoded =
      let same : (x.programs.spl_token == x.programs.spl_token) ≡ true =
        (eqb_iff x.programs.spl_token x.programs.spl_token).1 refl in
      rw (same, decoded) (entry_from-filed false u x.programs.spl_token (rebuilt_bytes false u))

  module _ (readable : (k : Pubkey) → x.from_str (x.to_string k) ≡ some k) where
    pub to_string-differs : (j k : Pubkey) → j ≢ k → (x.to_string j == x.to_string k) ≡ false
    to_string-differs j k different = elim (Bool-cases (x.to_string j == x.to_string k)) [
      | inl q ↦
          let same = (string_eq.equal_iff (x.to_string j) (x.to_string k)).0 q in
          absurd
            (different (some-injective j k (sym (readable j) ∙ (ap x.from_str same ∙ readable k))))
      | inr q ↦ q
    ]

    pub is_token_program :
        (is_2022 : Bool)
        → (x.to_string (program_of is_2022) == x.to_string x.programs.spl_token
            || x.to_string (program_of is_2022) == x.to_string x.programs.spl_token_2022)
          ≡ true
    is_token_program true =
        let name = x.to_string x.programs.spl_token_2022 in
        let same : (name == name) ≡ true = (string_eq.equal_iff name name).1 refl in
        rw same (or_true _)
    is_token_program false =
        let name = x.to_string x.programs.spl_token in
        let same : (name == name) ≡ true = (string_eq.equal_iff name name).1 refl in rw same

    rebuilt_by-form :
        (m : AccountIndexes) (p : ℕ) (json info : Json) (is_2022 : Bool) (u : TokenUi)
        → get_account_index m (program_of is_2022) ≡ ok p
        → get_field_as_str json "type" ≡ ok (type_of u)
        → Json.get "info" json ≡ some info
        → Says x.from_str info u
        → reconstruct_spl_token_instruction x e m (x.to_string (program_of is_2022)) json
          ≡ assemble m p (accounts_of u) (ok (rebuilt_bytes is_2022 u))
    unfolding reconstruct_spl_token_instruction
    rebuilt_by-form m p json info is_2022 u program_at typed has_info says =
        rw (readable (program_of is_2022), program_at, typed, has_info, ok_or)
          (rebuild_token-Says m (x.to_string (program_of is_2022)) p info u says)

    -- From the JSON form in which a simulation reports an instruction of a token program, if it has
    -- the members that the code asks for and all its accounts are among at most 256 keys of the
    -- transaction, the code rebuilds a compiled instruction that expands to the program, the
    -- accounts and the bytes of the form, and the parser reads from it what `filed` says: the
    -- authority of the form for eleven types, a refusal for `burn` and `initializeAccount`, and
    -- nothing for `setAuthority`, `initializeMint`, `initializeMint2`, `initializeAccount2`,
    -- `initializeAccount3`, `initializeMultisig` and `initializeMultisig2`. It is assumed that the
    -- names of keys can be read back, that the program is not the System program, and that the
    -- program's decoder reads the rebuilt bytes back, where a tag alone reads as an instruction
    -- only for `initializeAccount`.
    pub reconstruct-read_token :
        (keys : List Pubkey) (json info : Json) (is_2022 : Bool) (u : TokenUi)
        → length keys ≤ 256
        → AllKnown keys (program_of is_2022 ∷ accounts_of u)
        → program_of is_2022 ≢ x.programs.system_program
        → get_field_as_str json "type" ≡ ok (type_of u)
        → Json.get "info" json ≡ some info
        → Says x.from_str info u
        → unpack is_2022 (rebuilt_bytes is_2022 u) ≡ read_back u
        → (ix : CompiledInstruction) × (reconstruct_instruction_from_ui x e
              (parsed (x.to_string (program_of is_2022)) json)
              keys
            ≡ some ix)
          × (uncompile_instruction keys ix ≡ ok (plain is_2022 u))
          × (read_token x.programs (plain is_2022 u) ≡ filed is_2022 u)
    unfolding reconstruct_instruction_from_ui
    reconstruct-read_token keys json info is_2022 u few (knows, known) no_system typed has_info says
          decoded =
        let (p, e_p, at_p) = known-index keys few (program_of is_2022) knows in
        let (ix, made, expanded) =
          assemble-uncompile keys few (program_of is_2022) p (accounts_of u)
            (rebuilt_bytes is_2022 u) at_p known in
        let m = build_account_keys_hashmap keys in
        let form = rebuilt_by-form m p json info is_2022 u e_p typed has_info says in
        let differs = to_string-differs (program_of is_2022) x.programs.system_program no_system in
        (
          ix,
          rw (differs, is_token_program is_2022, form, made),
          expanded,
          read_token-filed is_2022 u decoded,
        )

-- ===== src/Reconstruct/RoundTrip/Lacking.antt =====
-- The JSON forms of token instructions that are not rebuilt: those without a member that the code asks
-- for, as the forms of an instruction that a multisig account authorises, which have
-- `multisigAuthority` in the place of the authority, and of a `setAuthority` on a mint, which names no
-- `account`.
use solus_protocol.Base.{
  ℕ, String, none, Bool, true, some, ◌==◌, string_eq, Bool-cases, subst, sym, ◌∙◌, contains, List,
  [], ◌∷◌, All, ◌≡◌, ◌≢◌, arith, inl, inr,
}
use mathlib.Core.Option.{some-injective}
use solus_protocol.Error.{
  KoraError, Result, ok, err, serialization_error, ok_or, Result-cases, ok-injective, ok_or-eq-ok,
  >>=-eq-ok,
}
use solus_protocol.Instruction.{Pubkey, CompiledInstruction}
use solus_protocol.External.{External}
use solus_protocol.Json
use solus_protocol.Json.{Json, get_field_as_str, get_field_as_pubkey}
use solus_protocol.Reconstruct.Keys.{
  Encoders, AccountIndexes, get_account_index, build_account_keys_hashmap,
}
use solus_protocol.Reconstruct.RoundTrip.TokenForm.{TokenUi, type_of}
use solus_protocol.Reconstruct.RoundTrip.Token.{program_of, to_string-differs, is_token_program}
use solus_protocol.Reconstruct.Ui.{parsed, reconstruct_instruction_from_ui}
use solus_protocol.Reconstruct.Token.{rebuild_token, reconstruct_spl_token_instruction}

-- The members that name accounts, as the code asks for them.
abbrev pub members : TokenUi → List String
members (TokenUi.token_transfer _ _ _ _) = "source" ∷ "destination" ∷ "authority" ∷ []
members (TokenUi.token_transfer_checked _ _ _ _ _ _) =
    "source" ∷ "destination" ∷ "authority" ∷ "mint" ∷ []
members (TokenUi.burn _ _ _) = "account" ∷ "authority" ∷ []
members (TokenUi.burn_checked _ _ _ _ _) = "account" ∷ "authority" ∷ "mint" ∷ []
members (TokenUi.close_account _ _ _) = "account" ∷ "destination" ∷ "owner" ∷ []
members (TokenUi.approve _ _ _ _) = "source" ∷ "delegate" ∷ "owner" ∷ []
members (TokenUi.approve_checked _ _ _ _ _ _) = "source" ∷ "delegate" ∷ "owner" ∷ "mint" ∷ []
members (TokenUi.revoke _ _) = "source" ∷ "owner" ∷ []
members (TokenUi.set_authority _ _) = "account" ∷ "authority" ∷ []
members (TokenUi.mint_to _ _ _ _) = "mint" ∷ "account" ∷ "mintAuthority" ∷ []
members (TokenUi.mint_to_checked _ _ _ _ _) = "mint" ∷ "account" ∷ "mintAuthority" ∷ []
members (TokenUi.initialize_mint _ _) = "mint" ∷ "mintAuthority" ∷ []
members (TokenUi.initialize_mint2 _ _) = "mint" ∷ "mintAuthority" ∷ []
members (TokenUi.initialize_account _ _ _) = "account" ∷ "mint" ∷ "owner" ∷ []
members (TokenUi.initialize_account2 _ _ _) = "account" ∷ "mint" ∷ "owner" ∷ []
members (TokenUi.initialize_account3 _ _ _) = "account" ∷ "mint" ∷ "owner" ∷ []
members (TokenUi.initialize_multisig _) = "multisig" ∷ []
members (TokenUi.initialize_multisig2 _) = "multisig" ∷ []
members (TokenUi.freeze_account _ _ _) = "account" ∷ "mint" ∷ "freezeAuthority" ∷ []
members (TokenUi.thaw_account _ _ _) = "account" ∷ "mint" ∷ "freezeAuthority" ∷ []

-- What holds of all members holds of each.
All-contains :
    (P : String → Type 0) (xs : List String) (a : String) → All P xs → contains xs a ≡ true → P a
All-contains P [] a h e = cc
All-contains P (y ∷ ys) a (p, ps) e = elim (Bool-cases (y == a)) [
  | inl q ↦ subst P ((string_eq.equal_iff y a).0 q) p
  | inr q ↦ All-contains P ys a ps (ground arith)
]

module _ {F D : Type 0} (x : External F D) (e : Encoders) (m : AccountIndexes) where
  -- If the instruction is rebuilt, the member is there.
  abbrev Asks : Json → Result CompiledInstruction → String → Type 0
  Asks info rebuilt name =
      (k : KoraError) (ix : CompiledInstruction)
      → get_field_as_pubkey x.from_str info name ≡ err k
      → rebuilt ≢ ok ix

  rebuild_token-Asks :
      (name : String) (p : ℕ) (info : Json) (u : TokenUi)
      → All (Asks info (rebuild_token x e m (type_of u) name p info)) (members u)
  unfolding rebuild_token
  rebuild_token-Asks name p info (TokenUi.burn _ _ _) = ground arith
  rebuild_token-Asks name p info _ = ground arith

  reconstruct_spl_token_instruction-Asks :
      (name program_id : String) (json info : Json) (u : TokenUi) (k : KoraError)
      (ix : CompiledInstruction)
      → get_field_as_str json "type" ≡ ok (type_of u)
      → Json.get "info" json ≡ some info
      → contains (members u) name ≡ true
      → get_field_as_pubkey x.from_str info name ≡ err k
      → reconstruct_spl_token_instruction x e m program_id json ≢ ok ix
  unfolding reconstruct_spl_token_instruction
  reconstruct_spl_token_instruction-Asks name program_id json info u k ix typed has_info among lacks
        h =
      let (program, _, h₁) =
        >>=-eq-ok (ok_or (x.from_str program_id) serialization_error) _ {b = ix} h in
      let (p, _, h₂) = >>=-eq-ok (get_account_index m program) _ {b = ix} h₁ in
      let (type, e₃, h₃) = >>=-eq-ok (get_field_as_str json "type") _ {b = ix} h₂ in
      let (info', e₄, h₄) =
        >>=-eq-ok (ok_or (Json.get "info" json) serialization_error) _ {b = ix} h₃ in
      let same_type : type ≡ type_of u = ok-injective (sym e₃ ∙ typed) in
      let same_info : info' ≡ info =
        some-injective info' info (sym (ok_or-eq-ok _ _ e₄) ∙ has_info) in
      let built : rebuild_token x e m (type_of u) program_id p info ≡ ok ix =
        subst (λ t. rebuild_token x e m t program_id p info ≡ ok ix) same_type
          (subst (λ i. rebuild_token x e m type program_id p i ≡ ok ix) same_info h₄) in
      All-contains (Asks info (rebuild_token x e m (type_of u) program_id p info)) (members u) name
        (rebuild_token-Asks program_id p info u) among k ix lacks built

module _ {F D : Type 0} (x : External F D) (e : Encoders)
    (readable : (k : Pubkey) → x.from_str (x.to_string k) ≡ some k) where
  -- The JSON form of an instruction of a token program, of a type that the code knows, is dropped
  -- without an error if it lacks one of the members with accounts that the code asks for that type,
  -- or if that member names no key, whatever else the form has. It is assumed that the names of
  -- keys can be read back and that the program is not the System program.
  pub reconstruct-lacking :
      (keys : List Pubkey) (json info : Json) (is_2022 : Bool) (u : TokenUi) (name : String)
      (k : KoraError)
      → program_of x e is_2022 ≢ x.programs.system_program
      → get_field_as_str json "type" ≡ ok (type_of u)
      → Json.get "info" json ≡ some info
      → contains (members u) name ≡ true
      → get_field_as_pubkey x.from_str info name ≡ err k
      → reconstruct_instruction_from_ui x e
          (parsed (x.to_string (program_of x e is_2022)) json)
          keys
        ≡ none
  unfolding reconstruct_instruction_from_ui
  reconstruct-lacking keys json info is_2022 u name k no_system typed has_info among lacks =
      let m = build_account_keys_hashmap keys in
      let program = x.to_string (program_of x e is_2022) in
      elim (Result-cases (reconstruct_spl_token_instruction x e m program json)) [
        | inl (_, q) ↦ rw (
          to_string-differs x e readable (program_of x e is_2022) x.programs.system_program
              no_system,
          is_token_program x e readable is_2022,
          q,
        )
        | inr (ix, q) ↦ absurd (
            reconstruct_spl_token_instruction-Asks x e m name program json info u k ix typed
              has_info among lacks q)
      ]

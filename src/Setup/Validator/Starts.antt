-- ===== src/Setup/Validator/Starts.antt =====
-- What an accepted configuration means for the requests.
use solus_protocol.Base.{String, Bool, Option, none, some, List, [], ◌∷◌, ◌≡◌, ◌↔◌, refl, All}
use solus_protocol.Error.{ok, internal_server_error, ok_or, >>=-eq-ok, ok_or-eq-ok}
use solus_protocol.Instruction.{Pubkey}
use solus_protocol.Config.{ValidationConfig, Config, get_payment_address, Token2022Config}
use solus_protocol.Validator.Checks.{TransactionValidator, new_validator, parse_addresses}
use solus_protocol.Setup.Extensions.{initialize}
use solus_protocol.Setup.Extensions.Blocks.{initialize-of_validate}
use solus_protocol.Setup.Report.{ConfigWarning}
use solus_protocol.Setup.Checks.{Surroundings}
use solus_protocol.Setup.Validator.{valid, validate_with_result_and_signers}
use solus_protocol.Setup.Validator.Conditions.{IsKey}
use solus_protocol.Setup.Validator.Accepted.{validate_with_result_and_signers_iff}

module _ {F D : Type 0} (s : Surroundings F D) where
  parsed-IsKey :
      (xs : List String) (ks : List Pubkey)
      → parse_addresses s.chain.from_str xs ≡ ok ks
      → All (IsKey s) xs
  parsed-IsKey [] ks h = tt
  parsed-IsKey (x ∷ xs) ks h =
      let (k, h₁, h₂) = >>=-eq-ok (ok_or (s.chain.from_str x) internal_server_error) _ {b = ks} h in
      let (js, h₃, _) =
        >>=-eq-ok (parse_addresses s.chain.from_str xs) (λ js. ok (k ∷ js)) {b = ks} h₂ in
      ((k, ok_or-eq-ok (s.chain.from_str x) internal_server_error h₁), parsed-IsKey xs js h₃)

  parse-of_keys :
      (xs : List String)
      → All (IsKey s) xs
      → (ks : List Pubkey) × (parse_addresses s.chain.from_str xs ≡ ok ks)
  parse-of_keys [] h = ([], refl)
  parse-of_keys (x ∷ xs) ((k, e), h) = let (ks, p) = parse-of_keys xs h in (k ∷ ks, rw (e, p))

  new_validator_iff :
      (v : ValidationConfig F) (payer : Pubkey)
      → All (IsKey s) v.allowed_tokens
      → All (IsKey s) v.disallowed_accounts
      → ((t : TransactionValidator) × (new_validator s.chain.from_str v payer ≡ ok t))
        ↔ All (IsKey s) v.allowed_programs
  unfolding new_validator
  new_validator_iff v payer tokens accounts = (
    λ (t, h).
        let (ks, e, _) =
          >>=-eq-ok (parse_addresses s.chain.from_str v.allowed_programs) _ {b = t} h in
        parsed-IsKey v.allowed_programs ks e,
    λ programs.
        let (ps, e) = parse-of_keys v.allowed_programs programs in
        let (ts, e') = parse-of_keys v.allowed_tokens tokens in
        let (banned, e'') = parse-of_keys v.disallowed_accounts accounts in
        (
          record {
            fee_payer_pubkey = payer;
            max_allowed_lamports = v.max_allowed_lamports;
            allowed_programs = ps;
            max_signatures = v.max_signatures;
            allowed_tokens = ts;
            disallowed_accounts = banned;
            fee_payer_policy = v.fee_payer_policy;
            allow_durable_transactions = v.allow_durable_transactions;
          },
          rw (e, e', e''),
        ),
  )

  payment_address-ok :
      (o : Option String) (payer : Pubkey)
      → ((address : String) → o ≡ some address → IsKey s address)
      → (k : Pubkey) × (get_payment_address s.chain.from_str o payer ≡ ok k)
  unfolding get_payment_address
  payment_address-ok none payer h = (payer, refl)
  payment_address-ok (some a) payer h = let (k, e) = h a refl in (k, rw (get_payment_address, e))

  -- For a configuration that the validator accepts, the payment address resolves and the blocked
  -- extensions are initialized, but the transaction validator of a request is built exactly if
  -- every allowed program is a key too, which the configuration validator does not ask.
  pub accepted-starts :
      (c : Config F) (skip : Bool) (path : Option String) (ws : List ConfigWarning) (payer : Pubkey)
      → validate_with_result_and_signers s (ok c) skip path ≡ valid ws
      → (((t : TransactionValidator) × (new_validator s.chain.from_str c.validation payer ≡ ok t))
          ↔ All (IsKey s) c.validation.allowed_programs)
        × ((k : Pubkey) × (get_payment_address s.chain.from_str c.kora.payment_address payer
              ≡ ok k))
        × ((t : Token2022Config) × (initialize s.number c.validation.token_2022 ≡ (ok tt, t)))
  accepted-starts c skip path ws payer h =
      let (a, _, _, tokens, _, accounts, extensions, _, _, _, _, _, _) =
        (validate_with_result_and_signers_iff s c skip path).0 (ws, h) in
      (
        new_validator_iff c.validation payer tokens accounts,
        payment_address-ok c.kora.payment_address payer a,
        initialize-of_validate s.number c.validation.token_2022 extensions,
      )

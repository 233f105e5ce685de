-- ===== src/Parse/Safety.antt =====
-- Neither parser reads an account that an instruction does not have: each guard of
-- `validate_number_accounts!` covers the reads behind it.
use solus_protocol.Base.{
  ℕ, inl, inr, refl, ◌∙◌, ◌<◌, ◌≡◌, ◌≢◌, List, [], ◌∷◌, arith, length, get_elem?-lt,
}
use solus_protocol.Error.{ok, err, panicked, Result-cases}
use solus_protocol.Instruction.{Pubkey, Instruction, Programs, SystemInstruction, TokenInstruction}
use solus_protocol.Parse.Accounts.{account_at}
use solus_protocol.Parse.System.{system_entry}
use solus_protocol.Parse.Token.{spl_token_entry, token_2022_entry}
use solus_protocol.Parse.Loop.{
  SystemTable, SplTable, read_system, read_token, file_system, file_token, parse_system_from,
  parse_token_from, parse_system_instructions, parse_token_instructions,
}

pub account_at-ok :
    (ix : Instruction) (i : ℕ) → i < length ix.accounts → (k : Pubkey) × (account_at ix i ≡ ok k)
unfolding account_at
account_at-ok ix i h =
    let (m, e) = get_elem?-lt ix.accounts i h in (m.pubkey, rw (e, account_at) refl)

pub system_entry-ne-panicked :
    (ix : Instruction) (i : SystemInstruction) → system_entry ix i ≢ err panicked
unfolding system_entry
system_entry-ne-panicked ix (SystemInstruction.assign o) =
    ground (arith, account_at-ok ix 0, account_at-ok ix 1, account_at-ok ix 2, account_at-ok ix 4)
system_entry-ne-panicked ix _ =
    ground (arith, account_at-ok ix 0, account_at-ok ix 1, account_at-ok ix 2, account_at-ok ix 4)

pub spl_token_entry-ne-panicked :
    (ix : Instruction) (i : TokenInstruction) → spl_token_entry ix i ≢ err panicked
unfolding spl_token_entry
spl_token_entry-ne-panicked ix (TokenInstruction.burn n) =
    ground (arith, account_at-ok ix 0, account_at-ok ix 1, account_at-ok ix 2, account_at-ok ix 3)
spl_token_entry-ne-panicked ix _ =
    ground (arith, account_at-ok ix 0, account_at-ok ix 1, account_at-ok ix 2, account_at-ok ix 3)

pub token_2022_entry-ne-panicked :
    (ix : Instruction) (i : TokenInstruction) → token_2022_entry ix i ≢ err panicked
unfolding token_2022_entry
token_2022_entry-ne-panicked ix (TokenInstruction.burn n) =
    ground (arith, account_at-ok ix 0, account_at-ok ix 1, account_at-ok ix 2, account_at-ok ix 3)
token_2022_entry-ne-panicked ix _ =
    ground (arith, account_at-ok ix 0, account_at-ok ix 1, account_at-ok ix 2, account_at-ok ix 3)

module _ (p : Programs) where
  read_system-ne-panicked : (ix : Instruction) → read_system p ix ≢ err panicked
  unfolding read_system
  read_system-ne-panicked ix = grind (arith, system_entry-ne-panicked)

  read_token-ne-panicked : (ix : Instruction) → read_token p ix ≢ err panicked
  unfolding read_token
  read_token-ne-panicked ix =
      grind (arith, spl_token_entry-ne-panicked, token_2022_entry-ne-panicked)

  parse_system_from-ne-panicked :
      (ixs : List Instruction) (t : SystemTable) → parse_system_from p ixs t ≢ err panicked
  unfolding parse_system_from
  parse_system_from-ne-panicked [] t = λ h. cc
  parse_system_from-ne-panicked (ix ∷ ixs) t = elim (Result-cases (read_system p ix)) [
    | inl (e, q) ↦ rw q (λ h. read_system-ne-panicked ix (q ∙ ground arith))
    | inr (e, q) ↦ rw q (parse_system_from-ne-panicked ixs (file_system e t))
  ]

  parse_token_from-ne-panicked :
      (ixs : List Instruction) (t : SplTable) → parse_token_from p ixs t ≢ err panicked
  unfolding parse_token_from
  parse_token_from-ne-panicked [] t = λ h. cc
  parse_token_from-ne-panicked (ix ∷ ixs) t = elim (Result-cases (read_token p ix)) [
    | inl (e, q) ↦ rw q (λ h. read_token-ne-panicked ix (q ∙ ground arith))
    | inr (e, q) ↦ rw q (parse_token_from-ne-panicked ixs (file_token e t))
  ]

  -- Whatever the instructions and the bytes that they carry, neither parser of instructions panics:
  -- no account is read that an instruction does not have.
  pub parse-ne-panicked :
      (ixs : List Instruction)
      → (parse_system_instructions p ixs ≢ err panicked)
        × (parse_token_instructions p ixs ≢ err panicked)
  unfolding parse_system_instructions parse_token_instructions
  parse-ne-panicked ixs =
      (parse_system_from-ne-panicked ixs [], parse_token_from-ne-panicked ixs [])

-- ===== src/Parse/Arms.antt =====
-- The arms of the parsers against the description.
use solus_protocol.Base.{true, false, List, [], ◌∷◌, ◌≡◌, refl, arith}
use solus_protocol.Instruction.{
  Pubkey, Bytes, AccountMeta, Instruction, SystemInstruction, TokenInstruction,
}
use solus_protocol.Parse.Accounts.{account_at, pubkeys}
use solus_protocol.Parse.System.{system_entry}
use solus_protocol.Parse.Token.{spl_token_entry, token_2022_entry}
use solus_protocol.Parse.Described.{described_system, described_token}

module _ (program : Pubkey) (payload : Bytes) where
  abbrev with_accounts : List AccountMeta → Instruction
  with_accounts accounts = record { program_id = program; accounts = accounts; payload = payload }

  pub system_entry-described :
      (i : SystemInstruction) (accounts : List AccountMeta)
      → system_entry (with_accounts accounts) i ≡ described_system i (pubkeys accounts)
  unfolding system_entry account_at
  system_entry-described (SystemInstruction.assign _) [] = refl
  system_entry-described _ [] = refl
  system_entry-described (SystemInstruction.assign _) (a ∷ []) = refl
  system_entry-described _ (a ∷ []) = refl
  system_entry-described (SystemInstruction.assign _) (a ∷ b ∷ []) = refl
  system_entry-described _ (a ∷ b ∷ []) = refl
  system_entry-described (SystemInstruction.assign _) (a ∷ b ∷ c ∷ []) = refl
  system_entry-described _ (a ∷ b ∷ c ∷ []) = refl
  system_entry-described (SystemInstruction.assign _) (a ∷ b ∷ c ∷ d ∷ []) = refl
  system_entry-described _ (a ∷ b ∷ c ∷ d ∷ []) = refl
  system_entry-described (SystemInstruction.assign _) (a ∷ b ∷ c ∷ d ∷ e ∷ rest) = ground arith
  system_entry-described _ (a ∷ b ∷ c ∷ d ∷ e ∷ rest) = ground arith

  pub spl_token_entry-described :
      (i : TokenInstruction) (accounts : List AccountMeta)
      → spl_token_entry (with_accounts accounts) i ≡ described_token false i (pubkeys accounts)
  unfolding spl_token_entry account_at
  spl_token_entry-described (TokenInstruction.burn _) [] = refl
  spl_token_entry-described _ [] = refl
  spl_token_entry-described (TokenInstruction.burn _) (a ∷ []) = refl
  spl_token_entry-described _ (a ∷ []) = refl
  spl_token_entry-described (TokenInstruction.burn _) (a ∷ b ∷ []) = refl
  spl_token_entry-described _ (a ∷ b ∷ []) = refl
  spl_token_entry-described (TokenInstruction.burn _) (a ∷ b ∷ c ∷ []) = refl
  spl_token_entry-described _ (a ∷ b ∷ c ∷ []) = refl
  spl_token_entry-described (TokenInstruction.burn _) (a ∷ b ∷ c ∷ d ∷ rest) = ground arith
  spl_token_entry-described _ (a ∷ b ∷ c ∷ d ∷ rest) = ground arith

  pub token_2022_entry-described :
      (i : TokenInstruction) (accounts : List AccountMeta)
      → token_2022_entry (with_accounts accounts) i ≡ described_token true i (pubkeys accounts)
  unfolding token_2022_entry account_at
  token_2022_entry-described (TokenInstruction.burn _) [] = refl
  token_2022_entry-described _ [] = refl
  token_2022_entry-described (TokenInstruction.burn _) (a ∷ []) = refl
  token_2022_entry-described _ (a ∷ []) = refl
  token_2022_entry-described (TokenInstruction.burn _) (a ∷ b ∷ []) = refl
  token_2022_entry-described _ (a ∷ b ∷ []) = refl
  token_2022_entry-described (TokenInstruction.burn _) (a ∷ b ∷ c ∷ []) = refl
  token_2022_entry-described _ (a ∷ b ∷ c ∷ []) = refl
  token_2022_entry-described (TokenInstruction.burn _) (a ∷ b ∷ c ∷ d ∷ rest) = ground arith
  token_2022_entry-described _ (a ∷ b ∷ c ∷ d ∷ rest) = ground arith

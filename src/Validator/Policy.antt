-- ===== src/Validator/Policy.antt =====
-- What `validate_fee_payer_usage` promises, read off the instructions and not off the tables: an
-- instruction that the fee payer authorises is one that the policy allows.
pub mod System
pub mod Spl
pub mod Entries
pub mod Refinement
use solus_protocol.Base.{
  Bool, true, false, not, ◌&&◌, ◌||◌, ◌≡◌, ◌≢◌, ◌↔◌, refl, sym, ap, subst, ◌∙◌, Option, none, some,
  List, [], ◌∷◌, ◌==◌, nat_eq, contains, if◌then◌else◌, All, arith, any, inl, inr, Bool-cases,
  eqb_iff,
}
use solus_protocol.Base.Table.{
  get_or_empty, contains_key, push_all, select, All-select, All-of_select, get_or_empty-push_all,
  contains_key-push_all,
}
use solus_protocol.Error.{
  Result, ok, err, invalid_transaction, fail_if, ◌>>=◌, ◌>>◌, >>=-eq-ok, ok-injective, Result-cases,
}
use solus_protocol.Instruction.{Pubkey, Instruction, Programs, SystemInstruction, TokenInstruction}
use solus_protocol.Config.{FeePayerPolicy, TokenInstructionPolicy}
use solus_protocol.Parse.{
  ParsedSystemType, ParsedSystemData, ParsedSplType, ParsedSplData, SystemTable, SplTable,
  SystemEntry, SplEntry, read_system, read_token, system_entry, spl_token_entry, token_2022_entry,
  spl_initialize_entry, token_2022_initialize_entry, system_type_eq, spl_type_eq,
  parse_system_instructions, parse_token_instructions, system_transfer, system_create_account,
  system_withdraw_nonce_account, system_assign, system_allocate, system_initialize_nonce_account,
  system_advance_nonce_account, system_authorize_nonce_account, create_account_data,
  withdraw_nonce_data, assign_data, allocate_data, initialize_nonce_data, advance_nonce_data,
  authorize_nonce_data, spl_transfer, spl_burn, spl_close_account, spl_approve, spl_revoke,
  spl_set_authority, spl_mint_to, spl_initialize_mint, spl_initialize_account,
  spl_initialize_multisig, spl_freeze_account, spl_thaw_account, burn_data, close_account_data,
  approve_data, revoke_data, set_authority_data, mint_to_data, initialize_mint_data,
  initialize_account_data, initialize_multisig_data, freeze_account_data, thaw_account_data,
}
use solus_protocol.Parse.Content.{
  collect, parse_system_instructions-eq, parse_token_instructions-eq,
}
use solus_protocol.Validator.Usage.{
  system_account, spl_account, spl_signers, system_refused, spl_refused, multisig_refused,
  refuse_any, validate_system, validate_spl, validate_spl_multisig, validate_system_usage,
  validate_spl_usage, validate_fee_payer_usage,
}

-- The kind of a value.
abbrev pub system_kind : ParsedSystemData → ParsedSystemType
system_kind (ParsedSystemData.transfer_data _ _ _) = system_transfer
system_kind (create_account_data _ _) = system_create_account
system_kind (withdraw_nonce_data _ _ _) = system_withdraw_nonce_account
system_kind (assign_data _) = system_assign
system_kind (allocate_data _) = system_allocate
system_kind (initialize_nonce_data _ _) = system_initialize_nonce_account
system_kind (advance_nonce_data _ _) = system_advance_nonce_account
system_kind (authorize_nonce_data _ _) = system_authorize_nonce_account

-- The key whose authority an instruction uses.
abbrev pub system_authority : ParsedSystemData → Pubkey
system_authority (ParsedSystemData.transfer_data _ sender _) = sender
system_authority (create_account_data _ payer) = payer
system_authority (withdraw_nonce_data _ nonce_authority _) = nonce_authority
system_authority (assign_data authority) = authority
system_authority (allocate_data account) = account
system_authority (initialize_nonce_data _ nonce_authority) = nonce_authority
system_authority (advance_nonce_data _ nonce_authority) = nonce_authority
system_authority (authorize_nonce_data _ nonce_authority) = nonce_authority

-- The flag of the policy for each kind.
abbrev pub system_flag : FeePayerPolicy → ParsedSystemType → Bool
system_flag policy system_transfer = policy.system.allow_transfer
system_flag policy system_create_account = policy.system.allow_create_account
system_flag policy system_withdraw_nonce_account = policy.system.nonce.allow_withdraw
system_flag policy system_assign = policy.system.allow_assign
system_flag policy system_allocate = policy.system.allow_allocate
system_flag policy system_initialize_nonce_account = policy.system.nonce.allow_initialize
system_flag policy system_advance_nonce_account = policy.system.nonce.allow_advance
system_flag policy system_authorize_nonce_account = policy.system.nonce.allow_authorize

abbrev pub spl_kind : ParsedSplData → ParsedSplType
spl_kind (ParsedSplData.transfer_data _) = spl_transfer
spl_kind (burn_data _ _) = spl_burn
spl_kind (close_account_data _ _) = spl_close_account
spl_kind (approve_data _ _) = spl_approve
spl_kind (revoke_data _ _) = spl_revoke
spl_kind (set_authority_data _ _) = spl_set_authority
spl_kind (mint_to_data _ _) = spl_mint_to
spl_kind (initialize_mint_data _ _) = spl_initialize_mint
spl_kind (initialize_account_data _ _) = spl_initialize_account
spl_kind (initialize_multisig_data _ _) = spl_initialize_multisig
spl_kind (freeze_account_data _ _) = spl_freeze_account
spl_kind (thaw_account_data _ _) = spl_thaw_account

abbrev pub spl_authorities : ParsedSplData → List Pubkey
spl_authorities (ParsedSplData.transfer_data t) = t.owner ∷ []
spl_authorities (burn_data k _) = k ∷ []
spl_authorities (close_account_data k _) = k ∷ []
spl_authorities (approve_data k _) = k ∷ []
spl_authorities (revoke_data k _) = k ∷ []
spl_authorities (set_authority_data k _) = k ∷ []
spl_authorities (mint_to_data k _) = k ∷ []
spl_authorities (initialize_mint_data k _) = k ∷ []
spl_authorities (initialize_account_data k _) = k ∷ []
spl_authorities (initialize_multisig_data signers _) = signers
spl_authorities (freeze_account_data k _) = k ∷ []
spl_authorities (thaw_account_data k _) = k ∷ []

abbrev pub spl_is_2022 : ParsedSplData → Bool
spl_is_2022 (ParsedSplData.transfer_data t) = t.is_2022
spl_is_2022 (burn_data _ b) = b
spl_is_2022 (close_account_data _ b) = b
spl_is_2022 (approve_data _ b) = b
spl_is_2022 (revoke_data _ b) = b
spl_is_2022 (set_authority_data _ b) = b
spl_is_2022 (mint_to_data _ b) = b
spl_is_2022 (initialize_mint_data _ b) = b
spl_is_2022 (initialize_account_data _ b) = b
spl_is_2022 (initialize_multisig_data _ b) = b
spl_is_2022 (freeze_account_data _ b) = b
spl_is_2022 (thaw_account_data _ b) = b

abbrev pub spl_flag : TokenInstructionPolicy → ParsedSplType → Bool
spl_flag policy spl_transfer = policy.allow_transfer
spl_flag policy spl_burn = policy.allow_burn
spl_flag policy spl_close_account = policy.allow_close_account
spl_flag policy spl_approve = policy.allow_approve
spl_flag policy spl_revoke = policy.allow_revoke
spl_flag policy spl_set_authority = policy.allow_set_authority
spl_flag policy spl_mint_to = policy.allow_mint_to
spl_flag policy spl_initialize_mint = policy.allow_initialize_mint
spl_flag policy spl_initialize_account = policy.allow_initialize_account
spl_flag policy spl_initialize_multisig = policy.allow_initialize_multisig
spl_flag policy spl_freeze_account = policy.allow_freeze_account
spl_flag policy spl_thaw_account = policy.allow_thaw_account

-- The policy of the program that runs the instruction.
abbrev pub program_policy : FeePayerPolicy → Bool → TokenInstructionPolicy
program_policy policy true = policy.token_2022
program_policy policy false = policy.spl_token

module _ (policy : FeePayerPolicy) (fee_payer : Pubkey) where
  abbrev pub SystemPermitted : ParsedSystemData → Type 0
  SystemPermitted d = system_authority d ≡ fee_payer → system_flag policy (system_kind d) ≡ true

  abbrev pub SplPermitted : ParsedSplData → Type 0
  SplPermitted d =
      contains (spl_authorities d) fee_payer ≡ true
      → spl_flag (program_policy policy (spl_is_2022 d)) (spl_kind d) ≡ true

-- No nonce is advanced, unless durable transactions are allowed.
abbrev pub DurableAllowed : Bool → List SystemEntry → Type 0
DurableAllowed allowed es = allowed ≡ false → All (λ e. e.0 ≢ system_advance_nonce_account) es

-- ===== src/Validator/Usage.antt =====
-- `validate_fee_payer_usage` of kora/crates/lib/src/validator/transaction_validator.rs, with the
-- macros of kora/crates/lib/src/validator/macros.rs: what the fee payer's key may authorise.
use solus_protocol.Base.{
  Bool, false, not, ◌&&◌, Option, none, some, List, [], ◌∷◌, ◌==◌, nat_eq, contains, if◌then◌else◌,
}
use solus_protocol.Base.Table.{get_or_empty, contains_key}
use solus_protocol.Error.{Result, ok, err, invalid_transaction, fail_if, ◌>>=◌, ◌>>◌}
use solus_protocol.Instruction.{Pubkey, Instruction, Programs}
use solus_protocol.Config.{FeePayerPolicy}
use solus_protocol.Parse.{
  ParsedSystemType, ParsedSystemData, ParsedSplType, ParsedSplData, SystemTable, SplTable,
  system_type_eq, spl_type_eq, parse_system_instructions, parse_token_instructions, system_transfer,
  system_create_account, system_withdraw_nonce_account, system_assign, system_allocate,
  system_initialize_nonce_account, system_advance_nonce_account, system_authorize_nonce_account,
  create_account_data, withdraw_nonce_data, assign_data, allocate_data, initialize_nonce_data,
  advance_nonce_data, authorize_nonce_data, spl_transfer, spl_burn, spl_close_account, spl_approve,
  spl_revoke, spl_set_authority, spl_mint_to, spl_initialize_mint, spl_initialize_account,
  spl_initialize_multisig, spl_freeze_account, spl_thaw_account, burn_data, close_account_data,
  approve_data, revoke_data, set_authority_data, mint_to_data, initialize_mint_data,
  initialize_account_data, initialize_multisig_data, freeze_account_data, thaw_account_data,
}

-- The keys that a pattern of the macros' calls binds: none where the pattern does not match.
abbrev pub system_account : ParsedSystemType → ParsedSystemData → Option Pubkey
system_account system_transfer (ParsedSystemData.transfer_data _ k _) = some k
system_account system_assign (assign_data k) = some k
system_account system_allocate (allocate_data k) = some k
system_account system_create_account (create_account_data _ k) = some k
system_account system_initialize_nonce_account (initialize_nonce_data _ k) = some k
system_account system_advance_nonce_account (advance_nonce_data _ k) = some k
system_account system_authorize_nonce_account (authorize_nonce_data _ k) = some k
system_account system_withdraw_nonce_account (withdraw_nonce_data _ k _) = some k
system_account _ _ = none

abbrev pub spl_account : ParsedSplType → ParsedSplData → Option (Pubkey × Bool)
spl_account spl_transfer (ParsedSplData.transfer_data t) = some (t.owner, t.is_2022)
spl_account spl_approve (approve_data k is_2022) = some (k, is_2022)
spl_account spl_burn (burn_data k is_2022) = some (k, is_2022)
spl_account spl_close_account (close_account_data k is_2022) = some (k, is_2022)
spl_account spl_revoke (revoke_data k is_2022) = some (k, is_2022)
spl_account spl_set_authority (set_authority_data k is_2022) = some (k, is_2022)
spl_account spl_mint_to (mint_to_data k is_2022) = some (k, is_2022)
spl_account spl_initialize_mint (initialize_mint_data k is_2022) = some (k, is_2022)
spl_account spl_initialize_account (initialize_account_data k is_2022) = some (k, is_2022)
spl_account spl_freeze_account (freeze_account_data k is_2022) = some (k, is_2022)
spl_account spl_thaw_account (thaw_account_data k is_2022) = some (k, is_2022)
spl_account _ _ = none

abbrev pub spl_signers : ParsedSplData → Option (List Pubkey × Bool)
spl_signers (initialize_multisig_data signers is_2022) = some (signers, is_2022)
spl_signers _ = none

-- `*$account == self.fee_payer_pubkey && !$policy`
abbrev pub system_refused : Pubkey → Option Pubkey → Bool → Bool
system_refused fee_payer none allowed = false
system_refused fee_payer (some k) allowed = k == fee_payer && not allowed

abbrev pub spl_refused : Pubkey → Option (Pubkey × Bool) → Bool → Bool → Bool
spl_refused fee_payer none spl_allowed token_2022_allowed = false
spl_refused fee_payer (some (k, is_2022)) spl_allowed token_2022_allowed =
    k == fee_payer && not (if is_2022 then token_2022_allowed else spl_allowed)

abbrev pub multisig_refused : Pubkey → Option (List Pubkey × Bool) → Bool → Bool → Bool
multisig_refused fee_payer none spl_allowed token_2022_allowed = false
multisig_refused fee_payer (some (signers, is_2022)) spl_allowed token_2022_allowed =
    contains signers fee_payer && not (if is_2022 then token_2022_allowed else spl_allowed)

-- The loop of the three macros: the first refused value ends it.
unfoldable pub refuse_any : {D : Type 0} → (D → Bool) → List D → Result (Unit {0})
refuse_any refused [] = ok tt
refuse_any refused (d ∷ ds) =
    let rest = refuse_any refused ds in if refused d then err invalid_transaction else rest

module _ (fee_payer : Pubkey) where
  -- `validate_system!`
  unfoldable pub validate_system : SystemTable → ParsedSystemType → Bool → Result (Unit {0})
  unfolding refuse_any
  validate_system t kind allowed =
      refuse_any (λ d. system_refused fee_payer (system_account kind d) allowed)
        (get_or_empty kind t)

  -- `validate_spl!`
  unfoldable pub validate_spl : SplTable → ParsedSplType → Bool → Bool → Result (Unit {0})
  unfolding refuse_any
  validate_spl t kind spl_allowed token_2022_allowed =
      refuse_any (λ d. spl_refused fee_payer (spl_account kind d) spl_allowed token_2022_allowed)
        (get_or_empty kind t)

  -- `validate_spl_multisig!`
  unfoldable pub validate_spl_multisig : SplTable → ParsedSplType → Bool → Bool → Result (Unit {0})
  unfolding refuse_any
  validate_spl_multisig t kind spl_allowed token_2022_allowed =
      refuse_any (λ d. multisig_refused fee_payer (spl_signers d) spl_allowed token_2022_allowed)
        (get_or_empty kind t)

  -- The checks on the System program's instructions.
  unfoldable pub validate_system_usage : FeePayerPolicy → Bool → SystemTable → Result (Unit {0})
  validate_system_usage policy allow_durable_transactions t = do
    fail_if (not allow_durable_transactions && contains_key system_advance_nonce_account t)
        invalid_transaction
    validate_system t system_transfer policy.system.allow_transfer
    validate_system t system_assign policy.system.allow_assign
    validate_system t system_allocate policy.system.allow_allocate
    validate_system t system_create_account policy.system.allow_create_account
    validate_system t system_initialize_nonce_account policy.system.nonce.allow_initialize
    validate_system t system_advance_nonce_account policy.system.nonce.allow_advance
    validate_system t system_authorize_nonce_account policy.system.nonce.allow_authorize
    validate_system t system_withdraw_nonce_account policy.system.nonce.allow_withdraw

  -- The checks on the instructions of the token programs.
  unfoldable pub validate_spl_usage : FeePayerPolicy → SplTable → Result (Unit {0})
  validate_spl_usage policy t = do
    validate_spl t spl_transfer policy.spl_token.allow_transfer policy.token_2022.allow_transfer
    validate_spl t spl_approve policy.spl_token.allow_approve policy.token_2022.allow_approve
    validate_spl t spl_burn policy.spl_token.allow_burn policy.token_2022.allow_burn
    validate_spl t spl_close_account policy.spl_token.allow_close_account
        policy.token_2022.allow_close_account
    validate_spl t spl_revoke policy.spl_token.allow_revoke policy.token_2022.allow_revoke
    validate_spl t spl_set_authority policy.spl_token.allow_set_authority
        policy.token_2022.allow_set_authority
    validate_spl t spl_mint_to policy.spl_token.allow_mint_to policy.token_2022.allow_mint_to
    validate_spl t spl_initialize_mint policy.spl_token.allow_initialize_mint
        policy.token_2022.allow_initialize_mint
    validate_spl t spl_initialize_account policy.spl_token.allow_initialize_account
        policy.token_2022.allow_initialize_account
    validate_spl_multisig t spl_initialize_multisig policy.spl_token.allow_initialize_multisig
        policy.token_2022.allow_initialize_multisig
    validate_spl t spl_freeze_account policy.spl_token.allow_freeze_account
        policy.token_2022.allow_freeze_account
    validate_spl t spl_thaw_account policy.spl_token.allow_thaw_account
        policy.token_2022.allow_thaw_account

  -- The tables are parsed on first use and kept; parsing them here gives the same ones.
  unfoldable pub validate_fee_payer_usage :
      Programs → FeePayerPolicy → Bool → List Instruction → Result (Unit {0})
  unfolding validate_system_usage validate_spl_usage
  validate_fee_payer_usage p policy allow_durable_transactions ixs = do
    system_instructions ← parse_system_instructions p ixs
    validate_system_usage policy allow_durable_transactions system_instructions
    spl_instructions ← parse_token_instructions p ixs
    validate_spl_usage policy spl_instructions

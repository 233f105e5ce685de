-- ===== src/Setup/Policy.antt =====
-- `validate_fee_payer_policy` of kora/crates/lib/src/validator/config_validator.rs.
use solus_protocol.Base.{Bool, List, [], ◌∷◌, ◌++◌, if◌then◌else◌}
use solus_protocol.Config.{
  NonceInstructionPolicy, SystemInstructionPolicy, TokenInstructionPolicy, FeePayerPolicy,
}

pub data PolicyCategory : Type 0 where
  system spl_token token_2022 nonce : PolicyCategory

pub data PolicyField : Type 0 where
  allow_transfer allow_assign allow_create_account allow_allocate : PolicyField
  allow_burn allow_close_account allow_approve allow_revoke : PolicyField
  allow_set_authority allow_mint_to allow_initialize_mint : PolicyField
  allow_initialize_account allow_initialize_multisig : PolicyField
  allow_freeze_account allow_thaw_account : PolicyField
  allow_initialize allow_advance allow_withdraw allow_authorize : PolicyField

-- A flag of the policy, which a warning names.
abbrev pub Flag : Type 0
Flag = PolicyCategory × PolicyField

-- The lines of the macros: each flag with its value.
unfoldable pub system_lines : SystemInstructionPolicy → List (Flag × Bool)
system_lines p =
    ((system, allow_transfer), p.allow_transfer)
    ∷ ((system, allow_assign), p.allow_assign)
    ∷ ((system, allow_create_account), p.allow_create_account)
    ∷ ((system, allow_allocate), p.allow_allocate)
    ∷ []

unfoldable pub token_lines : PolicyCategory → TokenInstructionPolicy → List (Flag × Bool)
token_lines c p =
    ((c, allow_transfer), p.allow_transfer)
    ∷ ((c, allow_burn), p.allow_burn)
    ∷ ((c, allow_close_account), p.allow_close_account)
    ∷ ((c, allow_approve), p.allow_approve)
    ∷ ((c, allow_revoke), p.allow_revoke)
    ∷ ((c, allow_set_authority), p.allow_set_authority)
    ∷ ((c, allow_mint_to), p.allow_mint_to)
    ∷ ((c, allow_initialize_mint), p.allow_initialize_mint)
    ∷ ((c, allow_initialize_account), p.allow_initialize_account)
    ∷ ((c, allow_initialize_multisig), p.allow_initialize_multisig)
    ∷ ((c, allow_freeze_account), p.allow_freeze_account)
    ∷ ((c, allow_thaw_account), p.allow_thaw_account)
    ∷ []

unfoldable pub nonce_lines : NonceInstructionPolicy → List (Flag × Bool)
nonce_lines p =
    ((nonce, allow_initialize), p.allow_initialize)
    ∷ ((nonce, allow_advance), p.allow_advance)
    ∷ ((nonce, allow_withdraw), p.allow_withdraw)
    ∷ ((nonce, allow_authorize), p.allow_authorize)
    ∷ []

-- `if policy.$category.$field { warnings.push(..) }`, line by line.
unfoldable pub enabled_flags : List (Flag × Bool) → List Flag
enabled_flags [] = []
enabled_flags ((flag, value) ∷ lines) =
    let rest = enabled_flags lines in if value then flag ∷ rest else rest

unfoldable pub validate_fee_payer_policy : FeePayerPolicy → List Flag
unfolding system_lines token_lines nonce_lines enabled_flags
validate_fee_payer_policy p = enabled_flags (
    system_lines p.system
    ++ (token_lines spl_token p.spl_token
        ++ (token_lines token_2022 p.token_2022 ++ nonce_lines p.system.nonce)))

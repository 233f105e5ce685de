-- ===== src/Parse/Types.antt =====
-- `ParsedSystemInstructionType`, `ParsedSystemInstructionData`, `ParsedSPLInstructionType` and
-- `ParsedSPLInstructionData` of kora/crates/lib/src/transaction/instruction_util.rs.
use solus_protocol.Base.{
  ℕ, Bool, true, Option, List, ◌≡◌, refl, sym, ap, ◌∙◌, ◌↔◌, eqb, eqb_iff, Eq, if◌then◌else◌,
}
use solus_protocol.Instruction.{Pubkey}

pub data ParsedSystemType : Type 0 where
  system_transfer system_create_account system_withdraw_nonce_account : ParsedSystemType
  system_assign system_allocate system_initialize_nonce_account : ParsedSystemType
  system_advance_nonce_account system_authorize_nonce_account : ParsedSystemType

pub data ParsedSystemData : Type 0 where
  -- lamports, sender, receiver
  transfer_data : ℕ → Pubkey → Pubkey → ParsedSystemData
  -- lamports, payer
  create_account_data : ℕ → Pubkey → ParsedSystemData
  -- lamports, nonce authority, recipient
  withdraw_nonce_data : ℕ → Pubkey → Pubkey → ParsedSystemData
  -- authority
  assign_data : Pubkey → ParsedSystemData
  -- account
  allocate_data : Pubkey → ParsedSystemData
  -- nonce account, nonce authority
  initialize_nonce_data advance_nonce_data authorize_nonce_data : Pubkey → Pubkey → ParsedSystemData

pub data ParsedSplType : Type 0 where
  spl_transfer spl_burn spl_close_account spl_approve spl_revoke spl_set_authority : ParsedSplType
  spl_mint_to spl_initialize_mint spl_initialize_account spl_initialize_multisig : ParsedSplType
  spl_freeze_account spl_thaw_account : ParsedSplType

pub record SplTransfer : Type 0 where
  pub amount : ℕ
  pub owner : Pubkey
  pub mint : Option Pubkey
  pub source_address : Pubkey
  pub destination_address : Pubkey
  pub is_2022 : Bool

-- Each variant's last argument is its `is_2022`; the first is the authority that it names.
pub data ParsedSplData : Type 0 where
  transfer_data : SplTransfer → ParsedSplData
  burn_data close_account_data approve_data revoke_data : Pubkey → Bool → ParsedSplData
  set_authority_data mint_to_data initialize_mint_data : Pubkey → Bool → ParsedSplData
  initialize_account_data freeze_account_data thaw_account_data : Pubkey → Bool → ParsedSplData
  initialize_multisig_data : List Pubkey → Bool → ParsedSplData

-- The discriminants, by which the derived `PartialEq` of the two enums of keys compares.
abbrev pub system_tag : ParsedSystemType → ℕ
system_tag system_transfer = 0
system_tag system_create_account = 1
system_tag system_withdraw_nonce_account = 2
system_tag system_assign = 3
system_tag system_allocate = 4
system_tag system_initialize_nonce_account = 5
system_tag system_advance_nonce_account = 6
system_tag system_authorize_nonce_account = 7

abbrev pub spl_tag : ParsedSplType → ℕ
spl_tag spl_transfer = 0
spl_tag spl_burn = 1
spl_tag spl_close_account = 2
spl_tag spl_approve = 3
spl_tag spl_revoke = 4
spl_tag spl_set_authority = 5
spl_tag spl_mint_to = 6
spl_tag spl_initialize_mint = 7
spl_tag spl_initialize_account = 8
spl_tag spl_initialize_multisig = 9
spl_tag spl_freeze_account = 10
spl_tag spl_thaw_account = 11

abbrev of_system_tag : ℕ → ParsedSystemType
of_system_tag n =
    if eqb n 0
    then system_transfer
    else if eqb n 1
    then system_create_account
    else if eqb n 2
    then system_withdraw_nonce_account
    else if eqb n 3
    then system_assign
    else if eqb n 4
    then system_allocate
    else if eqb n 5
    then system_initialize_nonce_account
    else if eqb n 6
    then system_advance_nonce_account
    else system_authorize_nonce_account

abbrev of_spl_tag : ℕ → ParsedSplType
of_spl_tag n =
    if eqb n 0
    then spl_transfer
    else if eqb n 1
    then spl_burn
    else if eqb n 2
    then spl_close_account
    else if eqb n 3
    then spl_approve
    else if eqb n 4
    then spl_revoke
    else if eqb n 5
    then spl_set_authority
    else if eqb n 6
    then spl_mint_to
    else if eqb n 7
    then spl_initialize_mint
    else if eqb n 8
    then spl_initialize_account
    else if eqb n 9
    then spl_initialize_multisig
    else if eqb n 10
    then spl_freeze_account
    else spl_thaw_account

of_system_tag-system_tag : (t : ParsedSystemType) → of_system_tag (system_tag t) ≡ t
of_system_tag-system_tag system_transfer = refl
of_system_tag-system_tag _ = refl

of_spl_tag-spl_tag : (t : ParsedSplType) → of_spl_tag (spl_tag t) ≡ t
of_spl_tag-spl_tag spl_transfer = refl
of_spl_tag-spl_tag _ = refl

pub system_tag_iff : (s t : ParsedSystemType) → (eqb (system_tag s) (system_tag t) ≡ true) ↔ (s ≡ t)
system_tag_iff s t = (
  λ h.
      sym (of_system_tag-system_tag s)
      ∙ ap of_system_tag ((eqb_iff _ _).0 h)
      ∙ of_system_tag-system_tag t,
  λ h. (eqb_iff _ _).1 (ap system_tag h),
)

pub spl_tag_iff : (s t : ParsedSplType) → (eqb (spl_tag s) (spl_tag t) ≡ true) ↔ (s ≡ t)
spl_tag_iff s t = (
  λ h. sym (of_spl_tag-spl_tag s) ∙ ap of_spl_tag ((eqb_iff _ _).0 h) ∙ of_spl_tag-spl_tag t,
  λ h. (eqb_iff _ _).1 (ap spl_tag h),
)

instance abbrev pub system_type_eq : Eq ParsedSystemType
system_type_eq = record {
  equal = λ s t. eqb (system_tag s) (system_tag t);
  equal_iff = system_tag_iff;
}

instance abbrev pub spl_type_eq : Eq ParsedSplType
spl_type_eq = record { equal = λ s t. eqb (spl_tag s) (spl_tag t); equal_iff = spl_tag_iff }

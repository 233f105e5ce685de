-- ===== src/Reconstruct/RoundTrip/TokenForm.antt =====
-- The JSON forms in which a simulation reports token instructions: what they tell, the bytes and
-- accounts that are rebuilt from them, and what the parser files for these.
use solus_protocol.Base.{ℕ, ◌%◌, String, Bool, ◌≡◌, Option, some, none, List, [], ◌∷◌}
use solus_protocol.Error.{Result, ok, err, invalid_transaction}
use solus_protocol.Instruction.{Pubkey, TokenInstruction}
use solus_protocol.Json
use solus_protocol.Json.{Json, get_field_as_u64, get_field_as_pubkey}
use solus_protocol.Parse.{
  SplEntry, ParsedSplData, spl_transfer, spl_burn, spl_close_account, spl_approve, spl_revoke,
  spl_mint_to, spl_freeze_account, spl_thaw_account, burn_data, close_account_data, approve_data,
  revoke_data, mint_to_data, freeze_account_data, thaw_account_data,
}
use solus_protocol.Reconstruct.Token.{or_zero}

-- What the form of a token instruction tells, in the order of the source's reads.
pub data TokenUi : Type 0 where
  token_transfer : Pubkey → Pubkey → Pubkey → ℕ → TokenUi
  token_transfer_checked : Pubkey → Pubkey → Pubkey → Pubkey → ℕ → ℕ → TokenUi
  burn : Pubkey → Pubkey → ℕ → TokenUi
  burn_checked : Pubkey → Pubkey → ℕ → ℕ → Pubkey → TokenUi
  close_account : Pubkey → Pubkey → Pubkey → TokenUi
  approve : Pubkey → Pubkey → Pubkey → ℕ → TokenUi
  approve_checked : Pubkey → Pubkey → Pubkey → Pubkey → ℕ → ℕ → TokenUi
  revoke : Pubkey → Pubkey → TokenUi
  set_authority : Pubkey → Pubkey → TokenUi
  mint_to : Pubkey → Pubkey → Pubkey → ℕ → TokenUi
  mint_to_checked : Pubkey → Pubkey → Pubkey → ℕ → ℕ → TokenUi
  initialize_mint : Pubkey → Pubkey → TokenUi
  initialize_mint2 : Pubkey → Pubkey → TokenUi
  initialize_account : Pubkey → Pubkey → Pubkey → TokenUi
  initialize_account2 : Pubkey → Pubkey → Pubkey → TokenUi
  initialize_account3 : Pubkey → Pubkey → Pubkey → TokenUi
  initialize_multisig : Pubkey → TokenUi
  initialize_multisig2 : Pubkey → TokenUi
  freeze_account : Pubkey → Pubkey → Pubkey → TokenUi
  thaw_account : Pubkey → Pubkey → Pubkey → TokenUi

abbrev pub type_of : TokenUi → String
type_of (TokenUi.token_transfer _ _ _ _) = "transfer"
type_of (TokenUi.token_transfer_checked _ _ _ _ _ _) = "transferChecked"
type_of (TokenUi.burn _ _ _) = "burn"
type_of (TokenUi.burn_checked _ _ _ _ _) = "burnChecked"
type_of (TokenUi.close_account _ _ _) = "closeAccount"
type_of (TokenUi.approve _ _ _ _) = "approve"
type_of (TokenUi.approve_checked _ _ _ _ _ _) = "approveChecked"
type_of (TokenUi.revoke _ _) = "revoke"
type_of (TokenUi.set_authority _ _) = "setAuthority"
type_of (TokenUi.mint_to _ _ _ _) = "mintTo"
type_of (TokenUi.mint_to_checked _ _ _ _ _) = "mintToChecked"
type_of (TokenUi.initialize_mint _ _) = "initializeMint"
type_of (TokenUi.initialize_mint2 _ _) = "initializeMint2"
type_of (TokenUi.initialize_account _ _ _) = "initializeAccount"
type_of (TokenUi.initialize_account2 _ _ _) = "initializeAccount2"
type_of (TokenUi.initialize_account3 _ _ _) = "initializeAccount3"
type_of (TokenUi.initialize_multisig _) = "initializeMultisig"
type_of (TokenUi.initialize_multisig2 _) = "initializeMultisig2"
type_of (TokenUi.freeze_account _ _ _) = "freezeAccount"
type_of (TokenUi.thaw_account _ _ _) = "thawAccount"

-- The accounts that the rebuilt instruction has.
abbrev pub accounts_of : TokenUi → List Pubkey
accounts_of (TokenUi.token_transfer source destination authority _) =
    source ∷ destination ∷ authority ∷ []
accounts_of (TokenUi.token_transfer_checked source destination authority mint _ _) =
    source ∷ mint ∷ destination ∷ authority ∷ []
accounts_of (TokenUi.burn account authority _) = account ∷ authority ∷ []
accounts_of (TokenUi.burn_checked account authority _ _ mint) = account ∷ mint ∷ authority ∷ []
accounts_of (TokenUi.close_account account destination authority) =
    account ∷ destination ∷ authority ∷ []
accounts_of (TokenUi.approve source delegate owner _) = source ∷ delegate ∷ owner ∷ []
accounts_of (TokenUi.approve_checked source delegate owner mint _ _) =
    source ∷ mint ∷ delegate ∷ owner ∷ []
accounts_of (TokenUi.revoke source owner) = source ∷ owner ∷ []
accounts_of (TokenUi.set_authority account current_authority) = account ∷ current_authority ∷ []
accounts_of (TokenUi.mint_to mint account mint_authority _) = mint ∷ account ∷ mint_authority ∷ []
accounts_of (TokenUi.mint_to_checked mint account mint_authority _ _) =
    mint ∷ account ∷ mint_authority ∷ []
accounts_of (TokenUi.initialize_mint mint _) = mint ∷ []
accounts_of (TokenUi.initialize_mint2 mint _) = mint ∷ []
accounts_of (TokenUi.initialize_account account mint owner) = account ∷ mint ∷ owner ∷ []
accounts_of (TokenUi.initialize_account2 account mint _) = account ∷ mint ∷ []
accounts_of (TokenUi.initialize_account3 account mint _) = account ∷ mint ∷ []
accounts_of (TokenUi.initialize_multisig multisig) = multisig ∷ []
accounts_of (TokenUi.initialize_multisig2 multisig) = multisig ∷ []
accounts_of (TokenUi.freeze_account account mint freeze_authority) =
    account ∷ mint ∷ freeze_authority ∷ []
accounts_of (TokenUi.thaw_account account mint freeze_authority) =
    account ∷ mint ∷ freeze_authority ∷ []

-- The bytes that are rebuilt: an encoded instruction, or a tag alone.
pub data Payload : Type 0 where
  packed : TokenInstruction → Payload
  tag : ℕ → Payload

abbrev pub payload_of : TokenUi → Payload
payload_of (TokenUi.token_transfer _ _ _ amount) = packed (TokenInstruction.transfer amount)
payload_of (TokenUi.token_transfer_checked _ _ _ _ amount decimals) =
    packed (TokenInstruction.transfer_checked amount (decimals % 256))
payload_of (TokenUi.burn _ _ amount) = packed (TokenInstruction.burn amount)
payload_of (TokenUi.burn_checked _ _ amount decimals _) =
    packed (TokenInstruction.burn_checked amount (decimals % 256))
payload_of (TokenUi.close_account _ _ _) = packed TokenInstruction.close_account
payload_of (TokenUi.approve _ _ _ amount) = packed (TokenInstruction.approve amount)
payload_of (TokenUi.approve_checked _ _ _ _ amount decimals) =
    packed (TokenInstruction.approve_checked amount (decimals % 256))
payload_of (TokenUi.revoke _ _) = packed (TokenInstruction.revoke)
payload_of (TokenUi.set_authority _ _) = tag 6
payload_of (TokenUi.mint_to _ _ _ amount) = packed (TokenInstruction.mint_to amount)
payload_of (TokenUi.mint_to_checked _ _ _ amount decimals) =
    packed (TokenInstruction.mint_to_checked amount (decimals % 256))
payload_of (TokenUi.initialize_mint _ _) = tag 0
payload_of (TokenUi.initialize_mint2 _ _) = tag 20
payload_of (TokenUi.initialize_account _ _ _) = tag 1
payload_of (TokenUi.initialize_account2 _ _ _) = tag 16
payload_of (TokenUi.initialize_account3 _ _ _) = tag 18
payload_of (TokenUi.initialize_multisig _) = tag 2
payload_of (TokenUi.initialize_multisig2 _) = tag 19
payload_of (TokenUi.freeze_account _ _ _) = packed (TokenInstruction.freeze_account)
payload_of (TokenUi.thaw_account _ _ _) = packed (TokenInstruction.thaw_account)

-- What these bytes decode to: a tag alone is an instruction only for `InitializeAccount`, which has no
-- operands.
abbrev pub read_back : TokenUi → Option TokenInstruction
read_back (TokenUi.token_transfer _ _ _ amount) = some (TokenInstruction.transfer amount)
read_back (TokenUi.token_transfer_checked _ _ _ _ amount decimals) =
    some (TokenInstruction.transfer_checked amount (decimals % 256))
read_back (TokenUi.burn _ _ amount) = some (TokenInstruction.burn amount)
read_back (TokenUi.burn_checked _ _ amount decimals _) =
    some (TokenInstruction.burn_checked amount (decimals % 256))
read_back (TokenUi.close_account _ _ _) = some (TokenInstruction.close_account)
read_back (TokenUi.approve _ _ _ amount) = some (TokenInstruction.approve amount)
read_back (TokenUi.approve_checked _ _ _ _ amount decimals) =
    some (TokenInstruction.approve_checked amount (decimals % 256))
read_back (TokenUi.revoke _ _) = some (TokenInstruction.revoke)
read_back (TokenUi.set_authority _ _) = none
read_back (TokenUi.mint_to _ _ _ amount) = some (TokenInstruction.mint_to amount)
read_back (TokenUi.mint_to_checked _ _ _ amount decimals) =
    some (TokenInstruction.mint_to_checked amount (decimals % 256))
read_back (TokenUi.initialize_mint _ _) = none
read_back (TokenUi.initialize_mint2 _ _) = none
read_back (TokenUi.initialize_account _ _ _) = some TokenInstruction.initialize_account
read_back (TokenUi.initialize_account2 _ _ _) = none
read_back (TokenUi.initialize_account3 _ _ _) = none
read_back (TokenUi.initialize_multisig _) = none
read_back (TokenUi.initialize_multisig2 _) = none
read_back (TokenUi.freeze_account _ _ _) = some (TokenInstruction.freeze_account)
read_back (TokenUi.thaw_account _ _ _) = some (TokenInstruction.thaw_account)

-- What the parser files for it.
abbrev pub filed : Bool → TokenUi → Result (Option SplEntry)
filed is_2022 (TokenUi.token_transfer source destination authority amount) = ok (
    some (
      spl_transfer,
      ParsedSplData.transfer_data (record {
        amount = amount;
        owner = authority;
        mint = none;
        source_address = source;
        destination_address = destination;
        is_2022 = is_2022;
      }),
    ))
filed is_2022 (TokenUi.token_transfer_checked source destination authority mint amount _) = ok (
    some (
      spl_transfer,
      ParsedSplData.transfer_data (record {
        amount = amount;
        owner = authority;
        mint = some mint;
        source_address = source;
        destination_address = destination;
        is_2022 = is_2022;
      }),
    ))
filed _ (TokenUi.burn _ _ _) = err invalid_transaction
filed is_2022 (TokenUi.burn_checked _ authority _ _ _) =
    ok (some (spl_burn, burn_data authority is_2022))
filed is_2022 (TokenUi.close_account _ _ authority) =
    ok (some (spl_close_account, close_account_data authority is_2022))
filed is_2022 (TokenUi.approve _ _ owner _) = ok (some (spl_approve, approve_data owner is_2022))
filed is_2022 (TokenUi.approve_checked _ _ owner _ _ _) =
    ok (some (spl_approve, approve_data owner is_2022))
filed is_2022 (TokenUi.revoke _ owner) = ok (some (spl_revoke, revoke_data owner is_2022))
filed _ (TokenUi.set_authority _ _) = ok none
filed is_2022 (TokenUi.mint_to _ _ mint_authority _) =
    ok (some (spl_mint_to, mint_to_data mint_authority is_2022))
filed is_2022 (TokenUi.mint_to_checked _ _ mint_authority _ _) =
    ok (some (spl_mint_to, mint_to_data mint_authority is_2022))
filed _ (TokenUi.initialize_mint _ _) = ok none
filed _ (TokenUi.initialize_mint2 _ _) = ok none
filed _ (TokenUi.initialize_account _ _ _) = err invalid_transaction
filed _ (TokenUi.initialize_account2 _ _ _) = ok none
filed _ (TokenUi.initialize_account3 _ _ _) = ok none
filed _ (TokenUi.initialize_multisig _) = ok none
filed _ (TokenUi.initialize_multisig2 _) = ok none
filed is_2022 (TokenUi.freeze_account _ _ freeze_authority) =
    ok (some (spl_freeze_account, freeze_account_data freeze_authority is_2022))
filed is_2022 (TokenUi.thaw_account _ _ freeze_authority) =
    ok (some (spl_thaw_account, thaw_account_data freeze_authority is_2022))

-- The members of the form, read by the getters.
abbrev pub Says : (String → Option Pubkey) → Json → TokenUi → Type 0
Says from_str info (TokenUi.token_transfer source destination authority amount) =
    (get_field_as_pubkey from_str info "source" ≡ ok source)
    × (get_field_as_pubkey from_str info "destination" ≡ ok destination)
    × (get_field_as_pubkey from_str info "authority" ≡ ok authority)
    × (get_field_as_u64 info "amount" ≡ ok amount)
Says from_str info
      (TokenUi.token_transfer_checked source destination authority mint amount decimals) =
    (get_field_as_pubkey from_str info "source" ≡ ok source)
    × (get_field_as_pubkey from_str info "destination" ≡ ok destination)
    × (get_field_as_pubkey from_str info "authority" ≡ ok authority)
    × (get_field_as_pubkey from_str info "mint" ≡ ok mint)
    × (token_amount : Json) × (Json.get "tokenAmount" info ≡ some token_amount)
    × (get_field_as_u64 token_amount "amount" ≡ ok amount)
    × (get_field_as_u64 token_amount "decimals" ≡ ok decimals)
Says from_str info (TokenUi.burn account authority amount) =
    (get_field_as_pubkey from_str info "account" ≡ ok account)
    × (get_field_as_pubkey from_str info "authority" ≡ ok authority)
    × (or_zero (get_field_as_u64 info "amount") ≡ ok amount)
Says from_str info (TokenUi.burn_checked account authority amount decimals mint) =
    (get_field_as_pubkey from_str info "account" ≡ ok account)
    × (get_field_as_pubkey from_str info "authority" ≡ ok authority)
    × (token_amount : Json) × (Json.get "tokenAmount" info ≡ some token_amount)
    × (get_field_as_u64 token_amount "amount" ≡ ok amount)
    × (get_field_as_u64 token_amount "decimals" ≡ ok decimals)
    × (get_field_as_pubkey from_str info "mint" ≡ ok mint)
Says from_str info (TokenUi.close_account account destination authority) =
    (get_field_as_pubkey from_str info "account" ≡ ok account)
    × (get_field_as_pubkey from_str info "destination" ≡ ok destination)
    × (get_field_as_pubkey from_str info "owner" ≡ ok authority)
Says from_str info (TokenUi.approve source delegate owner amount) =
    (get_field_as_pubkey from_str info "source" ≡ ok source)
    × (get_field_as_pubkey from_str info "delegate" ≡ ok delegate)
    × (get_field_as_pubkey from_str info "owner" ≡ ok owner)
    × (get_field_as_u64 info "amount" ≡ ok amount)
Says from_str info (TokenUi.approve_checked source delegate owner mint amount decimals) =
    (get_field_as_pubkey from_str info "source" ≡ ok source)
    × (get_field_as_pubkey from_str info "delegate" ≡ ok delegate)
    × (get_field_as_pubkey from_str info "owner" ≡ ok owner)
    × (get_field_as_pubkey from_str info "mint" ≡ ok mint)
    × (token_amount : Json) × (Json.get "tokenAmount" info ≡ some token_amount)
    × (get_field_as_u64 token_amount "amount" ≡ ok amount)
    × (get_field_as_u64 token_amount "decimals" ≡ ok decimals)
Says from_str info (TokenUi.revoke source owner) =
    (get_field_as_pubkey from_str info "source" ≡ ok source)
    × (get_field_as_pubkey from_str info "owner" ≡ ok owner)
Says from_str info (TokenUi.set_authority account current_authority) =
    (get_field_as_pubkey from_str info "account" ≡ ok account)
    × (get_field_as_pubkey from_str info "authority" ≡ ok current_authority)
Says from_str info (TokenUi.mint_to mint account mint_authority amount) =
    (get_field_as_pubkey from_str info "mint" ≡ ok mint)
    × (get_field_as_pubkey from_str info "account" ≡ ok account)
    × (get_field_as_pubkey from_str info "mintAuthority" ≡ ok mint_authority)
    × (get_field_as_u64 info "amount" ≡ ok amount)
Says from_str info (TokenUi.mint_to_checked mint account mint_authority amount decimals) =
    (get_field_as_pubkey from_str info "mint" ≡ ok mint)
    × (get_field_as_pubkey from_str info "account" ≡ ok account)
    × (get_field_as_pubkey from_str info "mintAuthority" ≡ ok mint_authority)
    × (token_amount : Json) × (Json.get "tokenAmount" info ≡ some token_amount)
    × (get_field_as_u64 token_amount "amount" ≡ ok amount)
    × (get_field_as_u64 token_amount "decimals" ≡ ok decimals)
Says from_str info (TokenUi.initialize_mint mint mint_authority) =
    (get_field_as_pubkey from_str info "mint" ≡ ok mint)
    × (get_field_as_pubkey from_str info "mintAuthority" ≡ ok mint_authority)
Says from_str info (TokenUi.initialize_mint2 mint mint_authority) =
    (get_field_as_pubkey from_str info "mint" ≡ ok mint)
    × (get_field_as_pubkey from_str info "mintAuthority" ≡ ok mint_authority)
Says from_str info (TokenUi.initialize_account account mint owner) =
    (get_field_as_pubkey from_str info "account" ≡ ok account)
    × (get_field_as_pubkey from_str info "mint" ≡ ok mint)
    × (get_field_as_pubkey from_str info "owner" ≡ ok owner)
Says from_str info (TokenUi.initialize_account2 account mint owner) =
    (get_field_as_pubkey from_str info "account" ≡ ok account)
    × (get_field_as_pubkey from_str info "mint" ≡ ok mint)
    × (get_field_as_pubkey from_str info "owner" ≡ ok owner)
Says from_str info (TokenUi.initialize_account3 account mint owner) =
    (get_field_as_pubkey from_str info "account" ≡ ok account)
    × (get_field_as_pubkey from_str info "mint" ≡ ok mint)
    × (get_field_as_pubkey from_str info "owner" ≡ ok owner)
Says from_str info (TokenUi.initialize_multisig multisig) =
    (get_field_as_pubkey from_str info "multisig" ≡ ok multisig)
    × (signers : Json) × (Json.get "signers" info ≡ some signers)
Says from_str info (TokenUi.initialize_multisig2 multisig) =
    (get_field_as_pubkey from_str info "multisig" ≡ ok multisig)
    × (signers : Json) × (Json.get "signers" info ≡ some signers)
Says from_str info (TokenUi.freeze_account account mint freeze_authority) =
    (get_field_as_pubkey from_str info "account" ≡ ok account)
    × (get_field_as_pubkey from_str info "mint" ≡ ok mint)
    × (get_field_as_pubkey from_str info "freezeAuthority" ≡ ok freeze_authority)
Says from_str info (TokenUi.thaw_account account mint freeze_authority) =
    (get_field_as_pubkey from_str info "account" ≡ ok account)
    × (get_field_as_pubkey from_str info "mint" ≡ ok mint)
    × (get_field_as_pubkey from_str info "freezeAuthority" ≡ ok freeze_authority)

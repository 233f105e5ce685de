-- ===== src/Tests/World.antt =====
-- A small chain: four programs, two mints, a few token accounts, a price feed that answers 2 lamports
-- for every base unit, decimals that are natural numbers, and a request that pays for itself.
use solus_protocol.Base.{
  ℕ, String, Bool, true, false, Option, none, some, List, [], ◌∷◌, ◌+◌, ◌*◌, ◌/◌, arith, ltb, eqb,
  ◌==◌, string_eq, if◌then◌else◌,
}
use solus_protocol.Error.{Result, ok, err, account_not_found}
use solus_protocol.Instruction.{
  Pubkey, Bytes, AccountMeta, Instruction, SystemInstruction, TokenInstruction, Programs,
}
use solus_protocol.Config.{
  TokenInstructionPolicy, FeePayerPolicy, margin, allowlist, jupiter, ValidationConfig,
}
use solus_protocol.External.{Account, TokenAccount, Mint, Decimals, External}
use solus_protocol.Transaction.{VersionedTransaction, Resolved}
use solus_protocol.Signing.{Wallet}

abbrev pub kora : Pubkey
kora = 1

abbrev pub user : Pubkey
user = 2

-- A payload of one number is a transfer, any other is malformed.
abbrev decode_system : Bytes → Option SystemInstruction
decode_system (lamports ∷ []) = some (SystemInstruction.transfer lamports)
decode_system _ = none

abbrev decode_token : Bytes → Option TokenInstruction
decode_token (amount ∷ []) = some (TokenInstruction.transfer_checked amount 9)
decode_token _ = none

abbrev pub programs : Programs
programs = record {
  system_program = 100;
  spl_token = 101;
  spl_token_2022 = 102;
  associated_token = 103;
  deserialize_system = decode_system;
  unpack_spl = decode_token;
  unpack_2022 = decode_token;
  spl-ne-2022 = omega arith;
}

-- Token accounts hold a mint and an owner, mints their decimals.
abbrev pub token_account : ℕ → ℕ → Account
token_account mint owner = record { owner = 101; payload = mint ∷ owner ∷ []; executable = false }

abbrev mint_account : ℕ → Account
mint_account d = record { owner = 101; payload = d ∷ []; executable = false }

abbrev account_of : Pubkey → Bool → Result Account
account_of k refresh =
    if eqb k 10
    then ok (mint_account 9)
    else if eqb k 11
    then ok (mint_account 9)
    else if eqb k 20
    then ok (token_account 10 user)
    else if eqb k 21
    then ok (token_account 10 kora)
    else if eqb k 30
    then ok (token_account 11 user)
    else if eqb k 31
    then ok (token_account 11 kora)
    else err account_not_found

abbrev unpack_account : Bool → Bytes → Option TokenAccount
unpack_account is_2022 (m ∷ o ∷ []) = some (record { mint = m; owner = o; extension_types = [] })
unpack_account is_2022 _ = none

abbrev unpack_mint_bytes : Bool → Bytes → Option Mint
unpack_mint_bytes is_2022 (d ∷ []) =
    some (record { decimals = d; extension_types = []; transfer_fee_config = none })
unpack_mint_bytes is_2022 _ = none

abbrev pub naturals : Decimals ℕ ℕ
naturals = record {
  from_u64 = λ n. some n;
  from_f64 = λ m. some m;
  checked_add = λ a b. some (a + b);
  checked_mul = λ a b. some (a * b);
  checked_div = λ a b. if eqb b 0 then none else some (a / b);
  floor = λ a. a;
  ceil = λ a. a;
  to_u64 = λ a. if ltb 18446744073709551615 a then none else some a;
}

abbrev key_of : String → Option Pubkey
key_of s =
    if s == "system"
    then some 100
    else if s == "token"
    then some 101
    else if s == "mallory"
    then some 66
    else none

abbrev name_of : Pubkey → String
name_of k = if eqb k 10 then "usd" else if eqb k 11 then "eur" else "other"

abbrev pub world : External ℕ ℕ
world = record {
  programs = programs;
  from_str = key_of;
  to_string = name_of;
  get_account = account_of;
  unpack_token_account = unpack_account;
  unpack_mint = unpack_mint_bytes;
  associated_token_address = λ w p m. w + p + m;
  get_epoch = ok 7;
  get_fee_for_message = λ t. some (5000 * t.num_required_signatures);
  get_prices = λ attempt mints. ok (λ mint. some 2);
  decimals = naturals;
}

abbrev token_policy : TokenInstructionPolicy
token_policy = record {
  allow_transfer = false;
  allow_burn = false;
  allow_close_account = false;
  allow_approve = false;
  allow_revoke = false;
  allow_set_authority = false;
  allow_mint_to = false;
  allow_initialize_mint = false;
  allow_initialize_account = false;
  allow_initialize_multisig = false;
  allow_freeze_account = false;
  allow_thaw_account = false;
}

-- The fee payer may transfer lamports, and nothing else.
abbrev pub policy : FeePayerPolicy
policy = record {
  system = record {
    allow_transfer = true;
    allow_assign = false;
    allow_create_account = false;
    allow_allocate = false;
    nonce = record {
      allow_initialize = false;
      allow_advance = false;
      allow_withdraw = false;
      allow_authorize = false;
    };
  };
  spl_token = token_policy;
  token_2022 = token_policy;
}

abbrev pub config : ValidationConfig ℕ
config = record {
  max_allowed_lamports = 100000;
  max_signatures = 4;
  allowed_programs = "system" ∷ "token" ∷ [];
  allowed_tokens = [];
  allowed_spl_paid_tokens = allowlist ("usd" ∷ []);
  disallowed_accounts = "mallory" ∷ [];
  price_source = jupiter;
  fee_payer_policy = policy;
  price = margin 0;
  token_2022 = record {
    blocked_mint_extensions = [];
    blocked_account_extensions = [];
    parsed_blocked_mint_extensions = none;
    parsed_blocked_account_extensions = none;
  };
  allow_durable_transactions = false;
}

abbrev meta : Pubkey → AccountMeta
meta k = record { pubkey = k; is_signer = false; is_writable = true }

abbrev pub lamports_transfer : ℕ → Pubkey → Pubkey → Instruction
lamports_transfer n sender receiver = record {
  program_id = 100;
  accounts = meta sender ∷ meta receiver ∷ [];
  payload = n ∷ [];
}

abbrev pub token_transfer : ℕ → Pubkey → Pubkey → Pubkey → Pubkey → Instruction
token_transfer amount source mint destination owner = record {
  program_id = 101;
  accounts = meta source ∷ meta mint ∷ meta destination ∷ meta owner ∷ [];
  payload = amount ∷ [];
}

-- The fee payer gives the user 40 lamports, and the user pays 6000 units, worth 12000 lamports.
abbrev pub instructions : List Instruction
instructions = lamports_transfer 40 kora user ∷ token_transfer 6000 20 10 21 user ∷ []

abbrev pub request : Resolved
request = record {
  transaction = record {
    signatures = 0 ∷ 5 ∷ [];
    num_required_signatures = 2;
    static_account_keys = kora ∷ user ∷ 20 ∷ 21 ∷ 10 ∷ 100 ∷ 101 ∷ [];
    recent_blockhash = 99;
    instructions = [];
    address_table_lookups = none;
  };
  all_account_keys = kora ∷ user ∷ 20 ∷ 21 ∷ 10 ∷ 100 ∷ 101 ∷ [];
  all_instructions = instructions;
  parsed_system_instructions = none;
  parsed_spl_instructions = none;
}

abbrev pub signed : VersionedTransaction
signed = record (request.transaction) { signatures = 77 ∷ 5 ∷ [] }

abbrev pub wallet : Wallet
wallet = record {
  pubkey = kora;
  sign_message = λ t. some 77;
  get_latest_blockhash = ok 1;
  encode = λ t. some "base64";
  send_and_confirm = λ t. some "signature";
}

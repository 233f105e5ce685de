-- ===== src/AccountType.antt =====
-- The checks of account types (kora/crates/lib/src/validator/account_validator.rs).
pub mod Accepted
use solus_protocol.Base.{
  ℕ, Bool, true, false, not, Option, none, some, ltb, length, ◌==◌, nat_eq, if◌then◌else◌,
}
use solus_protocol.Error.{Result, ok, err, internal_server_error, fail_if, ◌>>=◌, ◌>>◌}
use solus_protocol.Instruction.{Pubkey, Bytes, Programs}
use solus_protocol.External.{Account, External}

pub data AccountType : Type 0 where
  mint token_account system program : AccountType

-- The layouts of the interface crates: `LEN` and `unpack_from_slice` of mints and of token accounts, the
-- latter by whether the program is Token-2022.
pub record Layouts : Type 0 where
  pub mint_len : ℕ
  pub account_len : ℕ
  pub unpacks_mint : Bool → Bytes → Bool
  pub unpacks_account : Bool → Bytes → Bool

module _ (p : Programs) (l : Layouts) where
  -- `executable` is compared in three of the four types, and the owner in the remaining one.
  abbrev pub expect_executable : Bool → Account → Result (Unit {0})
  expect_executable true a = fail_if (not a.executable) internal_server_error
  expect_executable false a = fail_if a.executable internal_server_error

  -- The data of an account of one of the token programs.
  abbrev pub expect_layout : ℕ → Bool → Account → Result (Unit {0})
  expect_layout len unpacks a = do
    fail_if (ltb (length a.payload) len) internal_server_error
    fail_if (not unpacks) internal_server_error
    expect_executable false a

  unfoldable pub validate_account_type : AccountType → Account → Result (Unit {0})
  validate_account_type mint a =
      if a.owner == p.spl_token
      then expect_layout l.mint_len (l.unpacks_mint false a.payload) a
      else if a.owner == p.spl_token_2022
      then expect_layout l.mint_len (l.unpacks_mint true a.payload) a
      else err internal_server_error
  validate_account_type token_account a =
      if a.owner == p.spl_token
      then expect_layout l.account_len (l.unpacks_account false a.payload) a
      else if a.owner == p.spl_token_2022
      then expect_layout l.account_len (l.unpacks_account true a.payload) a
      else err internal_server_error
  validate_account_type system a = fail_if (not (a.owner == p.system_program)) internal_server_error
  validate_account_type program a = expect_executable true a

  abbrev pub expect_type : Option AccountType → Account → Result (Unit {0})
  expect_type none a = ok tt
  expect_type (some expected_type) a = validate_account_type expected_type a

unfoldable pub validate_account :
    {F D : Type 0} → External F D → Layouts → Pubkey → Option AccountType → Result (Unit {0})
validate_account x l account_pubkey expected_account_type = do
  account ← x.get_account account_pubkey false
  expect_type x.programs l expected_account_type account

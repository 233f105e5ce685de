-- ===== src/AccountType/Accepted.antt =====
-- Which accounts have which type (kora/crates/lib/src/validator/account_validator.rs).
use solus_protocol.Base.{
  ℕ, Bool, true, false, ◌≡◌, ◌↔◌, ◌⊎◌, ◌≤◌, length, ◌==◌, nat_eq, arith, if◌then◌else◌,
}
use solus_protocol.Error.{ok, err, internal_server_error}
use solus_protocol.Instruction.{Bytes, Programs}
use solus_protocol.External.{Account}
use solus_protocol.AccountType.{
  AccountType, mint, token_account, system, program, Layouts, expect_layout, validate_account_type,
}

module _ (p : Programs) (l : Layouts) where
  -- An account of a token program with enough data, which unpacks and is not executable.
  abbrev pub HasLayout : ℕ → (Bool → Bytes → Bool) → Account → Type 0
  HasLayout len unpacks a =
      (len ≤ length a.payload)
      × (a.executable ≡ false)
      × (((a.owner ≡ p.spl_token) × (unpacks false a.payload ≡ true))
          ⊎ ((a.owner ≡ p.spl_token_2022) × (unpacks true a.payload ≡ true)))

  abbrev pub HasType : AccountType → Account → Type 0
  HasType mint a = HasLayout l.mint_len l.unpacks_mint a
  HasType token_account a = HasLayout l.account_len l.unpacks_account a
  HasType system a = a.owner ≡ p.system_program
  HasType program a = a.executable ≡ true

  by_owner :
      (len : ℕ) (unpacks : Bool → Bytes → Bool) (a : Account)
      → ((if a.owner == p.spl_token
            then expect_layout p l len (unpacks false a.payload) a
            else if a.owner == p.spl_token_2022
            then expect_layout p l len (unpacks true a.payload) a
            else err internal_server_error)
          ≡ ok tt)
        ↔ HasLayout len unpacks a
  by_owner len unpacks a = ground (arith, p.spl-ne-2022)

  -- An account is accepted as a mint or a token account exactly if one of the token programs owns
  -- it, its data is long enough and unpacks by that program's layout, and it is not executable; as
  -- a System account exactly if the System program owns it, and as a program exactly if it is
  -- executable.
  pub validate_account_type_iff :
      (expected : AccountType) (a : Account)
      → (validate_account_type p l expected a ≡ ok tt) ↔ HasType expected a
  unfolding validate_account_type
  validate_account_type_iff mint a = by_owner l.mint_len l.unpacks_mint a
  validate_account_type_iff token_account a = by_owner l.account_len l.unpacks_account a
  validate_account_type_iff system a = ground arith
  validate_account_type_iff program a = ground arith

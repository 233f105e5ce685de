-- ===== src/Parse/Accounts.antt =====
-- Reading an instruction's accounts, after the macro `validate_number_accounts!` of
-- kora/crates/lib/src/transaction/instruction_util.rs.
use solus_protocol.Base.{ℕ, none, some, List, map, ltb, length, get_elem?, drop}
use solus_protocol.Error.{invalid_transaction, panicked, Result, ok, err, fail_if}
use solus_protocol.Instruction.{Pubkey, AccountMeta, Instruction}

abbrev pub validate_number_accounts : Instruction → ℕ → Result (Unit {0})
validate_number_accounts ix min_count =
    fail_if (ltb (length ix.accounts) min_count) invalid_transaction

-- `instruction.accounts[index].pubkey`, which panics out of range.
unfoldable pub account_at : Instruction → ℕ → Result Pubkey
account_at ix index = elim (get_elem? ix.accounts index) [
  | none ↦ err panicked
  | some m ↦ ok m.pubkey
]

abbrev pub pubkeys : List AccountMeta → List Pubkey
pubkeys = map λ m. m.pubkey

-- `instruction.accounts.iter().skip(n).map(|a| a.pubkey).collect()`
abbrev pub accounts_from : Instruction → ℕ → List Pubkey
accounts_from ix n = pubkeys (drop n ix.accounts)

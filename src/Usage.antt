-- ===== src/Usage.antt =====
-- Usage limits: `UsageTracker` of kora/crates/lib/src/usage_limit/usage_tracker.rs over the trait
-- `UsageStore` of kora/crates/lib/src/usage_limit/usage_store.rs. A wallet stands for its key in the
-- store, which is a constant prefix and the wallet's text.
pub mod Limit
pub mod Race
pub mod Sender
use solus_protocol.Base.{
  ℕ, zero, suc, ◌+◌, ◌%◌, Bool, true, false, not, ◌&&◌, Option, none, some, List, [], ◌∷◌, ◌==◌,
  nat_eq, leb, contains, take, is_empty, if◌then◌else◌,
}
use solus_protocol.Error.{
  KoraError, Result, ok, err, internal_server_error, invalid_transaction, usage_limit_exceeded,
}
use solus_protocol.Instruction.{Pubkey}
use solus_protocol.Transaction.{VersionedTransaction}

-- `UsageStore`, over the state of the store. A call may fail.
pub record UsageStore (S : Type 0) : Type 0 where
  pub get_count : Pubkey → S → Result ℕ
  pub increment : Pubkey → S → Result ℕ × S

-- The counters of `InMemoryUsageStore`. `*count += 1` wraps on a u32 in a release build.
abbrev pub Counters : Type 0
Counters = List (Pubkey × ℕ)

unfoldable pub count_of : Pubkey → Counters → ℕ
count_of k [] = 0
count_of k ((j, c) ∷ cs) = if j == k then c else count_of k cs

unfoldable pub increment_in : Pubkey → Counters → Counters
increment_in k [] = (k, 1) ∷ []
increment_in k ((j, c) ∷ cs) =
    if j == k then (j, (c + 1) % 4294967296) ∷ cs else (j, c) ∷ increment_in k cs

abbrev pub in_memory : UsageStore Counters
in_memory = record {
  get_count = λ k cs. ok (count_of k cs);
  increment = λ k cs. let cs' = increment_in k cs in (ok (count_of k cs'), cs');
}

pub record UsageTracker : Type 0 where
  pub max_transactions : ℕ
  pub kora_signers : List Pubkey
  pub fallback_if_unavailable : Bool

unfoldable pub handle_store_error : UsageTracker → KoraError → Result (Unit {0})
handle_store_error t e = if t.fallback_if_unavailable then ok tt else err internal_server_error

-- `current_count >= self.max_transactions as u32`, where the cast keeps the low 32 bits of the limit.
-- It is asked only of a limit that is not 0.
abbrev pub is_full : UsageTracker → ℕ → Bool
is_full t current_count = leb (t.max_transactions % 4294967296) current_count

module _ {S : Type 0} (store : UsageStore S) where
  abbrev pub after_increment : UsageTracker → Result ℕ × S → Result (Unit {0}) × S
  after_increment t (ok count, s) = (ok tt, s)
  after_increment t (err e, s) = (handle_store_error t e, s)

  abbrev pub after_get : UsageTracker → Pubkey → S → Result ℕ → Result (Unit {0}) × S
  after_get t wallet s (err e) = (handle_store_error t e, s)
  after_get t wallet s (ok current_count) =
      if is_full t current_count
      then (err usage_limit_exceeded, s)
      else after_increment t (store.increment wallet s)

  unfoldable pub check_usage_limit : UsageTracker → Pubkey → S → Result (Unit {0}) × S
  unfolding handle_store_error
  check_usage_limit t wallet s =
      if t.max_transactions == 0
      then (ok tt, s)
      else after_get t wallet s (store.get_count wallet s)

-- The first signer that is none of Kora's.
unfoldable pub first_user : List Pubkey → List Pubkey → Option Pubkey
first_user kora_signers [] = none
first_user kora_signers (k ∷ ks) =
    let rest = first_user kora_signers ks in if not (contains kora_signers k) then some k else rest

unfoldable pub extract_transaction_sender :
    UsageTracker → VersionedTransaction → Result (Option Pubkey)
unfolding first_user
extract_transaction_sender t tx =
    if is_empty tx.static_account_keys
    then err invalid_transaction
    else ok (first_user t.kora_signers (take tx.num_required_signatures tx.static_account_keys))

-- `check_transaction_usage_limit`, over the global limiter: not initialised, off, or a tracker.
module _ {S : Type 0} (store : UsageStore S) where
  abbrev pub check_sender : UsageTracker → S → Result (Option Pubkey) → Result (Unit {0}) × S
  check_sender t s (err e) = (err e, s)
  check_sender t s (ok none) = (ok tt, s)
  check_sender t s (ok (some sender)) = check_usage_limit store t sender s

  unfoldable pub check_transaction_usage_limit :
      Option (Option UsageTracker) → Bool → Bool → VersionedTransaction → S → Result (Unit {0}) × S
  check_transaction_usage_limit none enabled fallback tx s = (err internal_server_error, s)
  check_transaction_usage_limit (some (some t)) enabled fallback tx s =
      check_sender t s (extract_transaction_sender t tx)
  check_transaction_usage_limit (some none) enabled fallback tx s =
      if enabled && not fallback then (err internal_server_error, s) else (ok tt, s)

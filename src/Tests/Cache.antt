-- ===== src/Tests/Cache.antt =====
-- A store that holds one entry, read 3 seconds after it was made.
use solus_protocol.Base.{
  ℕ, true, false, ◌≡◌, ◌⊎◌, refl, Option, none, some, [], ◌==◌, nat_eq, eqb_iff, if◌then◌else◌, ltb,
  arith, Bool-cases, inl, inr, subst,
}
use mathlib.Core.Option.{some-injective}
use solus_protocol.Error.{Result, ok, err, account_not_found, ok-injective}
use solus_protocol.Instruction.{Pubkey}
use solus_protocol.External.{Account}
use solus_protocol.Cache.{CachedAccount, CacheStore, get_account}
use solus_protocol.Cache.Fresh.{IsStore, IsRecorded, IsFresh, get_account-IsFresh}

abbrev Entry : Type 0
Entry = Option (Pubkey × CachedAccount)

abbrev found : Pubkey → Entry → Option CachedAccount
found k none = none
found k (some (j, c)) = if j == k then some c else none

-- A store with room for one entry.
abbrev single : CacheStore Entry
single = record {
  get_from_cache = λ k s. ok (found k s);
  set_in_cache = λ k c ttl s. ok (some (k, c));
}

abbrev OfEntry : (Pubkey → CachedAccount → Type 0) → Entry → Type 0
OfEntry P none = Unit
OfEntry P (some (k, c)) = P k c

found-holds :
    (P : Pubkey → CachedAccount → Type 0) (s : Entry) (k : Pubkey) (c : CachedAccount)
    → OfEntry P s
    → found k s ≡ some c
    → P k c
found-holds P none k c h e = cc
found-holds P (some (j, d)) k c h e = elim (Bool-cases (j == k)) [
  | inl same ↦
      let there : some d ≡ some c = rw (same, if◌then◌else◌) at e in
      subst (λ i. P i c) ((eqb_iff j k).0 same) (subst (P j) (some-injective d c there) h)
  | inr other ↦ absurd (cc (rw (other, if◌then◌else◌) at e))
]

single_store : IsStore single OfEntry
single_store = record {
  get_law = λ P s k c h e. found-holds P s k c h (ok-injective e);
  set_law = λ P s s' k c ttl h p e. subst (OfEntry P) (ok-injective e) p;
}

abbrev holder : Account
holder = record { owner = 101; payload = []; executable = false }

abbrev entry : Entry
entry = some (20, record { account = holder; cached_at = 7 })

-- The account 20 is gone since time 9.
abbrev history : ℕ → Pubkey → Result Account
history time k = if ltb time 9 then ok holder else err account_not_found

still_cached : get_account single history 5 10 true 20 false entry ≡ (ok holder, entry)
unfolding get_account
still_cached = refl

get_account-IsFresh_example :
    IsFresh single OfEntry single_store history 5 10 20 holder
    × OfEntry (IsRecorded single OfEntry single_store history 5 10) entry
    × (((true ≡ true) × (false ≡ false)) ⊎ (history 10 20 ≡ ok holder))
get_account-IsFresh_example =
    get_account-IsFresh single OfEntry single_store history 5 10 true 20 false entry
      (refl, omega arith) still_cached

-- ===== src/Cache/Fresh.antt =====
-- How old an account is that the cache returns.
use solus_protocol.Base.{
  ℕ, Bool, true, false, ◌+◌, ◌≤◌, ◌<◌, ◌≡◌, ◌⊎◌, inl, inr, refl, ap, subst, ◌∙◌, Option, none, some,
  if◌then◌else◌, arith, Bool-cases,
}
use solus_protocol.Error.{Result, ok, err, ok-injective}
use solus_protocol.Instruction.{Pubkey}
use solus_protocol.External.{Account}
use solus_protocol.Cache.{
  CachedAccount, CacheStore, written, cached, get_account_from_rpc_and_cache, is_valid, from_cache,
  get_account,
}

-- What a store guarantees: an entry that it returns is one that was written before. `Holds P` says that
-- all entries of a store satisfy `P`.
pub record IsStore {S : Type 0} (store : CacheStore S)
    (Holds : (Pubkey → CachedAccount → Type 0) → S → Type 0) : Type 1 where
  pub get_law :
      (P : Pubkey → CachedAccount → Type 0) (s : S) (k : Pubkey) (c : CachedAccount)
      → Holds P s
      → store.get_from_cache k s ≡ ok (some c)
      → P k c
  pub set_law :
      (P : Pubkey → CachedAccount → Type 0) (s s' : S) (k : Pubkey) (c : CachedAccount) (ttl : ℕ)
      → Holds P s
      → P k c
      → store.set_in_cache k c ttl s ≡ ok s'
      → Holds P s'

module _ {S : Type 0} (store : CacheStore S)
    (Holds : (Pubkey → CachedAccount → Type 0) → S → Type 0) (laws : IsStore store Holds)
    (chain : ℕ → Pubkey → Result Account) (account_ttl now : ℕ) where
  -- An entry is what the chain answered when it was made, and it was made by now.
  abbrev pub IsRecorded : Pubkey → CachedAccount → Type 0
  IsRecorded k c = (chain c.cached_at k ≡ ok c.account) × (c.cached_at ≤ now)

  -- The chain's answer of now, or one that is younger than the lifetime.
  abbrev pub IsFresh : Pubkey → Account → Type 0
  IsFresh k a =
      (time : ℕ) × (chain time k ≡ ok a)
      × (time ≤ now)
      × ((time ≡ now) ⊎ (now < time + account_ttl))

  written-Holds :
      (k : Pubkey) (a : Account) (s : S) (r : Result S)
      → Holds IsRecorded s
      → chain now k ≡ ok a
      → store.set_in_cache k (record { account = a; cached_at = now }) account_ttl s ≡ r
      → Holds IsRecorded (written store chain account_ttl now s r)
  written-Holds k a s (ok s') h e q =
      laws.set_law IsRecorded s s' k (record { account = a; cached_at = now }) account_ttl h
        (e, omega arith) q
  written-Holds k a s (err _) h e q = h

  fetched-IsFresh :
      (k : Pubkey) (s : S) {a : Account} {s' : S}
      → Holds IsRecorded s
      → get_account_from_rpc_and_cache store chain account_ttl now k s ≡ (ok a, s')
      → IsFresh k a × Holds IsRecorded s'
  unfolding get_account_from_rpc_and_cache
  fetched-IsFresh k s {a} {s'} h q = go (chain now k) refl q
    where
      go :
          (r : Result Account)
          → chain now k ≡ r
          → cached store chain account_ttl now k s r ≡ (ok a, s')
          → IsFresh k a × Holds IsRecorded s'
      go (err e) c e' = absurd (cc (ap (λ p. p.0) e'))
      go (ok b) c e' =
          let same = ok-injective (ap (λ p. p.0) e') in
          (
            (now, c ∙ ap ok same, omega arith, inl refl),
            subst (Holds IsRecorded) (ap (λ p. p.1) e') (
                written-Holds k b s
                  (store.set_in_cache k (record { account = b; cached_at = now }) account_ttl s) h c
                  refl),
          )

  fetched-now :
      (k : Pubkey) (s : S) {a : Account} {s' : S}
      → get_account_from_rpc_and_cache store chain account_ttl now k s ≡ (ok a, s')
      → chain now k ≡ ok a
  unfolding get_account_from_rpc_and_cache
  fetched-now k s {a} {s'} q = go (chain now k) refl q
    where
      go :
          (r : Result Account)
          → chain now k ≡ r
          → cached store chain account_ttl now k s r ≡ (ok a, s')
          → r ≡ ok a
      go (err e) c e' = absurd (cc (ap (λ p. p.0) e'))
      go (ok b) c e' = ap (λ p. p.0) e'

  valid-lt :
      (c : CachedAccount)
      → is_valid store chain account_ttl now c ≡ true
      → now < c.cached_at + account_ttl
  valid-lt c h = ground arith

  looked_up :
      (k : Pubkey) (s : S) (r : Result (Option CachedAccount)) {a : Account} {s' : S}
      → Holds IsRecorded s
      → store.get_from_cache k s ≡ r
      → (elim (from_cache store chain account_ttl now r) [
        | some b ↦ (ok b, s)
        | none ↦ get_account_from_rpc_and_cache store chain account_ttl now k s
      ])
        ≡ (ok a, s')
      → IsFresh k a × Holds IsRecorded s'
  looked_up k s (err e) h c q = fetched-IsFresh k s h q
  looked_up k s (ok none) h c q = fetched-IsFresh k s h q
  looked_up k s (ok (some b)) {a} {s'} h c q =
      elim (Bool-cases (is_valid store chain account_ttl now b)) [
        | inr old ↦ fetched-IsFresh k s h (rw (old, if◌then◌else◌) at q)
        | inl young ↦
            let hit : Result Account × S = (ok b.account, s) in
            let kept : hit ≡ (ok a, s') = rw (young, if◌then◌else◌) at q in
            let (answer, past) = laws.get_law IsRecorded s k b h c in
            (
              (b.cached_at, answer ∙ ap (λ p. p.0) kept, past, inr (valid-lt b young)),
              subst (Holds IsRecorded) (ap (λ p. p.1) kept) h,
            )
      ]

  -- An account that the cache returns is what the chain answers now, or answered less than the
  -- lifetime ago; it is what the chain answers now if a refresh is forced or the cache is off, and
  -- the entries of the store stay recorded answers, where the store returns only entries that were
  -- written, but may fail to be read or written.
  pub get_account-IsFresh :
      (enabled : Bool) (k : Pubkey) (force_refresh : Bool) (s : S) {a : Account} {s' : S}
      → Holds IsRecorded s
      → get_account store chain account_ttl now enabled k force_refresh s ≡ (ok a, s')
      → IsFresh k a
        × Holds IsRecorded s'
        × (((enabled ≡ true) × (force_refresh ≡ false)) ⊎ (chain now k ≡ ok a))
  unfolding get_account
  get_account-IsFresh false k force s {a} {s'} h q =
      let answer : chain now k ≡ ok a = ap (λ p. p.0) q in
      (
        (now, answer, omega arith, inl refl),
        subst (Holds IsRecorded) (ap (λ p. p.1) q) h,
        inr answer,
      )
  get_account-IsFresh true k true s h q =
      let (f, r) = fetched-IsFresh k s h q in (f, r, inr (fetched-now k s q))
  get_account-IsFresh true k false s h q =
      let (f, r) = looked_up k s (store.get_from_cache k s) h refl q in (f, r, inl (refl, refl))

-- ===== src/Usage/Limit.antt =====
-- What the usage limit guarantees over a store that answers, one check after the other.
use solus_protocol.Base.{
  ℕ, zero, suc, ◌+◌, ◌-◌, ◌%◌, ◌≤◌, ◌<◌, ◌≡◌, ◌≢◌, sym, ap, subst, ◌∙◌, min, [], ◌∷◌, ◌==◌, nat_eq,
  leb, arith, eqb_iff, Bool-cases, inl, inr, if◌then◌else◌,
}
use solus_protocol.Error.{Result, ok, err, usage_limit_exceeded}
use solus_protocol.Instruction.{Pubkey}
use solus_protocol.Usage.{
  Counters, count_of, increment_in, in_memory, UsageTracker, check_usage_limit,
}

pub count_of-increment_in :
    (j k : Pubkey) (cs : Counters)
    → count_of j (increment_in k cs)
      ≡ (if k == j then (count_of k cs + 1) % 4294967296 else count_of j cs)
unfolding count_of increment_in
count_of-increment_in j k [] = ground arith
count_of-increment_in j k ((i, c) ∷ cs) =
    ground (arith, count_of-increment_in j k cs, eqb_iff k j, eqb_iff i k, eqb_iff i j)

-- A number of checks by one wallet: how many pass, and the counters after them.
abbrev pub tally : Result (Unit {0}) → ℕ × Counters → ℕ × Counters
tally (ok _) (passed, cs) = (suc passed, cs)
tally (err _) (passed, cs) = (passed, cs)

unfoldable pub checks : UsageTracker → Pubkey → ℕ → Counters → ℕ × Counters
checks t wallet zero cs = (0, cs)
checks t wallet (suc n) cs =
    let (r, cs') = check_usage_limit in_memory t wallet cs in tally r (checks t wallet n cs')

module _ (t : UsageTracker) (wallet : Pubkey) (limited : t.max_transactions ≢ 0)
    (fits : t.max_transactions < 4294967296) where
  check-passes :
      (cs : Counters)
      → count_of wallet cs < t.max_transactions
      → check_usage_limit in_memory t wallet cs ≡ (ok tt, increment_in wallet cs)
  unfolding check_usage_limit
  check-passes cs h = ground arith

  check-refuses :
      (cs : Counters)
      → t.max_transactions ≤ count_of wallet cs
      → check_usage_limit in_memory t wallet cs ≡ (err usage_limit_exceeded, cs)
  unfolding check_usage_limit
  check-refuses cs h = ground arith

  count-after :
      (cs : Counters)
      → count_of wallet cs < t.max_transactions
      → count_of wallet (increment_in wallet cs) ≡ count_of wallet cs + 1
  count-after cs h = count_of-increment_in wallet wallet cs ∙ ground arith

  checks-passes :
      (n : ℕ) (cs : Counters)
      → count_of wallet cs < t.max_transactions
      → checks t wallet (suc n) cs ≡ tally (ok tt) (checks t wallet n (increment_in wallet cs))
  unfolding checks
  checks-passes n cs h = ap (λ s. tally s.0 (checks t wallet n s.1)) (check-passes cs h)

  checks-refuses :
      (n : ℕ) (cs : Counters)
      → t.max_transactions ≤ count_of wallet cs
      → checks t wallet (suc n) cs ≡ tally (err usage_limit_exceeded) (checks t wallet n cs)
  unfolding checks
  checks-refuses n cs h = ap (λ s. tally s.0 (checks t wallet n s.1)) (check-refuses cs h)

  abbrev IsTallied : ℕ → Counters → ℕ × Counters → Type 0
  IsTallied n cs (passed, cs') =
      (passed ≡ min n (t.max_transactions - count_of wallet cs))
      × (count_of wallet cs' ≡ count_of wallet cs + passed)

  -- Where the limit is not 0 and fits a u32, and the counter is not above it, of any number of
  -- checks in a row by one wallet as many pass as the limit leaves room for, and the wallet's
  -- counter grows by that number.
  pub checks-min :
      (n : ℕ) (cs : Counters)
      → count_of wallet cs ≤ t.max_transactions
      → ((checks t wallet n cs).0 ≡ min n (t.max_transactions - count_of wallet cs))
        × (count_of wallet (checks t wallet n cs).1 ≡ count_of wallet cs + (checks t wallet n cs).0)
  checks-min zero cs h = unfold checks in (omega arith, omega arith)
  checks-min (suc n) cs h = elim (Bool-cases (leb t.max_transactions (count_of wallet cs))) [
    | inl full ↦
        let l : t.max_transactions ≤ count_of wallet cs = ground arith in
        let (p, q) = checks-min n cs h in
        subst (IsTallied (suc n) cs) (sym (checks-refuses n cs l))
          (omega (arith, p, q), omega (arith, p, q))
    | inr room ↦
        let l : count_of wallet cs < t.max_transactions = ground arith in
        let e = count-after cs l in
        let (p, q) = checks-min n (increment_in wallet cs) (omega (arith, e)) in
        subst (IsTallied (suc n) cs) (sym (checks-passes n cs l))
          (omega (arith, p, q, e), omega (arith, p, q, e))
  ]

-- A check of one wallet leaves the counter of every other wallet as it was.
check_usage_limit_other :
    (t : UsageTracker) (wallet other : Pubkey) (cs : Counters)
    → other ≢ wallet
    → count_of other (check_usage_limit in_memory t wallet cs).1 ≡ count_of other cs
unfolding check_usage_limit
check_usage_limit_other t wallet other cs ne = ground (arith, count_of-increment_in other wallet cs)

-- A limit that is a multiple of 2 ^ 32, and not 0, refuses every wallet, also one that was never
-- seen: the limit is cast to a u32 before it is compared.
pub check_usage_limit_truncated :
    (t : UsageTracker) (wallet : Pubkey) (cs : Counters)
    → t.max_transactions ≢ 0
    → t.max_transactions % 4294967296 ≡ 0
    → check_usage_limit in_memory t wallet cs ≡ (err usage_limit_exceeded, cs)
unfolding check_usage_limit
check_usage_limit_truncated t wallet cs limited multiple = ground arith

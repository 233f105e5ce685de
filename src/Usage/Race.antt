-- ===== src/Usage/Race.antt =====
-- Checks of one wallet that run at the same time (`check_usage_limit` of
-- kora/crates/lib/src/usage_limit/usage_tracker.rs). The call reads the counter and increments it by two
-- awaited calls of the store, between which other requests run. Requests of one wallet differ only in
-- how far they are, so that a state counts them.
use solus_protocol.Base.{
  ℕ, zero, suc, ◌+◌, ◌-◌, ◌%◌, ◌≤◌, ◌<◌, ◌≡◌, ◌≢◌, refl, ◌∙◌, true, false, ◌==◌, nat_eq, arith,
  if◌then◌else◌,
}
use solus_protocol.Error.{ok, err, usage_limit_exceeded}
use solus_protocol.Instruction.{Pubkey}
use solus_protocol.Usage.{
  Counters, count_of, increment_in, in_memory, UsageTracker, is_full, check_usage_limit,
}
use solus_protocol.Usage.Limit.{count_of-increment_in}

-- How many requests have not read the counter, have read it below the limit, have incremented it, and
-- were refused.
pub record Requests : Type 0 where
  pub waiting : ℕ
  pub admitted : ℕ
  pub passed : ℕ
  pub refused : ℕ
  pub counters : Counters

incremented :
    (k : Pubkey) (count start passed : ℕ)
    → count ≡ start + passed
    → start + passed + 1 < 4294967296
    → (if k == k then (count + 1) % 4294967296 else count) ≡ start + (passed + 1)
incremented k count start passed e small = ground arith

-- The steps of a check. A limit of 0 is none: such a check passes without a call of the store. At most
-- `in_flight` requests are between the two calls.
module _ (t : UsageTracker) (wallet : Pubkey) (in_flight : ℕ) where
  pub data Step (s : Requests) : Requests → Type 0 where
    unlimited :
        {w : ℕ}
        → s.waiting ≡ suc w
        → t.max_transactions ≡ 0
        → Step s (record s { waiting = w; passed = s.passed + 1 })
    read_below :
        {w : ℕ}
        → t.max_transactions ≢ 0
        → s.waiting ≡ suc w
        → s.admitted < in_flight
        → is_full t (count_of wallet s.counters) ≡ false
        → Step s (record s { waiting = w; admitted = s.admitted + 1 })
    read_full :
        {w : ℕ}
        → t.max_transactions ≢ 0
        → s.waiting ≡ suc w
        → is_full t (count_of wallet s.counters) ≡ true
        → Step s (record s { waiting = w; refused = s.refused + 1 })
    increment :
        {a : ℕ}
        → s.admitted ≡ suc a
        → Step s (record s {
          admitted = a;
          passed = s.passed + 1;
          counters = increment_in wallet s.counters;
        })

  pub data Reach : Requests → Requests → Type 0 where
    here : {s : Requests} → Reach s s
    next : {s u v : Requests} → Step s u → Reach u v → Reach s v

  abbrev pub initially : ℕ → Counters → Requests
  initially n cs = record { waiting = n; admitted = 0; passed = 0; refused = 0; counters = cs }

  abbrev Bounded : ℕ → Requests → Type 0
  Bounded start s =
      (count_of wallet s.counters ≡ start + s.passed)
      × (start + s.passed + s.admitted + 1 ≤ t.max_transactions + in_flight)

  -- The two steps of a check, one after the other, are the check: with a limit that is not 0, it
  -- refuses if the counter that it reads is not below the limit, and increments the counter
  -- otherwise.
  check_usage_limit-steps :
      (cs : Counters)
      → t.max_transactions ≢ 0
      → check_usage_limit in_memory t wallet cs ≡ (
          if is_full t (count_of wallet cs)
          then (err usage_limit_exceeded, cs)
          else (ok tt, increment_in wallet cs))
  unfolding check_usage_limit
  check_usage_limit-steps cs limited = ground arith

  module _ (limited : t.max_transactions ≢ 0)
      (fits : t.max_transactions + in_flight < 4294967296) where
    Step-Bounded : {s u : Requests} (start : ℕ) → Step s u → Bounded start s → Bounded start u
    Step-Bounded {s} start (unlimited e unset) (c, b) = absurd (limited unset)
    Step-Bounded {s} start (read_below _ e f below) (c, b) = (c, ground arith)
    Step-Bounded {s} start (read_full _ e full) (c, b) = (c, b)
    Step-Bounded {s} start (increment {a} e) (c, b) =
        let small : start + s.passed + 1 < 4294967296 = omega arith in
        (
          count_of-increment_in wallet wallet s.counters
              ∙ incremented wallet (count_of wallet s.counters) start s.passed c small,
          omega arith,
        )

    Reach-Bounded : {s u : Requests} (start : ℕ) → Reach s u → Bounded start s → Bounded start u
    Reach-Bounded start here b = b
    Reach-Bounded start (next q r) b = Reach-Bounded start r (Step-Bounded start q b)

    -- However the checks of one wallet interleave under a limit that is not 0, from a counter that
    -- is not above the limit, with at least one and at most `in_flight` of them between reading the
    -- counter and incrementing it, and with the limit and `in_flight` together below 2 ^ 32, no
    -- increment is lost, and at most `in_flight - 1` checks pass beyond what the limit leaves room
    -- for.
    pub Reach-overshoot :
        (n : ℕ) (cs : Counters) {s : Requests}
        → 0 < in_flight
        → count_of wallet cs ≤ t.max_transactions
        → Reach (initially n cs) s
        → (count_of wallet s.counters ≡ count_of wallet cs + s.passed)
          × (s.passed ≤ t.max_transactions - count_of wallet cs + (in_flight - 1))
    Reach-overshoot n cs {s} some_run below r =
        let (c, b) = Reach-Bounded (count_of wallet cs) r (omega arith, omega arith) in
        (c, omega arith)

  reads :
      (k : ℕ) (s : Requests)
      → t.max_transactions ≢ 0
      → s.waiting ≡ k
      → s.admitted + k ≤ in_flight
      → is_full t (count_of wallet s.counters) ≡ false
      → (u : Requests) × Reach s u × (u.admitted ≡ s.admitted + k) × (u.passed ≡ s.passed)
  reads zero s limited e fit below = (s, here, omega arith, refl)
  reads (suc k) s limited e fit below =
      let (u, r, a, p) =
        reads k (record s { waiting = k; admitted = s.admitted + 1 }) limited refl (omega arith)
          below in
      (u, next (read_below limited e (omega arith) below) r, a ∙ omega arith, p)

  increments :
      (k : ℕ) (s : Requests)
      → s.admitted ≡ k
      → (u : Requests) × Reach s u × (u.passed ≡ s.passed + k)
  increments zero s e = (s, here, omega arith)
  increments (suc k) s e =
      let (u, r, p) =
        increments k
          (record s {
            admitted = k;
            passed = s.passed + 1;
            counters = increment_in wallet s.counters;
          })
          refl in
      (u, next (increment e) r, p ∙ omega arith)

  joined : {s u v : Requests} → Reach s u → Reach u v → Reach s v
  joined here r = r
  joined (next q p) r = next q (joined p r)

  -- The excess is reached: if the counter is below the limit, and the limit below 2 ^ 32, all of
  -- `in_flight` checks of one wallet can pass, by reading the counter before any of them increments
  -- it.
  pub Reach-in_flight :
      (cs : Counters)
      → count_of wallet cs < t.max_transactions
      → t.max_transactions < 4294967296
      → (s : Requests) × Reach (initially in_flight cs) s × (s.passed ≡ in_flight)
  Reach-in_flight cs below fits =
      let limited : t.max_transactions ≢ 0 = λ e. omega arith in
      let free : is_full t (count_of wallet cs) ≡ false = ground arith in
      let (u, r, a, p) = reads in_flight (initially in_flight cs) limited refl (omega arith) free in
      let (v, q, e) = increments in_flight u (a ∙ omega arith) in (v, joined r q, e ∙ omega arith)

  -- A limit of 0 refuses no check, however the checks interleave, and counts none.
  Reach-unlimited :
      {s u : Requests}
      → t.max_transactions ≡ 0
      → Reach s u
      → s.admitted ≡ 0
      → (u.refused ≡ s.refused)
        × (u.counters ≡ s.counters)
        × (u.admitted ≡ 0)
        × (u.passed + u.waiting ≡ s.passed + s.waiting)
  Reach-unlimited zero_limit here a = (refl, refl, a, refl)
  Reach-unlimited zero_limit (next (unlimited e _) r) a =
      let (x, y, z, w) = Reach-unlimited zero_limit r a in (x, y, z, omega arith)
  Reach-unlimited zero_limit (next (read_below limited _ _ _) r) a = absurd (limited zero_limit)
  Reach-unlimited zero_limit (next (read_full limited _ _) r) a = absurd (limited zero_limit)
  Reach-unlimited zero_limit (next (increment e) r) a = absurd (omega arith)

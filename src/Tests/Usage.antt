-- ===== src/Tests/Usage.antt =====
-- A limit of 3 transactions, and one of 2 ^ 32.
use solus_protocol.Base.{◌≤◌, true, [], ◌∷◌, ◌+◌, ◌-◌, ◌≡◌, refl, min, arith}
use solus_protocol.Error.{err, usage_limit_exceeded}
use solus_protocol.Usage.{
  increment_in, UsageTracker, Counters, count_of, in_memory, check_usage_limit,
}
use solus_protocol.Usage.Limit.{checks, checks-min, check_usage_limit_truncated}
use solus_protocol.Usage.Race.{
  Requests, read_below, increment, Reach, here, next, initially, Reach-overshoot, Reach-in_flight,
}
use solus_protocol.Tests.World.{kora, user}

abbrev pub three : UsageTracker
three = record { max_transactions = 3; kora_signers = kora ∷ []; fallback_if_unavailable = true }

abbrev wrapped : UsageTracker
wrapped = record three { max_transactions = 4294967296 }

abbrev counters : Counters
counters = (7, 3) ∷ (user, 1) ∷ []

checks-min_example :
    ((checks three user 5 counters).0 ≡ min 5 (3 - count_of user counters))
    × (count_of user (checks three user 5 counters).1
        ≡ count_of user counters + (checks three user 5 counters).0)
unfolding count_of
checks-min_example = checks-min three user (omega arith) (omega arith) 5 counters (omega arith)

check_usage_limit_truncated_example :
    check_usage_limit in_memory wrapped user [] ≡ (err usage_limit_exceeded, [])
check_usage_limit_truncated_example = check_usage_limit_truncated wrapped user [] (omega arith) refl

-- Two requests read the counter, and only then increment it.
abbrev both_passed : Requests
both_passed = record {
  waiting = 0;
  admitted = 0;
  passed = 2;
  refused = 0;
  counters = increment_in user (increment_in user counters);
}

both_pass : Reach three user 2 (initially three user 2 2 counters) both_passed
unfolding count_of
both_pass = next (read_below (omega arith) refl (omega arith) refl) (
    next (read_below (omega arith) refl (omega arith) refl)
      (next (increment refl) (next (increment refl) here)))

Reach-overshoot_example :
    (count_of user both_passed.counters ≡ count_of user counters + both_passed.passed)
    × (both_passed.passed ≤ 3 - count_of user counters + (2 - 1))
unfolding count_of
Reach-overshoot_example =
    Reach-overshoot three user 2 (omega arith) (omega arith) 2 counters (omega arith) (omega arith)
      both_pass

Reach-in_flight_example :
    (s : Requests) × Reach three user 9 (initially three user 9 9 counters) s × (s.passed ≡ 9)
unfolding count_of
Reach-in_flight_example = Reach-in_flight three user 9 counters (omega arith) (omega arith)

-- ===== src/Auth/Window.antt =====
-- The time window of the HMAC authentication (kora/crates/lib/src/rpc_server/auth.rs).
use solus_protocol.Base.{ℕ, false, ◌+◌, ◌≤◌, ◌<◌, ◌≡◌, ◌↔◌, arith}
use solus_protocol.Auth.{is_expired}

-- A timestamp that is not negative is accepted exactly if it is at most `max_timestamp_age` before
-- or after the clock, where both are i64s that are not negative.
pub is_expired_iff :
    (now ts max_timestamp_age : ℕ)
    → now < 9223372036854775808
    → ts < 9223372036854775808
    → max_timestamp_age < 9223372036854775808
    → (is_expired now ts max_timestamp_age ≡ false)
      ↔ ((now ≤ ts + max_timestamp_age) × (ts ≤ now + max_timestamp_age))
unfolding is_expired
is_expired_iff now ts max_timestamp_age a b c = ground arith

-- The timestamp `now - 2 ^ 63`, which lies 2 ^ 63 seconds back, is accepted whatever the allowed
-- age, where clock and age are i64s that are not negative: the difference wraps to the least i64,
-- whose absolute value wraps to itself.
pub is_expired-wrapped :
    (now max_timestamp_age : ℕ)
    → now < 9223372036854775808
    → max_timestamp_age < 9223372036854775808
    → is_expired now (now + 9223372036854775808) max_timestamp_age ≡ false
unfolding is_expired
is_expired-wrapped now max_timestamp_age a c = ground arith

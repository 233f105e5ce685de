-- ===== src/Base/Words.antt =====
-- Rust's unsigned arithmetic on numbers below 2 ^ 64.
use Prim.Native.Nat.{ℕ, ◌+◌, ◌-◌, ◌≤◌}
use mathlib.Core.Path.{◌≡◌}
use mathlib.Core.Option.{Option, none, some}
use native.Mathlib.Omega.{arith}
use solus_protocol.Base.Tests.{ltb, if◌then◌else◌}

abbrev pub u64_max : ℕ
u64_max = 18446744073709551615

-- `u64::checked_add`
abbrev pub checked_add : ℕ → ℕ → Option ℕ
checked_add a b = if ltb u64_max (a + b) then none else some (a + b)

-- `u64::saturating_sub`: subtraction on ℕ stops at 0 too.
abbrev pub saturating_sub : ℕ → ℕ → ℕ
saturating_sub a b = a - b

pub checked_add-eq_some : (a b c : ℕ) → checked_add a b ≡ some c → (c ≡ a + b) × (a + b ≤ u64_max)
checked_add-eq_some a b c h = ground arith

-- ===== src/Pool.antt =====
-- `SignerPool` of kora/crates/lib/src/signer/pool.rs. The random number of a selection, the clock and
-- the atomics are arguments and fields: one selection at a time.
pub mod RoundRobin
pub mod Weighted
pub mod Next
use solus_protocol.Base.{
  ℕ, zero, suc, ◌+◌, ◌-◌, ◌%◌, String, Bool, true, false, ◌&&◌, Option, none, some, List, [], ◌∷◌,
  map, ◌==◌, nat_eq, ltb, is_empty, length, get_elem?, set, if◌then◌else◌,
}
use solus_protocol.Error.{
  Result, ok, err, panicked, internal_server_error, validation_error, ok_or, ◌>>=◌,
}
use solus_protocol.Instruction.{Pubkey}

pub record SignerWithMetadata : Type 0 where
  pub name : String
  pub signer : Pubkey
  pub weight : ℕ
  pub last_used : ℕ

pub data SelectionStrategy : Type 0 where
  round_robin at_random weighted : SelectionStrategy

pub record SignerPool : Type 0 where
  pub signers : List SignerWithMetadata
  pub strategy : SelectionStrategy
  pub current_index : ℕ
  pub total_weight : ℕ

abbrev pub u32_mod : ℕ
u32_mod = 4294967296

abbrev pub usize_mod : ℕ
usize_mod = 18446744073709551616

abbrev pub weights : List SignerWithMetadata → ℕ
weights [] = 0
weights (s ∷ ss) = s.weight + weights ss

-- `signers.iter().map(|s| s.weight).sum()`, which wraps on a u32 in a release build.
unfoldable pub sum_weights : List SignerWithMetadata → ℕ
sum_weights ss = weights ss % u32_mod

abbrev pub is_weighted : SelectionStrategy → Bool
is_weighted weighted = true
is_weighted _ = false

-- `SignerPool::from_config`, from the signers that it has built.
unfoldable pub from_config : List SignerWithMetadata → SelectionStrategy → Result SignerPool
unfolding sum_weights
from_config ss strategy =
    if is_empty ss
    then err validation_error
    else if is_weighted strategy && (sum_weights ss == 0)
    then err internal_server_error
    else ok (record {
      signers = ss;
      strategy = strategy;
      current_index = 0;
      total_weight = sum_weights ss;
    })

-- The selected position, and the pool with the counter advanced.
unfoldable pub round_robin_select : SignerPool → ℕ × SignerPool
round_robin_select p = (
  p.current_index % length p.signers,
  record p { current_index = (p.current_index + 1) % usize_mod },
)

-- `random_range(0..n)` is the `random` argument modulo `n`; it panics on an empty range.
unfoldable pub random_range : ℕ → ℕ → Result ℕ
random_range random n = if n == 0 then err panicked else ok (random % n)

-- The walk along the weights; `none` where the loop ends without a choice.
unfoldable pub walk : ℕ → List SignerWithMetadata → Option ℕ
walk target [] = none
walk target (s ∷ ss) =
    let rest : Option ℕ = elim (walk (target - s.weight) ss) [
      | none ↦ none
      | some i ↦ some (suc i)
    ] in
    if ltb target s.weight then some 0 else rest

unfoldable pub weighted_select : SignerPool → ℕ → Result ℕ
unfolding walk random_range
weighted_select p random = do
  target ← random_range random p.total_weight
  ok (elim (walk target p.signers) [ none ↦ 0 | some i ↦ i ])

abbrev pub select_by : SelectionStrategy → SignerPool → ℕ → Result (ℕ × SignerPool)
select_by round_robin p random = ok (round_robin_select p)
select_by at_random p random = random_range random (length p.signers) >>= λ i. ok (i, p)
select_by weighted p random = weighted_select p random >>= λ i. ok (i, p)

unfoldable pub select_position : SignerPool → ℕ → Result (ℕ × SignerPool)
unfolding round_robin_select weighted_select random_range
select_position p random = select_by p.strategy p random

-- `update_last_used` on the signer at a position, which is returned with it.
unfoldable pub use_signer : SignerPool → ℕ → ℕ → Result (Pubkey × SignerPool)
use_signer p i now = elim (get_elem? p.signers i) [
  | none ↦ err panicked
  | some s ↦ ok (s.signer, record p { signers = set p.signers i (record s { last_used = now }) })
]

unfoldable pub get_next_signer : SignerPool → ℕ → ℕ → Result (Pubkey × SignerPool)
unfolding select_position use_signer
get_next_signer p random now =
    let chosen = (select_position p random >>= λ (i, p'). use_signer p' i now) in
    if is_empty p.signers then err internal_server_error else chosen

unfoldable pub position_of : Pubkey → List SignerWithMetadata → Option ℕ
position_of k [] = none
position_of k (s ∷ ss) =
    let rest : Option ℕ = elim (position_of k ss) [ none ↦ none | some i ↦ some (suc i) ] in
    if s.signer == k then some 0 else rest

-- `get_signer_by_pubkey`, from the parser of keys.
unfoldable pub get_signer_by_pubkey :
    (String → Option Pubkey) → SignerPool → String → ℕ → Result (Pubkey × SignerPool)
unfolding position_of use_signer
get_signer_by_pubkey from_str p pubkey now = do
  target ← ok_or (from_str pubkey) validation_error
  i ← ok_or (position_of target p.signers) validation_error
  use_signer p i now

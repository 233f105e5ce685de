-- ===== src/Pool/Weighted.antt =====
-- Weighted selection stays inside the pool and never takes a signer of weight 0.
use solus_protocol.Base.{
  ℕ, suc, ◌+◌, ◌-◌, ◌%◌, ◌≤◌, ◌<◌, ◌≡◌, refl, sym, ap, false, some, List, [], ◌∷◌, arith, ltb, ◌==◌,
  nat_eq, get_elem?, take, Bool-cases, inl, inr, if◌then◌else◌,
}
use native.Mathlib.Nat.{mod-lt}
use solus_protocol.Error.{ok, ok-injective}
use solus_protocol.Pool.{
  weighted, SignerPool, SignerWithMetadata, weights, sum_weights, from_config, random_range, walk,
  weighted_select,
}

-- A target below the sum of the weights falls on one signer: the weights before it sum to at most the
-- target, and its own takes the sum above it.
walk-hits :
    (target : ℕ) (ss : List SignerWithMetadata)
    → target < weights ss
    → (i : ℕ) × (s : SignerWithMetadata) × (walk target ss ≡ some i)
      × (get_elem? ss i ≡ some s)
      × (weights (take i ss) ≤ target)
      × (target < weights (take i ss) + s.weight)
unfolding walk
walk-hits target [] h = absurd (omega arith)
walk-hits target (s ∷ ss) h = elim (Bool-cases (ltb target s.weight)) [
  | inl here ↦ (0, s, rw here, refl, omega arith, ground arith)
  | inr later ↦
      let (i, u, e, g, l, m) = walk-hits (target - s.weight) ss (ground arith) in
      (suc i, u, rw (later, e), g, ground arith, ground arith)
]

from_config-weighted :
    (ss : List SignerWithMetadata) (p : SignerPool)
    → weights ss < 4294967296
    → from_config ss weighted ≡ ok p
    → (p.signers ≡ ss) × (p.total_weight ≡ weights ss) × (0 < weights ss)
unfolding from_config sum_weights
from_config-weighted [] p small built = cc
from_config-weighted (s ∷ ss) p small built =
    let fits : weights (s ∷ ss) % 4294967296 ≡ weights (s ∷ ss) = omega arith in
    elim (Bool-cases (weights (s ∷ ss) == 0)) [
      | inl q ↦ absurd (cc (rw (fits, q, if◌then◌else◌) at built))
      | inr q ↦
          let r = ok-injective (rw (fits, q, if◌then◌else◌) at built) in
          (sym (ap (λ u. u.signers) r), sym (ap (λ u. u.total_weight) r), ground arith)
    ]

weighted_select_lem :
    (p : SignerPool) (random : ℕ) {i : ℕ}
    → 0 < p.total_weight
    → walk (random % p.total_weight) p.signers ≡ some i
    → weighted_select p random ≡ ok i
unfolding weighted_select random_range
weighted_select_lem p random positive hit =
    let nonzero : (p.total_weight == 0) ≡ false = ground arith in rw (nonzero, if◌then◌else◌, hit)

-- A weighted pool whose weights do not overflow a u32 always selects a signer by its weight: the
-- random number falls in the interval that the weights of the earlier signers and its own span, so
-- that a signer of weight 0 is never selected.
pub weighted_select-interval :
    (ss : List SignerWithMetadata) (p : SignerPool) (random : ℕ)
    → weights ss < 4294967296
    → from_config ss weighted ≡ ok p
    → (i : ℕ) × (s : SignerWithMetadata) × (weighted_select p random ≡ ok i)
      × (get_elem? p.signers i ≡ some s)
      × (weights (take i ss) ≤ random % weights ss)
      × (random % weights ss < weights (take i ss) + s.weight)
      × (0 < s.weight)
unfolding weighted_select random_range
weighted_select-interval ss p random small built =
    let (signers_eq, total, positive) = from_config-weighted ss p small built in
    let (i, s, hit, at_i, low, high) =
      walk-hits (random % weights ss) ss (mod-lt random positive) in
    (
      i,
      s,
      weighted_select_lem p random (rw total positive) (rw (total, signers_eq) hit),
      rw signers_eq at_i,
      low,
      high,
      omega arith,
    )

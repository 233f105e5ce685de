-- ===== src/Pool/Next.antt =====
-- A pool that was built always has a next signer (`get_next_signer` of
-- kora/crates/lib/src/signer/pool.rs).
use solus_protocol.Base.{
  ℕ, zero, suc, ◌%◌, ◌<◌, ◌≡◌, refl, sym, ap, subst, ◌∙◌, false, some, List, [], ◌∷◌, ◌==◌, nat_eq,
  arith, length, is_empty, get_elem?, get_elem?-lt, set, Bool-cases, inl, inr, if◌then◌else◌,
}
use native.Mathlib.Nat.{mod-lt}
use solus_protocol.Error.{ok, ok-injective}
use solus_protocol.Pool.{
  SignerWithMetadata, SignerPool, SelectionStrategy, round_robin, at_random, weighted, weights,
  sum_weights, from_config, round_robin_select, random_range, select_by, select_position,
  use_signer, get_next_signer,
}
use solus_protocol.Pool.Weighted.{weighted_select-interval}

from_config-signers :
    (ss : List SignerWithMetadata) (strategy : SelectionStrategy) (p : SignerPool)
    → from_config ss strategy ≡ ok p
    → (p.signers ≡ ss) × (p.strategy ≡ strategy) × (0 < length ss)
unfolding from_config
from_config-signers [] strategy p h = cc
from_config-signers (s ∷ ss) round_robin p h =
    let e = ok-injective h in
    (sym (ap (λ q. q.signers) e), sym (ap (λ q. q.strategy) e), omega arith)
from_config-signers (s ∷ ss) at_random p h =
    let e = ok-injective h in
    (sym (ap (λ q. q.signers) e), sym (ap (λ q. q.strategy) e), omega arith)
from_config-signers (s ∷ ss) weighted p h = elim (Bool-cases (sum_weights (s ∷ ss) == 0)) [
  | inl q ↦ absurd (cc (rw (q, if◌then◌else◌) at h))
  | inr q ↦
      let e = ok-injective (rw (q, if◌then◌else◌) at h) in
      (sym (ap (λ q. q.signers) e), sym (ap (λ q. q.strategy) e), omega arith)
]

lt-of_get_elem? :
    (ss : List SignerWithMetadata) (i : ℕ) {s : SignerWithMetadata}
    → get_elem? ss i ≡ some s
    → i < length ss
lt-of_get_elem? [] i h = cc
lt-of_get_elem? (s ∷ ss) zero h = omega arith
lt-of_get_elem? (s ∷ ss) (suc i) h = let below = lt-of_get_elem? ss i h in omega arith

-- Whatever the random number, the selected position is one of the pool's, and the signers stay.
select_by-lt :
    (ss : List SignerWithMetadata) (strategy : SelectionStrategy) (p : SignerPool) (random : ℕ)
    → weights ss < 4294967296
    → from_config ss strategy ≡ ok p
    → (i : ℕ) × (p' : SignerPool) × (select_by strategy p random ≡ ok (i, p'))
      × (i < length p.signers)
      × (p'.signers ≡ p.signers)
unfolding round_robin_select random_range
select_by-lt ss round_robin p random small built =
    let (same, _, some_signer) = from_config-signers ss round_robin p built in
    let positive : 0 < length p.signers = rw same some_signer in
    (
      p.current_index % length p.signers,
      (round_robin_select p).1,
      refl,
      mod-lt p.current_index positive,
      refl,
    )
select_by-lt ss at_random p random small built =
    let (same, _, some_signer) = from_config-signers ss at_random p built in
    let positive : 0 < length p.signers = rw same some_signer in
    let nonzero : (length p.signers == 0) ≡ false = ground arith in
    (random % length p.signers, p, rw (nonzero, if◌then◌else◌), mod-lt random positive, refl)
select_by-lt ss weighted p random small built =
    let (i, s, e, found, _, _, _) = weighted_select-interval ss p random small built in
    (i, p, rw e, lt-of_get_elem? p.signers i found, refl)

nonempty_of : (ss : List SignerWithMetadata) → 0 < length ss → is_empty ss ≡ false
nonempty_of [] h = absurd (omega arith)
nonempty_of (s ∷ ss) h = refl

use_lem :
    (p : SignerPool) (now i : ℕ) {s : SignerWithMetadata}
    → get_elem? p.signers i ≡ some s
    → use_signer p i now
      ≡ ok (s.signer, record p { signers = set p.signers i (record s { last_used = now }) })
unfolding use_signer
use_lem p now i found = rw (use_signer, found)

next_lem :
    (p : SignerPool) (random now : ℕ) {i : ℕ} {p' : SignerPool} {s : SignerWithMetadata}
    → is_empty p.signers ≡ false
    → select_by p.strategy p random ≡ ok (i, p')
    → get_elem? p'.signers i ≡ some s
    → get_next_signer p random now
      ≡ ok (s.signer, record p' { signers = set p'.signers i (record s { last_used = now }) })
unfolding get_next_signer select_position use_signer
next_lem p random now {i} {p'} {s} nonempty e found =
    rw (nonempty, if◌then◌else◌, e) (use_lem p' now i found)

-- A pool that was built, whose weights do not overflow a u32, always has a next signer, whatever
-- the random number: no strategy fails or leaves the pool; the time is recorded for the signer, and
-- all others stay as they were.
pub get_next_signer-ok :
    (ss : List SignerWithMetadata) (strategy : SelectionStrategy) (p : SignerPool) (random now : ℕ)
    → weights ss < 4294967296
    → from_config ss strategy ≡ ok p
    → (i : ℕ) × (s : SignerWithMetadata) × (p' : SignerPool) × (get_elem? ss i ≡ some s)
      × (get_next_signer p random now ≡ ok (s.signer, p'))
      × (p'.signers ≡ set ss i (record s { last_used = now }))
unfolding get_next_signer select_position use_signer
get_next_signer-ok ss strategy p random now small built =
    let (same, by, some_signer) = from_config-signers ss strategy p built in
    let (i, p', e, below, kept) = select_by-lt ss strategy p random small built in
    let (s, found) = get_elem?-lt p.signers i below in
    let nonempty : is_empty p.signers ≡ false = nonempty_of p.signers (rw same some_signer) in
    let used : SignerPool = record p' {
      signers = set p'.signers i (record s { last_used = now });
    } in
    (
      i,
      s,
      used,
      subst (λ l. get_elem? l i ≡ some s) same found,
      next_lem p random now nonempty (ap (λ y. select_by y p random) by ∙ e)
          (subst (λ l. get_elem? l i ≡ some s) (sym kept) found),
      ap (λ l. set l i (record s { last_used = now })) (kept ∙ same),
    )

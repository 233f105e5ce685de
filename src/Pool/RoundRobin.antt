-- ===== src/Pool/RoundRobin.antt =====
-- Round-robin selection takes the signers in turn.
use solus_protocol.Base.{ℕ, zero, suc, ◌+◌, ◌-◌, ◌%◌, ◌<◌, ◌≡◌, refl, sym, ap, ◌∙◌, arith, length}
use native.Mathlib.Nat.{mod-lt, add-mod-mod, mod-add-mod, add-mod_right, mod-eq_of_lt}
use solus_protocol.Pool.{SignerPool, round_robin_select}

-- The pool after a number of selections.
unfoldable pub after_rounds : ℕ → SignerPool → SignerPool
after_rounds zero p = p
after_rounds (suc n) p = after_rounds n (round_robin_select p).1

-- `selected n p` is the position that the selection after `n` selections takes.
abbrev pub selected : ℕ → SignerPool → ℕ
selected n p = (round_robin_select (after_rounds n p)).0

after_rounds-fields :
    (n : ℕ) (p : SignerPool)
    → p.current_index + n < 18446744073709551616
    → ((after_rounds n p).signers ≡ p.signers)
      × ((after_rounds n p).current_index ≡ p.current_index + n)
unfolding after_rounds round_robin_select
after_rounds-fields zero p h = (refl, omega arith)
after_rounds-fields (suc n) p h =
    let e : (p.current_index + 1) % 18446744073709551616 ≡ p.current_index + 1 = omega arith in
    let (s, c) = after_rounds-fields n (round_robin_select p).1 (omega arith) in
    (s, c ∙ omega arith)

-- The turns of a pool come in order: the selection after `n` selections takes the position
-- `(current_index + n) % length`, as long as the counter does not wrap.
pub selected-turn :
    (n : ℕ) (p : SignerPool)
    → p.current_index + n < 18446744073709551616
    → selected n p ≡ (p.current_index + n) % length p.signers
unfolding round_robin_select
selected-turn n p h = let (s, c) = after_rounds-fields n p h in rw (s, c)

-- Round robin is fair: in as many consecutive selections as the pool has signers, each position of
-- the pool is selected, as long as the counter does not wrap.
pub selected-fair :
    (p : SignerPool) (i : ℕ)
    → i < length p.signers
    → p.current_index + length p.signers < 18446744073709551616
    → (n : ℕ) × (n < length p.signers) × (selected n p ≡ i)
selected-fair p i h small =
    let k = length p.signers in
    let r = p.current_index % k in
    let below : r < k = mod-lt p.current_index (omega arith) in
    let n = (i + k - r) % k in
    let n_below : n < k = mod-lt (i + k - r) (omega arith) in
    let around : r + (i + k - r) ≡ i + k = omega arith in
    let turn : (p.current_index + n) % k ≡ i =
      add-mod-mod p.current_index (i + k - r) k
      ∙ sym (mod-add-mod p.current_index k (i + k - r))
      ∙ ap (λ x. x % k) around
      ∙ add-mod_right i k
      ∙ mod-eq_of_lt h in
    (n, n_below, selected-turn n p (omega arith) ∙ turn)

-- ===== src/Tests/Pool.antt =====
-- A pool of three signers, one of them of weight 0.
use solus_protocol.Base.{
  ℕ, List, [], ◌∷◌, some, ◌+◌, ◌%◌, ◌≤◌, ◌<◌, ◌≡◌, refl, arith, length, set, take, get_elem?,
}
use solus_protocol.Error.{ok}
use solus_protocol.Pool.{
  SignerWithMetadata, SignerPool, round_robin, weighted, weights, from_config, weighted_select,
  get_next_signer,
}
use solus_protocol.Pool.RoundRobin.{selected, selected-fair}
use solus_protocol.Pool.Next.{get_next_signer-ok}
use solus_protocol.Pool.Weighted.{weighted_select-interval}

abbrev signer : ℕ → ℕ → SignerWithMetadata
signer k w = record { name = "signer"; signer = k; weight = w; last_used = 0 }

abbrev three_signers : List SignerWithMetadata
three_signers = signer 1 2 ∷ signer 2 0 ∷ signer 3 5 ∷ []

abbrev in_turn : SignerPool
in_turn = record {
  signers = three_signers;
  strategy = round_robin;
  current_index = 5;
  total_weight = 7;
}

abbrev by_weight : SignerPool
by_weight = record {
  signers = three_signers;
  strategy = weighted;
  current_index = 0;
  total_weight = 7;
}

selected-fair_example : (n : ℕ) × (n < length in_turn.signers) × (selected n in_turn ≡ 1)
selected-fair_example = selected-fair in_turn 1 (omega arith) (omega arith)

by_weight_built : from_config three_signers weighted ≡ ok by_weight
unfolding from_config
by_weight_built = refl

weighted_select-interval_example :
    (i : ℕ) × (s : SignerWithMetadata) × (weighted_select by_weight 9 ≡ ok i)
    × (get_elem? by_weight.signers i ≡ some s)
    × (weights (take i three_signers) ≤ 9 % weights three_signers)
    × (9 % weights three_signers < weights (take i three_signers) + s.weight)
    × (0 < s.weight)
weighted_select-interval_example =
    weighted_select-interval three_signers by_weight 9 (omega arith) by_weight_built

get_next_signer-ok_example :
    (i : ℕ) × (s : SignerWithMetadata) × (p' : SignerPool) × (get_elem? three_signers i ≡ some s)
    × (get_next_signer by_weight 9 1700 ≡ ok (s.signer, p'))
    × (p'.signers ≡ set three_signers i (record s { last_used = 1700 }))
get_next_signer-ok_example =
    get_next_signer-ok three_signers weighted by_weight 9 1700 (omega arith) by_weight_built

-- ===== src/Token/Order.antt =====
-- The value of token transfers depends on the order in which the hash map of their mints is walked
-- (`calculate_spl_transfers_value_in_lamports` of kora/crates/lib/src/token/token.rs): inflow that is
-- met first is subtracted from 0.
use solus_protocol.Base.{
  ℕ, ◌-◌, ◌≤◌, ◌≡◌, ◌≢◌, refl, sym, String, true, false, some, List, [], ◌∷◌, u64_max, arith,
  nat_eq,
}
use solus_protocol.Error.{ok}
use solus_protocol.Instruction.{Pubkey}
use solus_protocol.External.{External}
use solus_protocol.Parse.{SplTransfer}
use solus_protocol.Oracle.{Prices, get_token_prices, attempt_from}
use solus_protocol.Token.Accounts.{get_mint_decimals}
use solus_protocol.Token.Value.{value_in_lamports}
use solus_protocol.Token.Outflow.{
  Groups, find_decimals, group_transfers, add_transfers, add_groups,
  calculate_spl_transfers_value_in_lamports,
}

abbrev pub in_order : Groups → Groups
in_order groups = groups

-- The two groups the other way round.
abbrev pub swapped : Groups → Groups
swapped (g ∷ h ∷ []) = h ∷ g ∷ []
swapped groups = groups

module _ {F D : Type 0} (x : External F D) (m n : Pubkey) (a b v w dm dn : ℕ) (prices : Prices D)
    (pm pn : D) where
  -- The feed has both prices, the mints their decimals, and the two amounts their values.
  pub record IsPriced : Type 0 where
    pub distinct : m ≢ n
    pub feed : (ms : List String) → x.get_prices 0 ms ≡ ok prices
    pub price_m : prices (x.to_string m) ≡ some pm
    pub price_n : prices (x.to_string n) ≡ some pn
    pub decimals_m : get_mint_decimals x m ≡ ok dm
    pub decimals_n : get_mint_decimals x n ≡ ok dn
    pub value_m : value_in_lamports x a pm dm ≡ ok v
    pub value_n : value_in_lamports x b pn dn ≡ ok w
    pub fits : v ≤ u64_max

  module _ (h : IsPriced) where
    add_outflow : (t : ℕ) → t ≡ 0 → add_transfers x pm dm ((a, true) ∷ []) t ≡ ok v
    unfolding add_transfers
    add_outflow t z = ground (arith, h.value_m, h.fits)

    add_inflow : (t : ℕ) → add_transfers x pn dn ((b, false) ∷ []) t ≡ ok (t - w)
    unfolding add_transfers
    add_inflow t = ground (arith, h.value_n)

    found :
        (i j : Pubkey) (c d : ℕ)
        → i ≢ j
        → (find_decimals i ((i, c) ∷ (j, d) ∷ []) ≡ some c)
          × (find_decimals j ((i, c) ∷ (j, d) ∷ []) ≡ some d)
    found i j c d ne = ground arith

    out_then_in :
        add_groups x prices
          ((m, dm) ∷ (n, dn) ∷ [])
          ((m, (a, true) ∷ []) ∷ (n, (b, false) ∷ []) ∷ [])
          0
        ≡ ok (v - w)
    unfolding add_groups
    out_then_in =
        let f = found m n dm dn h.distinct in
        rw (h.price_m, f.0, add_outflow 0 refl, h.price_n, f.1, add_inflow v)

    in_then_out :
        add_groups x prices
          ((n, dn) ∷ (m, dm) ∷ [])
          ((n, (b, false) ∷ []) ∷ (m, (a, true) ∷ []) ∷ [])
          0
        ≡ ok v
    unfolding add_groups
    in_then_out =
        let f = found n m dn dm (λ q. h.distinct (sym q)) in
        rw (h.price_n, f.0, add_inflow 0, h.price_m, f.1, add_outflow (0 - w) (omega arith))

    feed_first : (k : String) (ks : List String) → get_token_prices x 3 (k ∷ ks) ≡ ok prices
    unfolding get_token_prices attempt_from
    feed_first k ks = rw (h.feed (k ∷ ks), attempt_from)

    -- Token transfers that take an amount of one mint from the fee payer, worth `v` lamports, and
    -- give it an amount of another, worth `w`, count for `v - w` lamports or for `v`, as the hash
    -- map is walked, where the feed and the mints answer and `v` fits a u64.
    pub transfers_value-order :
        (fee_payer : Pubkey) (ts : List SplTransfer)
        → group_transfers x fee_payer ts [] ≡ ok ((m, (a, true) ∷ []) ∷ (n, (b, false) ∷ []) ∷ [])
        → (calculate_spl_transfers_value_in_lamports x in_order fee_payer ts ≡ ok (v - w))
          × (calculate_spl_transfers_value_in_lamports x swapped fee_payer ts ≡ ok v)
    unfolding calculate_spl_transfers_value_in_lamports
    transfers_value-order fee_payer ts g = (
      rw g (rw feed_first (rw (h.decimals_m, h.decimals_n) out_then_in)),
      rw g (rw feed_first (rw (h.decimals_n, h.decimals_m) in_then_out)),
    )

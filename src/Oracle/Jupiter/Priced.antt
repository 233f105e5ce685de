-- ===== src/Oracle/Jupiter/Priced.antt =====
-- The prices that Jupiter's feed yields.
use solus_protocol.Base.{
  String, true, false, Option, none, some, List, [], ◌∷◌, ◌≡◌, ◌≢◌, inl, inr, refl, subst, ◌==◌,
  string_eq, Bool-cases, All, is_empty, arith,
}
use solus_protocol.Error.{
  ok, rpc_error, panicked, ok_or, fail_if, >>=-eq-ok, ok_or-eq-ok, ok-injective,
}
use solus_protocol.Oracle.Jupiter.{
  Floats, Reply, unreachable, failed, unparsed, answered, PriceTable, sol_mint, validate_price_data,
  validate_division, price_in_sol, convert_all, convert_reply, fetch_prices, get_prices, price_at,
}

module _ {F D : Type 0} (f : Floats F D) where
  -- Finite, positive and between the bounds.
  abbrev pub IsReasonable : F → Type 0
  IsReasonable price =
      (f.is_finite price ≡ true)
      × (f.at_most_zero price ≡ false)
      × (f.above_maximum price ≡ false)
      × (f.below_minimum price ≡ false)

  -- The quotient of the mint's price and that of SOL, both in dollars and reasonable.
  abbrev pub IsPrice : (String → Option F) → String → D → Type 0
  IsPrice response mint price =
      (usd : F) × (sol : F) × (token_usd : D) × (sol_usd : D) × (response mint ≡ some usd)
      × (response sol_mint ≡ some sol)
      × IsReasonable usd
      × IsReasonable sol
      × (f.from_f64_retain usd ≡ some token_usd)
      × (f.from_f64_retain sol ≡ some sol_usd)
      × (f.divide token_usd sol_usd ≡ some price)

  validate_price_data-IsReasonable :
      (price : F) → validate_price_data f price ≡ ok tt → IsReasonable price
  unfolding validate_price_data validate_division
  validate_price_data-IsReasonable price h = ground arith

  added : (m : String) (p : D) (t : PriceTable D) → price_at ((m, p) ∷ t) m ≢ none
  unfolding price_at
  added m p t e = let same = (string_eq.equal_iff m m).1 refl in ground arith

  kept :
      (m k : String) (p : D) (t : PriceTable D)
      → price_at t k ≢ none
      → price_at ((m, p) ∷ t) k ≢ none
  unfolding price_at
  kept m k p t n e = elim (Bool-cases (m == k)) [
    | inl same ↦ ground arith
    | inr other ↦ n (ground arith)
  ]

  module _ (response : String → Option F) (sol : F) (listed : response sol_mint ≡ some sol)
      (reasonable : IsReasonable sol) where
    price_in_sol-IsPrice :
        (mint : String) (price : D)
        → price_in_sol f response sol mint ≡ ok price
        → IsPrice response mint price
    unfolding price_in_sol
    price_in_sol-IsPrice mint price h =
        let (usd, h₁, k₁) = >>=-eq-ok (ok_or (response mint) rpc_error) _ {b = price} h in
        let (u, h₂, k₂) = >>=-eq-ok (validate_price_data f usd) _ {b = price} k₁ in
        let (t, h₃, k₃) = >>=-eq-ok (ok_or (f.from_f64_retain usd) rpc_error) _ {b = price} k₂ in
        let (s, h₄, k₄) = >>=-eq-ok (ok_or (f.from_f64_retain sol) rpc_error) _ {b = price} k₃ in
        (
          usd,
          sol,
          t,
          s,
          ok_or-eq-ok (response mint) rpc_error h₁,
          listed,
          validate_price_data-IsReasonable usd h₂,
          reasonable,
          ok_or-eq-ok (f.from_f64_retain usd) rpc_error h₃,
          ok_or-eq-ok (f.from_f64_retain sol) rpc_error h₄,
          ok_or-eq-ok (f.divide t s) panicked k₄,
        )

    abbrev AllPrices : PriceTable D → Type 0
    AllPrices t = (k : String) (p : D) → price_at t k ≡ some p → IsPrice response k p

    price_at-cons :
        (m : String) (p : D) (t : PriceTable D)
        → IsPrice response m p
        → AllPrices t
        → AllPrices ((m, p) ∷ t)
    unfolding price_at
    price_at-cons m p t h hs k q e = elim (Bool-cases (m == k)) [
      | inl same ↦
          let keys : m ≡ k = (string_eq.equal_iff m k).0 same in
          let found : p ≡ q = ground arith in
          subst (λ j. IsPrice response j q) keys (subst (IsPrice response m) found h)
      | inr other ↦ hs k q (ground arith)
    ]

    -- The loop keeps the table's entries prices and its keys, and adds the mints.
    convert_all-AllPrices :
        (mints : List String) (t t' : PriceTable D)
        → convert_all f response sol mints t ≡ ok t'
        → AllPrices t
        → AllPrices t'
          × ((k : String) → price_at t k ≢ none → price_at t' k ≢ none)
          × All (λ m. price_at t' m ≢ none) mints
    unfolding convert_all
    convert_all-AllPrices [] t t' h hs =
        let same : t ≡ t' = ok-injective h in
        (subst AllPrices same hs, λ k n. subst (λ u. price_at u k ≢ none) same n, tt)
    convert_all-AllPrices (m ∷ mints) t t' h hs =
        let (p, h₁, k₁) = >>=-eq-ok (price_in_sol f response sol m) _ {b = t'} h in
        let (a, keep, rest) =
          convert_all-AllPrices mints ((m, p) ∷ t) t' k₁
            (price_at-cons m p t (price_in_sol-IsPrice m p h₁) hs) in
        (a, λ k n. keep k (kept m k p t n), (keep m (added m p t), rest))

  no_prices :
      (response : String → Option F) (k : String) (p : D)
      → price_at [] k ≡ some p
      → IsPrice response k p
  unfolding price_at
  no_prices response k p e = ground arith

  -- The reply that a result was read from.
  convert_reply-AllPrices :
      (reply : Reply F) (mints : List String) (t : PriceTable D)
      → convert_reply f reply mints ≡ ok t
      → (response : String → Option F) × (reply ≡ answered response)
        × ((k : String) (p : D) → price_at t k ≡ some p → IsPrice response k p)
        × All (λ m. price_at t m ≢ none) mints
  unfolding convert_reply
  convert_reply-AllPrices unreachable mints t h = ground arith
  convert_reply-AllPrices (failed status) mints t h = ground arith
  convert_reply-AllPrices unparsed mints t h = ground arith
  convert_reply-AllPrices (answered response) mints t h =
      let (sol, h₁, k₁) = >>=-eq-ok (ok_or (response sol_mint) rpc_error) _ {b = t} h in
      let (u, h₂, k₂) = >>=-eq-ok (validate_price_data f sol) _ {b = t} k₁ in
      let (t', h₃, k₃) = >>=-eq-ok (convert_all f response sol mints []) _ {b = t} k₂ in
      let (v, h₄, k₄) = >>=-eq-ok (fail_if (is_empty t') rpc_error) (λ _. ok t') {b = t} k₃ in
      let same : t' ≡ t = ok-injective k₄ in
      let (a, _, m) =
        convert_all-AllPrices response sol (ok_or-eq-ok (response sol_mint) rpc_error h₁)
          (validate_price_data-IsReasonable sol h₂) mints [] t' h₃ (no_prices response) in
      (
        response,
        refl,
        subst (λ t. (k : String) (p : D) → price_at t k ≡ some p → IsPrice response k p) same a,
        subst (λ t. All (λ m. price_at t m ≢ none) mints) same m,
      )

  -- Whenever Jupiter's feed answers a query for at least one mint, a reply to the query that also
  -- asks for SOL gave the prices: every mint of the query has one, and each price is the quotient
  -- of the mint's and SOL's prices in dollars, both of them finite, positive and within the bounds.
  pub get_prices-AllPrices :
      (send : List String → Reply F) (mint : String) (mints : List String) (t : PriceTable D)
      → get_prices f send (mint ∷ mints) ≡ ok t
      → (response : String → Option F) × (send (sol_mint ∷ mint ∷ mints) ≡ answered response)
        × ((k : String) (p : D) → price_at t k ≡ some p → IsPrice response k p)
        × All (λ m. price_at t m ≢ none) (mint ∷ mints)
  unfolding get_prices fetch_prices
  get_prices-AllPrices send mint mints t h =
      convert_reply-AllPrices (send (sol_mint ∷ mint ∷ mints)) (mint ∷ mints) t h

-- ===== src/Fee/Margin.antt =====
-- What the margin model of kora/crates/lib/src/fee/price.rs charges.
use solus_protocol.Base.{ℕ, String, Bool, Option, some, ◌≤◌, ◌≡◌, sym, ap, ◌∙◌, arith}
use mathlib.Core.Option.{some-injective}
use solus_protocol.Error.{ok, validation_error, ok_or, ok_or-eq-ok, >>=-eq-ok, ok-injective}
use solus_protocol.Instruction.{Pubkey}
use solus_protocol.Config.{margin}
use solus_protocol.External.{External, Decimals}
use solus_protocol.Transaction.{Resolved}
use solus_protocol.Token.Value.{and_then}
use solus_protocol.Token.Outflow.{Groups}
use solus_protocol.Fee.Calculation.{TotalFeeCalculation}
use solus_protocol.Fee.Outflow.{calculate_fee_payer_outflow}
use solus_protocol.Fee.Price.{get_required_lamports_with_margin}
use solus_protocol.Fee.Estimate.{estimate_transaction_fee, estimate_kora_fee}
use solus_protocol.Fee.Total.{parts, and_then-eq_some, estimate_transaction_fee-total}

-- What the margin relies on of `rust_decimal`, for an order `le` of its values: its operations are
-- monotone, and the conversion to a u64 keeps the order to the conversion from one.
pub record IsMonotone {F D : Type 0} (decimals : Decimals F D) (le : D → D → Type 0) : Type 0 where
  pub add_nonnegative :
      (zero_decimal one m sum : D)
      → decimals.from_u64 0 ≡ some zero_decimal
      → decimals.from_u64 1 ≡ some one
      → le zero_decimal m
      → decimals.checked_add one m ≡ some sum
      → le one sum
  pub mul_at_least_one :
      (one multiplier a product : D) (n : ℕ)
      → decimals.from_u64 1 ≡ some one
      → decimals.from_u64 n ≡ some a
      → le one multiplier
      → decimals.checked_mul a multiplier ≡ some product
      → le a product
  pub le_ceil : (a b : D) → le a b → le a (decimals.ceil b)
  pub le_to_u64 :
      (a b : D) (n m : ℕ)
      → decimals.from_u64 n ≡ some a
      → le a b
      → decimals.to_u64 b ≡ some m
      → n ≤ m

module _ {F D : Type 0} (x : External F D) (le : D → D → Type 0)
    (monotone : IsMonotone x.decimals le) where
  open x use {decimals}
  open monotone use {add_nonnegative, mul_at_least_one, le_ceil, le_to_u64}

  -- A margin that is not negative never lowers the fee.
  pub with_margin-ge :
      (m : F) (n : ℕ) (zero_decimal margin_decimal : D) {k : ℕ}
      → decimals.from_u64 0 ≡ some zero_decimal
      → decimals.from_f64 m ≡ some margin_decimal
      → le zero_decimal margin_decimal
      → get_required_lamports_with_margin x (margin m) n ≡ ok k
      → n ≤ k
  unfolding get_required_lamports_with_margin
  with_margin-ge m n z d {k} ez ed nonnegative h =
      let (d', e1, h1) = >>=-eq-ok (ok_or (decimals.from_f64 m) validation_error) _ h in
      let same : d ≡ d' =
        some-injective d d' (sym ed ∙ ok_or-eq-ok (decimals.from_f64 m) validation_error e1) in
      let (mult, e2, h2) =
        >>=-eq-ok
          (ok_or (and_then (decimals.from_u64 1) (λ one. decimals.checked_add one d'))
            validation_error)
          _ h1 in
      let (result, e3, h3) =
        >>=-eq-ok
          (ok_or (and_then (decimals.from_u64 n) (λ fee. decimals.checked_mul fee mult))
            validation_error)
          _ h2 in
      let (one, o1, o2) =
        and_then-eq_some (decimals.from_u64 1) (λ one. decimals.checked_add one d')
          (ok_or-eq-ok _ validation_error e2) in
      let (fee, f1, f2) =
        and_then-eq_some (decimals.from_u64 n) (λ fee. decimals.checked_mul fee mult)
          (ok_or-eq-ok _ validation_error e3) in
      let above : le one mult =
        add_nonnegative z one d mult ez o1 nonnegative (ap (decimals.checked_add one) same ∙ o2) in
      le_to_u64 fee (decimals.ceil result) n k f1
        (le_ceil fee result (mul_at_least_one one mult fee result n o1 f1 above f2))
        (ok_or-eq-ok _ validation_error h3)

  -- Under the margin model, with a margin that is not negative and decimals whose operations are
  -- monotone, the lamports that a transaction must pay cover the network fee, the signature fee,
  -- the outflow from the fee payer, the fee of the payment instruction and the transfer fees
  -- together.
  pub estimate_kora_fee-covers :
      (iteration : Groups → Groups) (m : F) (payment_address : Option String) (r : Resolved)
      (fee_payer : Pubkey) (required : Bool) (zero_decimal margin_decimal : D)
      {c : TotalFeeCalculation}
      → decimals.from_u64 0 ≡ some zero_decimal
      → decimals.from_f64 m ≡ some margin_decimal
      → le zero_decimal margin_decimal
      → estimate_kora_fee x iteration (margin m) payment_address r fee_payer required ≡ ok c
      → (parts c ≤ c.total_fee_lamports)
        × (x.get_fee_for_message r.transaction ≡ some c.base_fee)
        × (calculate_fee_payer_outflow x iteration fee_payer r.all_instructions
            ≡ ok c.fee_payer_outflow)
  unfolding estimate_kora_fee
  estimate_kora_fee-covers iteration m address r fee_payer required z d {c} ez ed nonnegative h =
      let (c', e1, h1) =
        >>=-eq-ok (estimate_transaction_fee x iteration address r fee_payer required) _ h in
      let (total, e2, h2) =
        >>=-eq-ok (get_required_lamports_with_margin x (margin m) c'.total_fee_lamports) _ h1 in
      let (sum, small, base, kora, outflow) =
        estimate_transaction_fee-total x iteration address r fee_payer required e1 in
      let raised = with_margin-ge m c'.total_fee_lamports z d ez ed nonnegative e2 in
      rw (sym (ok-injective h2)) (omega (arith, sum, raised), base, outflow)

-- ===== src/Signing/Costs.antt =====
-- What a signed transaction costs the fee payer, against what it is paid
-- (kora/crates/lib/src/transaction/versioned_transaction.rs and kora/crates/lib/src/fee/fee.rs).
use solus_protocol.Base.{ℕ, ◌+◌, ◌≤◌, ◌≡◌, ◌⊎◌, inl, inr, subst, String, Option, some, List, arith}
use solus_protocol.Error.{ok}
use solus_protocol.Config.{ValidationConfig, margin, is_payment_required}
use solus_protocol.External.{External}
use solus_protocol.Parse.{SystemEntry, read_system}
use solus_protocol.Parse.Content.{collect}
use solus_protocol.Transaction.{VersionedTransaction, Resolved}
use solus_protocol.Token.Outflow.{Groups}
use solus_protocol.Fee.Calculation.{TotalFeeCalculation}
use solus_protocol.Fee.Bounds.{paid, received, total_of, calculate_fee_payer_outflow-bounds}
use solus_protocol.Fee.Estimate.{estimate_kora_fee}
use solus_protocol.Fee.Margin.{IsMonotone, estimate_kora_fee-covers}
use solus_protocol.Signing.{Wallet, sign_transaction}
use solus_protocol.Signing.Soundness.{IsPaid, sign_transaction-IsSigned}

module _ {F D : Type 0} (x : External F D) (le : D → D → Type 0)
    (monotone : IsMonotone x.decimals le) (iteration : Groups → Groups)
    (next_iteration : Groups → Groups) (config : ValidationConfig F)
    (payment_address : Option String) (w : Wallet) where
  -- The network fee and the lamports that the instructions of the System program take from the fee payer,
  -- against a payment and what those instructions give to it.
  abbrev pub CostsAtMost : Resolved → ℕ → Type 0
  CostsAtMost r payment =
      (es : List SystemEntry) × (fee : ℕ) × (collect (read_system x.programs) r.all_instructions
        ≡ ok es)
      × (x.get_fee_for_message r.transaction ≡ some fee)
      × (fee + total_of (λ e. paid w.pubkey e.1) es
          ≤ payment + total_of (λ e. received w.pubkey e.1) es)

  estimate-costs :
      (r : Resolved) (c : TotalFeeCalculation) (m : F) (zero_decimal margin_decimal : D)
      → config.price ≡ margin m
      → x.decimals.from_u64 0 ≡ some zero_decimal
      → x.decimals.from_f64 m ≡ some margin_decimal
      → le zero_decimal margin_decimal
      → estimate_kora_fee x next_iteration config.price payment_address r w.pubkey
          (is_payment_required config)
        ≡ ok c
      → CostsAtMost r c.total_fee_lamports
  estimate-costs r c m z d price ez ed nonnegative h =
      let priced =
        subst
          (λ q.
            estimate_kora_fee x next_iteration q payment_address r w.pubkey
              (is_payment_required config)
            ≡ ok c)
          price h in
      let (covered, fee, outflow) =
        estimate_kora_fee-covers x le monotone next_iteration m payment_address r w.pubkey
          (is_payment_required config) z d ez ed nonnegative priced in
      let (es, e, b, _) =
        calculate_fee_payer_outflow-bounds x next_iteration w.pubkey r.all_instructions outflow in
      (es, c.base_fee, e, fee, omega arith)

  -- Under the margin model, with a margin that is not negative and decimals whose operations are
  -- monotone, signing does not cost the fee payer more lamports than it gets: for every transaction
  -- that is signed, the network fee and what the System instructions take from the fee payer are at
  -- most what these instructions give to it, or at most that and an amount for which the
  -- transaction holds token payments of that worth to the payment address, in accepted tokens.
  pub sign_transaction-CostsAtMost :
      (r : Resolved) (m : F) (zero_decimal margin_decimal : D) {t : VersionedTransaction}
      {encoded : String}
      → config.price ≡ margin m
      → x.decimals.from_u64 0 ≡ some zero_decimal
      → x.decimals.from_f64 m ≡ some margin_decimal
      → le zero_decimal margin_decimal
      → sign_transaction x iteration next_iteration config payment_address w r ≡ ok (t, encoded)
      → CostsAtMost r 0
        ⊎ ((required : ℕ) × CostsAtMost r required
            × IsPaid x iteration next_iteration config payment_address w r required)
  sign_transaction-CostsAtMost r m z d price ez ed nonnegative h =
      let signed =
        sign_transaction-IsSigned x iteration next_iteration config payment_address w r h in
      let c = signed.1 in
      let costs = estimate-costs r c m z d price ez ed nonnegative signed.7 in
      elim signed.8 [
        | inl nothing ↦ inl (subst (CostsAtMost r) nothing costs)
        | inr both ↦ inr (c.total_fee_lamports, costs, both.0)
      ]

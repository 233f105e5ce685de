-- ===== src/Fee/Total.antt =====
-- The estimate of kora/crates/lib/src/fee/fee.rs is the sum of its parts.
use solus_protocol.Base.{
  ℕ, String, Bool, not, ◌&&◌, Option, none, some, ◌+◌, ◌≤◌, ◌≡◌, refl, sym, ap, ◌∙◌, if◌then◌else◌,
  checked_add, checked_add-eq_some, u64_max, arith,
}
use solus_protocol.Error.{ok, validation_error, rpc_error, ok_or-eq-ok, >>=-eq-ok, ok-injective}
use solus_protocol.Instruction.{Pubkey}
use solus_protocol.External.{External}
use solus_protocol.Transaction.{Resolved}
use solus_protocol.Token.Value.{and_then}
use solus_protocol.Token.Outflow.{Groups}
use solus_protocol.Fee.Calculation.{TotalFeeCalculation, checked_sum}
use solus_protocol.Fee.Outflow.{calculate_fee_payer_outflow, spl_transfers}
use solus_protocol.Config.{get_payment_address}
use solus_protocol.Base.Table.{get_or_empty}
use solus_protocol.Parse.{parse_token_instructions, spl_transfer, spl_type_eq}
use solus_protocol.Fee.Payment.{analyze_payment_instructions}
use solus_protocol.Fee.Estimate.{
  estimate_transaction_fee, get_estimate_fee_resolved, is_fee_payer_in_signers,
}

abbrev pub parts : TotalFeeCalculation → ℕ
parts c =
    c.base_fee + c.kora_signature_fee + c.fee_payer_outflow + c.payment_instruction_fee
    + c.transfer_fee_amount

pub and_then-eq_some :
    {A B : Type 0} (o : Option A) (f : A → Option B) {b : B}
    → and_then o f ≡ some b
    → (a : A) × (o ≡ some a) × (f a ≡ some b)
and_then-eq_some none f h = cc
and_then-eq_some (some a) f h = (a, refl, h)

add-eq_some :
    (o : Option ℕ) (n : ℕ) {t : ℕ}
    → and_then o (λ sum. checked_add sum n) ≡ some t
    → (m : ℕ) × (o ≡ some m) × (t ≡ m + n) × (t ≤ u64_max)
add-eq_some o n {t} h =
    let (m, e, h') = and_then-eq_some o (λ sum. checked_add sum n) {b = t} h in
    let c = checked_add-eq_some m n t h' in (m, e, c.0, omega arith)

pub checked_sum-eq_ok :
    (a b c d e : ℕ) {t : ℕ} → checked_sum a b c d e ≡ ok t → (t ≡ a + b + c + d + e) × (t ≤ u64_max)
checked_sum-eq_ok a b c d e {t} h =
    let ab = checked_add a b in
    let abc = and_then ab (λ sum. checked_add sum c) in
    let abcd = and_then abc (λ sum. checked_add sum d) in
    let all = and_then abcd (λ sum. checked_add sum e) in
    let (n, p, q, small) = add-eq_some abcd e {t = t} (ok_or-eq-ok all validation_error h) in
    let (m, r, s, _) = add-eq_some abc d {t = n} p in
    let (k, u, v, _) = add-eq_some ab c {t = m} r in
    let w = checked_add-eq_some a b k u in (omega arith, small)

-- The calculation that the estimate builds from its parts.
assembled :
    (base kora outflow payment transfer : ℕ) {total : ℕ} {c : TotalFeeCalculation}
    → checked_sum base kora outflow payment transfer ≡ ok total
    → ok (record {
      total_fee_lamports = total;
      base_fee = base;
      kora_signature_fee = kora;
      fee_payer_outflow = outflow;
      payment_instruction_fee = payment;
      transfer_fee_amount = transfer;
    })
      ≡ ok c
    → (c.total_fee_lamports ≡ parts c)
      × (c.total_fee_lamports ≤ 18446744073709551615)
      × (c.base_fee ≡ base)
      × (c.kora_signature_fee ≡ kora)
      × (c.fee_payer_outflow ≡ outflow)
assembled base kora outflow payment transfer s h =
    let (sum, small) = checked_sum-eq_ok base kora outflow payment transfer s in
    rw (sym (ok-injective h)) (sum, small, refl, refl, refl)

module _ {F D : Type 0} (x : External F D) (iteration : Groups → Groups) where
  -- A successful estimate is the sum of its five parts and fits a u64; the first part is the fee of
  -- the network for the transaction, the second is 5000 unless the fee payer is among the signers,
  -- and the third is the computed outflow.
  pub estimate_transaction_fee-total :
      (payment_address : Option String) (r : Resolved) (fee_payer : Pubkey) (required : Bool)
      {c : TotalFeeCalculation}
      → estimate_transaction_fee x iteration payment_address r fee_payer required ≡ ok c
      → (c.total_fee_lamports ≡ parts c)
        × (c.total_fee_lamports ≤ 18446744073709551615)
        × (x.get_fee_for_message r.transaction ≡ some c.base_fee)
        × (c.kora_signature_fee ≡ (if not (is_fee_payer_in_signers r fee_payer) then 5000 else 0))
        × (calculate_fee_payer_outflow x iteration fee_payer r.all_instructions
            ≡ ok c.fee_payer_outflow)
  unfolding estimate_transaction_fee get_estimate_fee_resolved
  estimate_transaction_fee-total payment_address r fee_payer required {c} h =
      let (base, e1, h1) = >>=-eq-ok (get_estimate_fee_resolved x iteration r) _ h in
      let (outflow, e2, h2) =
        >>=-eq-ok (calculate_fee_payer_outflow x iteration fee_payer r.all_instructions) _ h1 in
      let (destination, e3, h3) =
        >>=-eq-ok (get_payment_address x.from_str payment_address fee_payer) _ h2 in
      let (table, e4, h4) =
        >>=-eq-ok (parse_token_instructions x.programs r.all_instructions) _ h3 in
      let (analysis, e5, h5) =
        >>=-eq-ok
          (analyze_payment_instructions x destination
            (spl_transfers (get_or_empty spl_transfer table)))
          _ h4 in
      let kora = (if not (is_fee_payer_in_signers r fee_payer) then 5000 else 0) in
      let payment = (if required && not analysis.0 then 50 else 0) in
      let (total, e6, h6) = >>=-eq-ok (checked_sum base kora outflow payment analysis.1) _ h5 in
      let (sum, small, b, k, o) = assembled base kora outflow payment analysis.1 e6 h6 in
      (
        sum,
        small,
        ok_or-eq-ok (x.get_fee_for_message r.transaction) rpc_error e1 ∙ ap some (sym b),
        k,
        e2 ∙ ap ok (sym o),
      )

-- ===== src/Fee/Calculation.antt =====
-- `TotalFeeCalculation` of kora/crates/lib/src/fee/fee.rs.
use solus_protocol.Base.{ℕ, checked_add}
use solus_protocol.Error.{Result, validation_error, ok_or}
use solus_protocol.Token.Value.{and_then}

pub record TotalFeeCalculation : Type 0 where
  pub total_fee_lamports : ℕ
  pub base_fee : ℕ
  pub kora_signature_fee : ℕ
  pub fee_payer_outflow : ℕ
  pub payment_instruction_fee : ℕ
  pub transfer_fee_amount : ℕ

abbrev pub new_fixed : ℕ → TotalFeeCalculation
new_fixed total = record {
  total_fee_lamports = total;
  base_fee = 0;
  kora_signature_fee = 0;
  fee_payer_outflow = 0;
  payment_instruction_fee = 0;
  transfer_fee_amount = 0;
}

-- The chain of `checked_add` that sums the five parts.
abbrev pub checked_sum : ℕ → ℕ → ℕ → ℕ → ℕ → Result ℕ
checked_sum base_fee kora_signature_fee fee_payer_outflow payment_instruction_fee
      transfer_fee_amount =
    ok_or
      (and_then
        (and_then
          (and_then (checked_add base_fee kora_signature_fee)
            (λ sum. checked_add sum fee_payer_outflow))
          (λ sum. checked_add sum payment_instruction_fee))
        (λ sum. checked_add sum transfer_fee_amount))
      validation_error

unfoldable pub get_total_fee_lamports : TotalFeeCalculation → Result ℕ
get_total_fee_lamports c =
    checked_sum c.base_fee c.kora_signature_fee c.fee_payer_outflow c.payment_instruction_fee
      c.transfer_fee_amount

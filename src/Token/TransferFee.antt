-- ===== src/Token/TransferFee.antt =====
-- `Token2022Mint::calculate_transfer_fee` of kora/crates/lib/src/token/spl_token_2022.rs.
use solus_protocol.Base.{
  ℕ, ◌+◌, ◌*◌, ◌/◌, ◌≤◌, ◌<◌, min, ◌≡◌, ◌⊎◌, inl, inr, Option, none, some, ltb, leb, Bool-cases,
  false, u64_max, if◌then◌else◌, arith,
}
use native.Mathlib.Nat.{mul-le-mul_left}
use solus_protocol.Error.{Result, ok, err, validation_error}
use solus_protocol.External.{Mint, TransferFee, TransferFeeConfig}

-- The fee that holds in an epoch.
unfoldable pub fee_in_epoch : TransferFeeConfig → ℕ → TransferFee
fee_in_epoch c current_epoch =
    if leb c.newer_transfer_fee.epoch current_epoch
    then c.newer_transfer_fee
    else c.older_transfer_fee

-- The product of a u64 and a u16 fits a u128, so `checked_mul` gives it.
unfoldable pub calculate_transfer_fee : Mint → ℕ → ℕ → Result (Option ℕ)
unfolding fee_in_epoch
calculate_transfer_fee m amount current_epoch = elim m.transfer_fee_config [
  | none ↦ ok none
  | some c ↦
      let fee = fee_in_epoch c current_epoch in
      let fee_amount = amount * fee.transfer_fee_basis_points / 10000 in
      if ltb u64_max fee_amount
      then err validation_error
      else ok (some (min fee_amount fee.maximum_fee))
]

rounded_share :
    (product amount maximum : ℕ)
    → product ≤ amount * 10000
    → (min (product / 10000) maximum ≤ amount)
      × (min (product / 10000) maximum ≤ maximum)
      × (min (product / 10000) maximum * 10000 ≤ product)
      × ((min (product / 10000) maximum ≡ maximum)
          ⊎ (product < (min (product / 10000) maximum + 1) * 10000))
rounded_share product amount maximum h = (
  omega arith,
  omega arith,
  omega arith,
  elim (Bool-cases (leb maximum (product / 10000))) [
    | inl q ↦ inl (ground arith)
    | inr q ↦ inr (ground arith)
  ],
)

-- With a rate of at most 10000 basis points the fee of a Token-2022 transfer of a u64 is always
-- computed; it is the share of the amount that the rate in force asks for, rounded down, unless the
-- maximum in force is less.
pub calculate_transfer_fee_lem :
    (m : Mint) (c : TransferFeeConfig) (amount current_epoch : ℕ)
    → m.transfer_fee_config ≡ some c
    → amount ≤ 18446744073709551615
    → (fee_in_epoch c current_epoch).transfer_fee_basis_points ≤ 10000
    → (fee : ℕ) × (calculate_transfer_fee m amount current_epoch ≡ ok (some fee))
      × (fee ≤ amount)
      × (fee ≤ (fee_in_epoch c current_epoch).maximum_fee)
      × (fee * 10000 ≤ amount * (fee_in_epoch c current_epoch).transfer_fee_basis_points)
      × ((fee ≡ (fee_in_epoch c current_epoch).maximum_fee)
          ⊎ (amount * (fee_in_epoch c current_epoch).transfer_fee_basis_points < (fee + 1) * 10000))
unfolding calculate_transfer_fee
calculate_transfer_fee_lem m c amount current_epoch e small rate =
    let f = fee_in_epoch c current_epoch in
    let product : amount * f.transfer_fee_basis_points ≤ amount * 10000 =
      mul-le-mul_left amount rate in
    let fits : ltb 18446744073709551615 (amount * f.transfer_fee_basis_points / 10000) ≡ false =
      ground arith in
    let share = rounded_share (amount * f.transfer_fee_basis_points) amount f.maximum_fee product in
    (
      min (amount * f.transfer_fee_basis_points / 10000) f.maximum_fee,
      rw (e, fits, if◌then◌else◌),
      share.0,
      share.1,
      share.2,
      share.3,
    )

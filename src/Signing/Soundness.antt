-- ===== src/Signing/Soundness.antt =====
-- What `sign_transaction` guarantees of a transaction that it signs
-- (kora/crates/lib/src/transaction/versioned_transaction.rs).
use solus_protocol.Base.{
  ℕ, zero, suc, ◌≤◌, ◌<◌, ◌≡◌, ◌⊎◌, inl, inr, sym, refl, ap, subst, ◌∙◌, String, Bool, true, false,
  not, Option, some, List, [], ◌∷◌, nat_eq, eqb_iff, leb→le, ltb, length, get_elem?, set, is_empty,
  arith, if◌then◌else◌, Bool-cases,
}
use solus_protocol.Base.Table.{get_or_empty}
use solus_protocol.Error.{
  ok, invalid_transaction, signing_error, serialization_error, rpc_error, fail_if, ok_or, ◌>>=◌,
  >>=-eq-ok, ok-injective, ok_or-eq-ok,
}
use solus_protocol.Instruction.{Pubkey}
use solus_protocol.Config.{ValidationConfig, get_payment_address, is_payment_required}
use solus_protocol.External.{External}
use solus_protocol.Parse.{SplTable, parse_token_instructions, spl_transfer, spl_type_eq}
use solus_protocol.Transaction.{VersionedTransaction, Resolved}
use solus_protocol.Token.Outflow.{Groups}
use solus_protocol.Token.Payment.{verify_token_payment}
use solus_protocol.Token.Credit.{sum, AllCredit, verify_token_payment-AllCredit}
use solus_protocol.Fee.Calculation.{TotalFeeCalculation, get_total_fee_lamports}
use solus_protocol.Fee.Outflow.{spl_transfers}
use solus_protocol.Fee.Estimate.{estimate_kora_fee, get_estimate_fee_resolved}
use solus_protocol.Validator.Checks.{TransactionValidator, new_validator, validate_lamport_fee}
use solus_protocol.Validator.Soundness.{IsValidated, validate_transaction_iff}
use solus_protocol.Validator.Validate.{
  validate_transaction, validate_token_payment, is_strict, validate_strict_pricing_with_fee,
}
use solus_protocol.Signing.{
  Wallet, position, find_signer_position, put_signature, validate_payment, refresh_blockhash,
  sign_transaction,
}

position-get_elem? :
    (k : Pubkey) (ks : List Pubkey) (i : ℕ) → position k ks ≡ some i → get_elem? ks i ≡ some k
unfolding position
position-get_elem? k [] i h = cc
position-get_elem? k (j ∷ ks) zero h = ground (arith, eqb_iff j k)
position-get_elem? k (j ∷ ks) (suc i) h = ground (arith, position-get_elem? k ks i)

module _ {F D : Type 0} (x : External F D) (iteration : Groups → Groups)
    (next_iteration : Groups → Groups) (config : ValidationConfig F)
    (payment_address : Option String) (w : Wallet) where
  -- Token transfers to the payment destination in accepted mints are worth the required lamports.
  abbrev pub IsPaid : Resolved → ℕ → Type 0
  IsPaid r required =
      (destination : Pubkey) × (t : SplTable) × (vs : List ℕ) × (get_payment_address x.from_str
          payment_address w.pubkey
        ≡ ok destination)
      × (parse_token_instructions x.programs r.all_instructions ≡ ok t)
      × AllCredit x config r.all_instructions destination
          (spl_transfers (get_or_empty spl_transfer t)) vs
      × (required ≤ sum vs)

  -- Under strict pricing the parts of the fee sum to no more than the price.
  abbrev pub IsCovered : TotalFeeCalculation → Type 0
  IsCovered c =
      (is_strict config.price ≡ false)
      ⊎ ((total : ℕ) × (get_total_fee_lamports c ≡ ok total) × (total ≤ c.total_fee_lamports))

  validate_token_payment-IsPaid :
      (r : Resolved) (required : ℕ) (destination : Pubkey)
      → get_payment_address x.from_str payment_address w.pubkey ≡ ok destination
      → validate_token_payment x config r.all_instructions required destination ≡ ok tt
      → IsPaid r required
  unfolding validate_token_payment
  validate_token_payment-IsPaid r required destination e h =
      let (t, q, h₁) =
        >>=-eq-ok (parse_token_instructions x.programs r.all_instructions) _ {b = tt} h in
      let (paid, s, h₂) =
        >>=-eq-ok
          (verify_token_payment x config r.all_instructions
            (spl_transfers (get_or_empty spl_transfer t)) required destination)
          _ {b = tt} h₁ in
      let (vs, c, _, g) =
        verify_token_payment-AllCredit x config r.all_instructions destination
          (spl_transfers (get_or_empty spl_transfer t)) required s in
      (destination, t, vs, e, q, c, leb→le required (sum vs) (sym g ∙ paid_true paid h₂))
    where
      paid_true : (b : Bool) → fail_if (not b) invalid_transaction ≡ ok tt → b ≡ true
      paid_true true k = refl
      paid_true false k = cc

  validate_strict-IsCovered :
      (c : TotalFeeCalculation)
      → validate_strict_pricing_with_fee config.price c ≡ ok tt
      → IsCovered c
  unfolding validate_strict_pricing_with_fee
  validate_strict-IsCovered c h = elim (Bool-cases (is_strict config.price)) [
    | inl strict ↦ inr (ground arith)
    | inr lax ↦ inl lax
  ]

  validate_payment_sound :
      (r : Resolved) (c : TotalFeeCalculation)
      → validate_payment x iteration next_iteration config payment_address w r c ≡ ok tt
      → IsPaid r c.total_fee_lamports × IsCovered c
  unfolding validate_payment
  validate_payment_sound r c h =
      let (d, e, h₁) =
        >>=-eq-ok (get_payment_address x.from_str payment_address w.pubkey) _ {b = tt} h in
      let (_, q, h₂) =
        >>=-eq-ok (validate_token_payment x config r.all_instructions c.total_fee_lamports d) _
          {b = tt} h₁ in
      (validate_token_payment-IsPaid r c.total_fee_lamports d e q, validate_strict-IsCovered c h₂)

  -- What holds of a request `r` whose signed transaction is `t`.
  abbrev pub IsSigned : Resolved → VersionedTransaction → Type 0
  IsSigned r t =
      (v : TransactionValidator) × (c : TotalFeeCalculation) × (fee : ℕ) × (i : ℕ) × (signature : ℕ)
      × (new_validator x.from_str config w.pubkey ≡ ok v)
      × IsValidated x iteration v r
      × (estimate_kora_fee x next_iteration config.price payment_address r w.pubkey
            (is_payment_required config)
          ≡ ok c)
      × ((c.total_fee_lamports ≡ 0) ⊎ (IsPaid r c.total_fee_lamports × IsCovered c))
      × (x.get_fee_for_message r.transaction ≡ some fee)
      × (fee ≤ v.max_allowed_lamports)
      × (get_elem? r.transaction.static_account_keys i ≡ some w.pubkey)
      × ((w.sign_message r.transaction ≡ some signature)
          × (i < length r.transaction.signatures)
          × (t ≡ record (r.transaction) { signatures = set r.transaction.signatures i signature }))

  fee_step :
      (r : Resolved) (c : TotalFeeCalculation) {u : Unit {0}}
      → (if ltb 0 c.total_fee_lamports
          then validate_payment x iteration next_iteration config payment_address w r c
          else ok tt)
        ≡ ok u
      → (c.total_fee_lamports ≡ 0) ⊎ (IsPaid r c.total_fee_lamports × IsCovered c)
  fee_step r c h = elim (Bool-cases (ltb 0 c.total_fee_lamports)) [
    | inl charged ↦ inr (validate_payment_sound r c (rw (charged, if◌then◌else◌) at h))
    | inr costless ↦ inl (ground arith)
  ]

  refresh_step :
      (t : VersionedTransaction) {t' : VersionedTransaction}
      → refresh_blockhash x iteration next_iteration config payment_address w t ≡ ok t'
      → 0 < length t.signatures
      → t' ≡ t
  unfolding refresh_blockhash
  refresh_step t h l = go t.signatures h l
    where
      go :
          (ss : List ℕ) {t' : VersionedTransaction}
          → (if is_empty ss
              then (w.get_latest_blockhash >>= λ b. ok (record t { recent_blockhash = b }))
              else ok t)
            ≡ ok t'
          → 0 < length ss
          → t' ≡ t
      go [] e k = elim k [ ]
      go (s ∷ ss) e k = ok-injective (sym e)

  put_step :
      (t : VersionedTransaction) (i s : ℕ) {t' : VersionedTransaction}
      → put_signature t i s ≡ ok t'
      → (i < length t.signatures) × (t' ≡ record t { signatures = set t.signatures i s })
  unfolding put_signature
  put_step t i s h = elim (Bool-cases (ltb i (length t.signatures))) [
    | inl q ↦ (ground arith, ok-injective (sym (rw (q, if◌then◌else◌) at h)))
    | inr q ↦ absurd (cc (rw (q, if◌then◌else◌) at h))
  ]

  fee_limit :
      (v : TransactionValidator) (fee : ℕ) {u : Unit {0}}
      → validate_lamport_fee v fee ≡ ok u
      → fee ≤ v.max_allowed_lamports
  unfolding validate_lamport_fee
  fee_limit v fee h = ground arith

  -- The last part of the run: fetching the blockhash, signing and storing the signature.
  signed_step :
      (r : Resolved) (i s : ℕ) {t₁ t : VersionedTransaction}
      → 0 < length r.transaction.signatures
      → refresh_blockhash x iteration next_iteration config payment_address w r.transaction ≡ ok t₁
      → w.sign_message t₁ ≡ some s
      → put_signature t₁ i s ≡ ok t
      → (w.sign_message r.transaction ≡ some s)
        × (i < length r.transaction.signatures)
        × (t ≡ record (r.transaction) { signatures = set r.transaction.signatures i s })
  signed_step r i s {t₁} {t} l e k q =
      let same = refresh_step r.transaction e l in
      let (b, g) = put_step r.transaction i s (subst (λ u. put_signature u i s ≡ ok t) same q) in
      (subst (λ u. w.sign_message u ≡ some s) same k, b, g)

  -- Every transaction that `sign_transaction` signs is validated by the rules of the validator
  -- built from the configuration, has an estimated fee, is paid for in accepted tokens worth at
  -- least that fee unless the fee is 0 (and then, under strict pricing, the parts of the fee sum to
  -- no more than the price), has a network fee within the limit, and is the request's transaction
  -- with nothing changed but the signature at a position that holds the signer's key.
  pub sign_transaction-IsSigned :
      (r : Resolved) {t : VersionedTransaction} {encoded : String}
      → sign_transaction x iteration next_iteration config payment_address w r ≡ ok (t, encoded)
      → IsSigned r t
  unfolding sign_transaction find_signer_position get_estimate_fee_resolved
  sign_transaction-IsSigned r {t} {encoded} h =
      let (v, e₁, h₁) =
        >>=-eq-ok (new_validator x.from_str config w.pubkey) _ {b = (t, encoded)} h in
      let (_, e₂, h₂) = >>=-eq-ok (validate_transaction x iteration v r) _ {b = (t, encoded)} h₁ in
      let (c, e₃, h₃) =
        >>=-eq-ok
          (estimate_kora_fee x next_iteration config.price payment_address r w.pubkey
            (is_payment_required config))
          _ {b = (t, encoded)} h₂ in
      let (_, e₄, h₄) =
        >>=-eq-ok
          (if ltb 0 c.total_fee_lamports
            then validate_payment x iteration next_iteration config payment_address w r c
            else ok tt)
          _ {b = (t, encoded)} h₃ in
      let (t₁, e₅, h₅) =
        >>=-eq-ok
          (refresh_blockhash x iteration next_iteration config payment_address w r.transaction) _
          {b = (t, encoded)} h₄ in
      let (fee, e₆, h₆) =
        >>=-eq-ok (ok_or (x.get_fee_for_message r.transaction) rpc_error) _ {b = (t, encoded)} h₅ in
      let (_, e₇, h₇) = >>=-eq-ok (validate_lamport_fee v fee) _ {b = (t, encoded)} h₆ in
      let (s, e₈, h₈) =
        >>=-eq-ok (ok_or (w.sign_message t₁) signing_error) _ {b = (t, encoded)} h₇ in
      let (i, e₉, h₉) =
        >>=-eq-ok (ok_or (position w.pubkey r.transaction.static_account_keys) invalid_transaction)
          _ {b = (t, encoded)} h₈ in
      let (t₂, e₁₀, h₁₀) = >>=-eq-ok (put_signature t₁ i s) _ {b = (t, encoded)} h₉ in
      let (enc, e₁₁, h₁₁) =
        >>=-eq-ok (ok_or (w.encode t₂) serialization_error) _ {b = (t, encoded)} h₁₀ in
      let valid = (validate_transaction_iff x iteration v r).0 e₂ in
      let same : t₂ ≡ t = ap (λ q. q.0) (ok-injective h₁₁) in
      (
        v,
        c,
        fee,
        i,
        s,
        e₁,
        valid,
        e₃,
        fee_step r c e₄,
        ok_or-eq-ok _ _ e₆,
        fee_limit v fee e₇,
        position-get_elem? w.pubkey r.transaction.static_account_keys i (ok_or-eq-ok _ _ e₉),
        signed_step r i s valid.2 e₅ (ok_or-eq-ok _ _ e₈)
            (subst (λ u. put_signature t₁ i s ≡ ok u) same e₁₀),
      )

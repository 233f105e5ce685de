-- ===== src/Validator/Policy/Refinement.antt =====
-- `validate_fee_payer_usage` accepts a transaction exactly when every instruction is well formed and
-- every use of the fee payer's authority is one that the policy allows.
use solus_protocol.Base.{Bool, ◌≡◌, ◌↔◌, sym, ◌∙◌, List, [], nat_eq, All, inl, inr}
use solus_protocol.Base.Table.{push_all}
use solus_protocol.Error.{ok, ◌>>=◌, ◌>>◌, >>=-eq-ok, Result-cases}
use solus_protocol.Instruction.{Pubkey, Instruction, Programs}
use solus_protocol.Config.{FeePayerPolicy}
use solus_protocol.Parse.{
  SystemEntry, SplEntry, read_system, read_token, system_type_eq, spl_type_eq,
}
use solus_protocol.Parse.Content.{
  collect, parse_system_instructions-eq, parse_token_instructions-eq,
}
use solus_protocol.Validator.Usage.{
  validate_system_usage, validate_spl_usage, validate_fee_payer_usage,
}
use solus_protocol.Validator.Policy.{SystemPermitted, SplPermitted, DurableAllowed}
use solus_protocol.Validator.Policy.System.{validate_system_usage_iff}
use solus_protocol.Validator.Policy.Spl.{validate_spl_usage_iff}
use solus_protocol.Validator.Policy.Entries.{system_entries-filed, spl_entries-filed}

module _ (p : Programs) (policy : FeePayerPolicy) (fee_payer : Pubkey) where
  -- All instructions decode to values, and the policy permits each of them to the fee payer.
  abbrev pub UsagePermitted : Bool → List Instruction → Type 0
  UsagePermitted durable ixs =
      (es : List SystemEntry) × (fs : List SplEntry) × (collect (read_system p) ixs ≡ ok es)
      × (collect (read_token p) ixs ≡ ok fs)
      × DurableAllowed durable es
      × All (λ e. SystemPermitted policy fee_payer e.1) es
      × All (λ f. SplPermitted policy fee_payer f.1) fs

  by_entries :
      (durable : Bool) (ixs : List Instruction)
      → validate_fee_payer_usage fee_payer p policy durable ixs ≡ (
          collect (read_system p) ixs >>= λ es.
          validate_system_usage fee_payer policy durable (push_all es [])
          >> (collect (read_token p) ixs >>= λ fs.
              validate_spl_usage fee_payer policy (push_all fs [])))
  unfolding validate_fee_payer_usage
  by_entries durable ixs =
      rw (parse_system_instructions-eq p ixs, parse_token_instructions-eq p ixs)
        (elim (Result-cases (collect (read_system p) ixs)) [
          | inl (e, q) ↦ rw q
          | inr (es, q) ↦ rw q (elim (Result-cases (collect (read_token p) ixs)) [
            | inl (e, r) ↦ rw r
            | inr (fs, r) ↦ rw r
          ])
        ])

  permitted-of_ok :
      (durable : Bool) (ixs : List Instruction)
      → validate_fee_payer_usage fee_payer p policy durable ixs ≡ ok tt
      → UsagePermitted durable ixs
  permitted-of_ok durable ixs h =
      let (es, q, h₁) =
        >>=-eq-ok (collect (read_system p) ixs) _ {b = tt} (sym (by_entries durable ixs) ∙ h) in
      let (u, s, h₂) =
        >>=-eq-ok (validate_system_usage fee_payer policy durable (push_all es [])) _ {b = tt} h₁ in
      let (fs, r, h₃) = >>=-eq-ok (collect (read_token p) ixs) _ {b = tt} h₂ in
      let (d, a) =
        (validate_system_usage_iff policy fee_payer es (system_entries-filed p ixs es q) durable).0
          s in
      (
        es,
        fs,
        q,
        r,
        d,
        a,
        (validate_spl_usage_iff policy fee_payer fs (spl_entries-filed p ixs fs r)).0 h₃,
      )

  ok-of_permitted :
      (durable : Bool) (ixs : List Instruction)
      → UsagePermitted durable ixs
      → validate_fee_payer_usage fee_payer p policy durable ixs ≡ ok tt
  ok-of_permitted durable ixs (es, fs, q, r, d, a, b) =
      by_entries durable ixs
      ∙ rw
          (
            q,
            r,
            (validate_system_usage_iff policy fee_payer es (system_entries-filed p ixs es q)
                  durable).1
                (d, a),
          )
          ((validate_spl_usage_iff policy fee_payer fs (spl_entries-filed p ixs fs r)).1 b)

  -- `validate_fee_payer_usage` succeeds exactly when all instructions of the System and token
  -- programs are well formed, none advances a nonce unless durable transactions are allowed, and
  -- each whose authority (or one of whose multisig signers) is the fee payer is allowed by the flag
  -- that the policy has for its kind and its program.
  pub validate_fee_payer_usage_iff :
      (durable : Bool) (ixs : List Instruction)
      → (validate_fee_payer_usage fee_payer p policy durable ixs ≡ ok tt)
        ↔ UsagePermitted durable ixs
  validate_fee_payer_usage_iff durable ixs =
      (permitted-of_ok durable ixs, ok-of_permitted durable ixs)

-- ===== src/Fee/Bounds.antt =====
-- The outflow that `calculate_fee_payer_outflow` (kora/crates/lib/src/fee/fee.rs) computes, against
-- what the instructions themselves move.
use solus_protocol.Base.{
  ℕ, ◌+◌, ◌≤◌, ◌≡◌, refl, sym, subst, ap, ◌∙◌, List, [], ◌∷◌, ◌==◌, nat_eq, u64_max, arith, All,
  if◌then◌else◌,
}
use solus_protocol.Base.Table.{get_or_empty, push_all, select, get_or_empty-push_all, All-select}
use solus_protocol.Error.{Result, ok, >>=-eq-ok, ok-injective}
use solus_protocol.Instruction.{Pubkey, Instruction}
use solus_protocol.External.{External}
use solus_protocol.Parse.{
  SystemEntry, ParsedSystemType, ParsedSystemData, ParsedSplData, system_type_eq, spl_type_eq,
  read_system, parse_system_instructions, parse_token_instructions, system_transfer,
  system_create_account, system_withdraw_nonce_account, create_account_data, withdraw_nonce_data,
  assign_data, spl_transfer,
}
use solus_protocol.Parse.Content.{collect, parse_system_instructions-eq}
use solus_protocol.Validator.Policy.{system_kind}
use solus_protocol.Validator.Policy.Entries.{system_entries-filed}
use solus_protocol.Token.Outflow.{Groups}
use solus_protocol.Fee.Outflow.{
  add_transfer, add_create_account, add_withdraw_nonce, accumulate, system_outflow, add_spl_outflow,
  calculate_fee_payer_outflow,
}

-- The lamports that an instruction of the System program takes from a key, and gives to it.
abbrev pub paid : Pubkey → ParsedSystemData → ℕ
paid k (ParsedSystemData.transfer_data lamports sender receiver) =
    if sender == k then lamports else 0
paid k (create_account_data lamports payer) = if payer == k then lamports else 0
paid k (withdraw_nonce_data lamports nonce_authority recipient) =
    if nonce_authority == k then lamports else 0
paid k _ = 0

abbrev pub received : Pubkey → ParsedSystemData → ℕ
received k (ParsedSystemData.transfer_data lamports sender receiver) =
    if receiver == k then lamports else 0
received k (withdraw_nonce_data lamports nonce_authority recipient) =
    if recipient == k then lamports else 0
received k _ = 0

abbrev pub total_of {ℓ} : {A : Type ℓ} → (A → ℕ) → List A → ℕ
total_of f [] = 0
total_of f (a ∷ as') = f a + total_of f as'

-- A step that adds what is paid, and takes off at most what is received.
abbrev Between : ℕ → ℕ → ℕ → ℕ → Type 0
Between before p q after =
    (after ≤ before + p) × (before + p ≤ after + q) × (before ≤ u64_max → after ≤ u64_max)

module _ (k : Pubkey) where
  -- A loop over values of one kind keeps the bounds if each of its rounds does.
  module _ (κ : ParsedSystemType) (add : ParsedSystemData → ℕ → Result ℕ)
      (bounded : (d : ParsedSystemData) (n m : ℕ)
        → κ ≡ system_kind d
        → add d n ≡ ok m
        → Between n (paid k d) (received k d) m) where
    accumulate-Between :
        (ds : List ParsedSystemData) (n m : ℕ)
        → All (λ d. κ ≡ system_kind d) ds
        → accumulate add ds n ≡ ok m
        → Between n (total_of (paid k) ds) (total_of (received k) ds) m
    unfolding accumulate
    accumulate-Between [] n m a h = ground arith
    accumulate-Between (d ∷ ds) n m a h =
        let (n', e, h') = >>=-eq-ok (add d n) (accumulate add ds) {b = m} h in
        let s = bounded d n n' a.0 e in
        let r = accumulate-Between ds n' m a.1 h' in
        (omega (arith, s.0, s.1, r.0, r.1), omega (arith, s.0, s.1, r.0, r.1), λ l. r.2 (s.2 l))

  add_transfer-Between :
      (d : ParsedSystemData) (n m : ℕ)
      → system_transfer ≡ system_kind d
      → add_transfer k d n ≡ ok m
      → Between n (paid k d) (received k d) m
  unfolding add_transfer
  add_transfer-Between (ParsedSystemData.transfer_data l s r) n m q h = ground arith
  add_transfer-Between _ n m q h = cc

  add_create_account-Between :
      (d : ParsedSystemData) (n m : ℕ)
      → system_create_account ≡ system_kind d
      → add_create_account k d n ≡ ok m
      → Between n (paid k d) (received k d) m
  unfolding add_create_account
  add_create_account-Between (create_account_data l s) n m q h = ground arith
  add_create_account-Between _ n m q h = cc

  add_withdraw_nonce-Between :
      (d : ParsedSystemData) (n m : ℕ)
      → system_withdraw_nonce_account ≡ system_kind d
      → add_withdraw_nonce k d n ≡ ok m
      → Between n (paid k d) (received k d) m
  unfolding add_withdraw_nonce
  add_withdraw_nonce-Between (withdraw_nonce_data l s r) n m q h = ground arith
  add_withdraw_nonce-Between _ n m q h = cc

-- A sum over all instructions, by the three kinds that move lamports.
abbrev ByKind : (ParsedSystemData → ℕ) → List SystemEntry → Type 0
ByKind f es =
    total_of (λ e. f e.1) es
    ≡ total_of f (select system_transfer es)
      + total_of f (select system_create_account es)
      + total_of f (select system_withdraw_nonce_account es)

-- `f` is 0 at every other kind.
abbrev OnMoves : (ParsedSystemData → ℕ) → Type 0
OnMoves f =
    (d : ParsedSystemData)
    → (system_kind d ≡ system_transfer → ⊥)
    → (system_kind d ≡ system_create_account → ⊥)
    → (system_kind d ≡ system_withdraw_nonce_account → ⊥)
    → f d ≡ 0

ByKind-cons :
    (f : ParsedSystemData → ℕ)
    → OnMoves f
    → (d : ParsedSystemData) (es : List SystemEntry) → ByKind f es
    → ByKind f ((system_kind d, d) ∷ es)
unfolding select
ByKind-cons f z (ParsedSystemData.transfer_data _ _ _) es h = omega (arith, h)
ByKind-cons f z (create_account_data _ _) es h = omega (arith, h)
ByKind-cons f z (withdraw_nonce_data _ _ _) es h = omega (arith, h)
ByKind-cons f z d es h = omega (arith, h, z d (λ q. cc) (λ q. cc) (λ q. cc))

total-ByKind :
    (f : ParsedSystemData → ℕ)
    → OnMoves f
    → (es : List SystemEntry) → All (λ e. e.0 ≡ system_kind e.1) es
    → ByKind f es
unfolding select
total-ByKind f z [] a = omega arith
total-ByKind f z ((κ, d) ∷ es) a =
    subst (λ κ. ByKind f ((κ, d) ∷ es)) (sym a.0) (ByKind-cons f z d es (total-ByKind f z es a.1))

paid-OnMoves : (k : Pubkey) → OnMoves (paid k)
paid-OnMoves k (assign_data _) a b c = refl
paid-OnMoves k (ParsedSystemData.transfer_data _ _ _) a b c = absurd (a refl)
paid-OnMoves k (create_account_data _ _) a b c = absurd (b refl)
paid-OnMoves k (withdraw_nonce_data _ _ _) a b c = absurd (c refl)
paid-OnMoves k _ a b c = refl

received-OnMoves : (k : Pubkey) → OnMoves (received k)
received-OnMoves k (assign_data _) a b c = refl
received-OnMoves k (ParsedSystemData.transfer_data _ _ _) a b c = absurd (a refl)
received-OnMoves k (create_account_data _ _) a b c = refl
received-OnMoves k (withdraw_nonce_data _ _ _) a b c = absurd (c refl)
received-OnMoves k _ a b c = refl

module _ (k : Pubkey) (es : List SystemEntry) (filed : All (λ e. e.0 ≡ system_kind e.1) es) where
  of_kind : (κ : ParsedSystemType) → All (λ d. κ ≡ system_kind d) (get_or_empty κ (push_all es []))
  of_kind κ =
      subst (All (λ d. κ ≡ system_kind d)) (sym (get_or_empty-push_all κ es []))
        (All-select (λ κ d. κ ≡ system_kind d) es filed κ)

  total_at :
      (f : ParsedSystemData → ℕ) (κ : ParsedSystemType)
      → total_of f (get_or_empty κ (push_all es [])) ≡ total_of f (select κ es)
  total_at f κ = ap (total_of f) (get_or_empty-push_all κ es [])

  -- What the three loops leave: no more than the fee payer pays, and no less than that without what
  -- it receives.
  pub system_outflow-bounds :
      {n : ℕ}
      → system_outflow k (push_all es []) ≡ ok n
      → (n ≤ total_of (λ e. paid k e.1) es)
        × (total_of (λ e. paid k e.1) es ≤ n + total_of (λ e. received k e.1) es)
        × (n ≤ u64_max)
  unfolding system_outflow
  system_outflow-bounds {n} h =
      let t = push_all es [] in
      let (a, e₁, h₁) =
        >>=-eq-ok (accumulate (add_transfer k) (get_or_empty system_transfer t) 0) _ {b = n} h in
      let (b, e₂, h₂) =
        >>=-eq-ok (accumulate (add_create_account k) (get_or_empty system_create_account t) a) _
          {b = n} h₁ in
      let p =
        accumulate-Between k system_transfer (add_transfer k) (add_transfer-Between k) _ 0 a
          (of_kind system_transfer) e₁ in
      let q =
        accumulate-Between k system_create_account (add_create_account k)
          (add_create_account-Between k) _ a b (of_kind system_create_account) e₂ in
      let r =
        accumulate-Between k system_withdraw_nonce_account (add_withdraw_nonce k)
          (add_withdraw_nonce-Between k) _ b n (of_kind system_withdraw_nonce_account) h₂ in
      let f = total-ByKind (paid k) (paid-OnMoves k) es filed in
      let g = total-ByKind (received k) (received-OnMoves k) es filed in
      let f₁ = total_at (paid k) system_transfer in
      let f₂ = total_at (paid k) system_create_account in
      let f₃ = total_at (paid k) system_withdraw_nonce_account in
      let g₁ = total_at (received k) system_transfer in
      let g₂ = total_at (received k) system_create_account in
      let g₃ = total_at (received k) system_withdraw_nonce_account in
      (
        omega (arith, f, f₁, f₂, f₃, p.0, q.0, r.0),
        omega (arith, f, g, f₁, f₂, f₃, g₁, g₂, g₃, p.1, q.1, r.1),
        r.2 (q.2 (p.2 (omega arith))),
      )

module _ {F D : Type 0} (x : External F D) (iteration : Groups → Groups) (k : Pubkey) where
  add_spl_outflow-le :
      (ds : List ParsedSplData) (n : ℕ) {m : ℕ}
      → add_spl_outflow x iteration k ds n ≡ ok m
      → n ≤ u64_max
      → (n ≤ m) × (m ≤ u64_max)
  unfolding add_spl_outflow
  add_spl_outflow-le [] n h l = ground arith
  add_spl_outflow-le (d ∷ ds) n h l = ground arith

  -- When the outflow from the fee payer is computed it is a u64, and what the instructions of the
  -- System program take from the fee payer exceeds it by no more than what they give to it.
  pub calculate_fee_payer_outflow-bounds :
      (ixs : List Instruction) {outflow : ℕ}
      → calculate_fee_payer_outflow x iteration k ixs ≡ ok outflow
      → (es : List SystemEntry) × (collect (read_system x.programs) ixs ≡ ok es)
        × (total_of (λ e. paid k e.1) es ≤ outflow + total_of (λ e. received k e.1) es)
        × (outflow ≤ u64_max)
  unfolding calculate_fee_payer_outflow
  calculate_fee_payer_outflow-bounds ixs {outflow} h =
      let (t, e₁, h₁) = >>=-eq-ok (parse_system_instructions x.programs ixs) _ {b = outflow} h in
      let (n, e₂, h₂) = >>=-eq-ok (system_outflow k t) _ {b = outflow} h₁ in
      let (u, e₃, h₃) = >>=-eq-ok (parse_token_instructions x.programs ixs) _ {b = outflow} h₂ in
      let (es, q, r) =
        >>=-eq-ok (collect (read_system x.programs) ixs) (λ es. ok (push_all es [])) {b = t}
          (sym (parse_system_instructions-eq x.programs ixs) ∙ e₁) in
      let b =
        system_outflow-bounds k es (system_entries-filed x.programs ixs es q)
          (subst (λ t. system_outflow k t ≡ ok n) (sym (ok-injective r)) e₂) in
      let l = add_spl_outflow-le (get_or_empty spl_transfer u) n h₃ b.2 in
      (es, q, omega (arith, b.1, l.0), l.1)

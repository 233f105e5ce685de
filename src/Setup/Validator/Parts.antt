-- ===== src/Setup/Validator/Parts.antt =====
-- When each check of the validator reports no error.
use solus_protocol.Base.{
  iff_trans, String, Bool, true, false, not, Option, none, some, List, [], ◌∷◌, ◌≡◌, ◌≢◌, ◌↔◌, refl,
  subst, ◌==◌, nat_eq, string_eq, All, if◌then◌else◌, arith,
}
use solus_protocol.Error.{Result, ok, err, validation_error, ok_or, ◌>>=◌}
use solus_protocol.Instruction.{Pubkey}
use solus_protocol.Config.{
  PriceModel, margin, fixed, free, PriceSource, jupiter, mock, supports_token, Config,
}
use solus_protocol.Setup.Report.{
  ConfigError, complain, complain_if, warn, warn_if, all_of, invalid_payment_address,
  no_jupiter_api_key, invalid_token, no_token_program, no_paid_tokens, free_pricing,
  negative_margin, high_margin, zero_price, invalid_price_token, unsupported_price_token,
  fixed_without_auth, strict_pricing,
}
use solus_protocol.Setup.Report.Errors.{
  Passes, complain_unless2_iff, all_of_iff, warn_if-Passes, complain_unless_iff,
}
use solus_protocol.Setup.Checks.{
  Surroundings, is_free, has_auth, is_ok, is_key, check_valid_tokens, check_address,
  check_price_source, check_tokens, check_allowed_tokens, check_price,
}
use solus_protocol.Setup.Validator.Conditions.{IsKey, PriceHolds}

pub some-injective : {A : Type 0} {a b : A} → some a ≡ some b → a ≡ b
some-injective h = ground arith

module _ {F D : Type 0} (s : Surroundings F D) where
  key_iff :
      (o : Option Pubkey)
      → (elim o [ none ↦ false | some k ↦ true ] ≡ true) ↔ ((k : Pubkey) × (o ≡ some k))
  key_iff none = (λ h. ground arith, λ (k, e). ground arith)
  key_iff (some k) = (λ _. (k, refl), λ _. refl)

  pub is_key_iff : (text : String) → (is_key s.chain.from_str text ≡ true) ↔ IsKey s text
  is_key_iff text = key_iff (s.chain.from_str text)

  -- A statement about the value of an option, where it is known.
  pub known_iff : {A : Type 0} (P : A → Type 0) (a : A) → P a ↔ ((b : A) → some a ≡ some b → P b)
  known_iff P a = (λ p b e. subst P (some-injective e) p, λ h. h a refl)

  pub check_address_iff :
      (o : Option String)
      → Passes (check_address s o) ↔ ((address : String) → o ≡ some address → IsKey s address)
  check_address_iff none = (λ _ a e. ground arith, λ _. refl)
  check_address_iff (some a) =
      iff_trans (complain_unless_iff (is_key s.chain.from_str a) invalid_payment_address)
        (iff_trans (is_key_iff a) (known_iff (IsKey s) a))

  cons_iff :
      (o : Option Pubkey) (r : Result (List Pubkey))
      → (is_ok (ok_or o validation_error >>= λ y. r >>= λ ys. ok (y ∷ ys)) ≡ true)
        ↔ (((k : Pubkey) × (o ≡ some k)) × (is_ok r ≡ true))
  cons_iff none r = (λ h. ground arith, λ ((k, e), _). ground arith)
  cons_iff (some k) (ok ys) = (λ _. ((k, refl), refl), λ _. refl)
  cons_iff (some k) (err e) = (λ h. ground arith, λ (_, h). h)

  pub valid_tokens_iff :
      (tokens : List String)
      → (is_ok (check_valid_tokens s.chain.from_str tokens) ≡ true) ↔ All (IsKey s) tokens
  unfolding check_valid_tokens
  valid_tokens_iff [] = (λ _. tt, λ _. refl)
  valid_tokens_iff (t ∷ ts) =
      let (f, g) = cons_iff (s.chain.from_str t) (check_valid_tokens s.chain.from_str ts) in
      let (f', g') = valid_tokens_iff ts in
      (λ h. let (k, rest) = f h in (k, f' rest), λ (k, ks). g (k, g' ks))

  pub check_tokens_iff :
      (tokens : List String) (e : ConfigError)
      → Passes (check_tokens s tokens e) ↔ All (IsKey s) tokens
  check_tokens_iff tokens e =
      iff_trans (complain_unless_iff (is_ok (check_valid_tokens s.chain.from_str tokens)) e)
        (valid_tokens_iff tokens)

  pub check_allowed_tokens_iff :
      (tokens : List String)
      → Passes (check_allowed_tokens s tokens) ↔ ((tokens ≢ []) × All (IsKey s) tokens)
  check_allowed_tokens_iff [] = (λ h. ground arith, λ (n, _). elim (n refl) [ ])
  check_allowed_tokens_iff (t ∷ ts) =
      let (f, g) = check_tokens_iff (t ∷ ts) invalid_token in
      (λ h. (λ e. ground arith, f h), λ (_, h). g h)

  pub price_source_iff :
      (p : PriceSource) → Passes (check_price_source s p) ↔ (p ≡ jupiter → s.jupiter_api_key ≡ true)
  price_source_iff mock = (λ _ e. ground arith, λ _. refl)
  price_source_iff jupiter =
      let (f, g) = complain_unless_iff s.jupiter_api_key no_jupiter_api_key in
      (λ h _. f h, λ h. g (h refl))

  pub check_fees_iff :
      (p : PriceModel F) (a b : Bool)
      → Passes (
          if is_free s p
          then warn free_pricing
          else all_of
              (complain_if (not a) no_token_program ∷ complain_if (not b) no_paid_tokens ∷ []))
        ↔ (p ≢ free → (a ≡ true) × (b ≡ true))
  check_fees_iff free a b = (λ _ n. elim (n refl) [ ], λ _. refl)
  check_fees_iff (margin m) a b =
      let (f, g) = complain_unless2_iff a b no_token_program no_paid_tokens in
      (λ h _. f h, λ h. g (h (λ e. ground arith)))
  check_fees_iff (fixed n t strict) a b =
      let (f, g) = complain_unless2_iff a b no_token_program no_paid_tokens in
      (λ h _. f h, λ h. g (h (λ e. ground arith)))

  margin_iff :
      (b c : Bool)
      → Passes (if b then complain negative_margin else warn_if c high_margin) ↔ (b ≡ false)
  margin_iff true c = (λ h. ground arith, λ h. ground arith)
  margin_iff false c = (λ _. refl, λ _. warn_if-Passes c high_margin)

  pub check_price_iff :
      (c : Config F) (p : PriceModel F) → Passes (check_price s c p) ↔ PriceHolds s c.validation p
  check_price_iff c (fixed amount token strict) =
      let (f, g) = all_of_iff (
        warn_if (amount == 0) zero_price
        ∷ complain_if (not (is_key s.chain.from_str token)) invalid_price_token
        ∷ complain_if (not (supports_token c.validation token)) unsupported_price_token
        ∷ warn_if (not (has_auth s c.kora.auth)) fixed_without_auth
        ∷ warn_if strict strict_pricing
        ∷ []) in
      let (k, k') =
        iff_trans (complain_unless_iff (is_key s.chain.from_str token) invalid_price_token)
          (is_key_iff token) in
      let (t, t') =
        complain_unless_iff (supports_token c.validation token) unsupported_price_token in
      (
        λ h. let (_, (a, (b, _))) = f h in (k a, t b),
        λ (a, b). g (
          warn_if-Passes (amount == 0) zero_price,
          (
            k' a,
            (
              t' b,
              (
                warn_if-Passes (not (has_auth s c.kora.auth)) fixed_without_auth,
                (warn_if-Passes strict strict_pricing, tt),
              ),
            ),
          ),
        ),
      )
  check_price_iff c (margin m) = margin_iff (s.is_negative m) (s.exceeds_one m)
  check_price_iff c free = (λ _. tt, λ _. refl)

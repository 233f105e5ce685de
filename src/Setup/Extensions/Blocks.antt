-- ===== src/Setup/Extensions/Blocks.antt =====
-- What the names of a configuration block once they are parsed.
use solus_protocol.Base.{
  ℕ, String, Bool, true, false, Option, some, List, [], ◌∷◌, ◌≡◌, refl, sym, ap, ◌∙◌, ◌==◌, inl,
  inr, nat_eq, string_eq, Bool-cases, Option-cases, All, contains, arith,
}
use solus_protocol.Error.{
  ok, err, config_error, ok_or, ok_or-eq-ok, ◌>>=◌, >>=-eq-ok, ok-injective, Result-cases,
}
use solus_protocol.Config.{
  Token2022Config, unwrap_or_empty, is_mint_extension_blocked, is_account_extension_blocked,
}
use solus_protocol.Setup.Extensions.{
  ExtensionType, Names, mint_extensions, account_extensions, mint_name, account_name, from_string,
  parse_mint_extension_string, parse_account_extension_string, expect_names,
  validate_token2022_extensions, numbers, initialize,
}

from_string-name :
    (to_name : ExtensionType → Option String) (names : Names)
    → All (λ p. to_name p.1 ≡ some p.0) names
    → (s : String) (e : ExtensionType) → from_string names s ≡ some e
    → to_name e ≡ some s
unfolding from_string
from_string-name to_name [] h s e p = cc
from_string-name to_name ((n, d) ∷ names) (q, h) s e p = elim (Bool-cases (s == n)) [
  | inl m ↦ let same : s ≡ n = (string_eq.equal_iff s n).0 m in ground arith
  | inr m ↦ from_string-name to_name names h s e (ground arith)
]

parse_mint-name :
    (s : String) (e : ExtensionType) → parse_mint_extension_string s ≡ some e → mint_name e ≡ some s
unfolding parse_mint_extension_string mint_extensions mint_name
parse_mint-name =
    from_string-name mint_name mint_extensions
      (refl, (refl, (refl, (refl, (refl, (refl, (refl, (refl, (refl, tt)))))))))

parse_account-name :
    (s : String) (e : ExtensionType)
    → parse_account_extension_string s ≡ some e
    → account_name e ≡ some s
unfolding parse_account_extension_string account_extensions account_name
parse_account-name =
    from_string-name account_name account_extensions
      (refl, (refl, (refl, (refl, (refl, (refl, (refl, (refl, tt))))))))

Bool-ext : (a b : Bool) → (a ≡ true → b ≡ true) → (b ≡ true → a ≡ true) → a ≡ b
Bool-ext true b f g = sym (f refl)
Bool-ext false true f g = g refl
Bool-ext false false f g = refl

some-injective : {d e : ExtensionType} → some d ≡ some e → d ≡ e
some-injective h = ground arith

module _ (parse : String → Option ExtensionType) (to_name : ExtensionType → Option String)
    (parse-name : (s : String) (e : ExtensionType) → parse s ≡ some e → to_name e ≡ some s) where
  parse-injective : (s t : String) (e : ExtensionType) → parse s ≡ some e → parse t ≡ some e → s ≡ t
  parse-injective s t e p q = let names = sym (parse-name s e p) ∙ parse-name t e q in ground arith

  module _ (number : ExtensionType → ℕ) where
    numbers-cons :
        (name : String) (names : List String) (ns : List ℕ)
        → numbers number parse (name ∷ names) ≡ ok ns
        → (d : ExtensionType) × (ms : List ℕ) × (parse name ≡ some d)
          × (numbers number parse names ≡ ok ms)
          × (number d ∷ ms ≡ ns)
    numbers-cons name names ns h =
        let (m, h₁, h₂) =
          >>=-eq-ok (ok_or (parse name) config_error >>= λ e. ok (number e)) _ {b = ns} h in
        let (d, h₃, h₄) =
          >>=-eq-ok (ok_or (parse name) config_error) (λ e. ok (number e)) {b = m} h₁ in
        let (ms, h₅, h₆) = >>=-eq-ok (numbers number parse names) (λ ms. ok (m ∷ ms)) {b = ns} h₂ in
        let head : number d ≡ m = ok-injective h₄ in
        (
          d,
          ms,
          ok_or-eq-ok (parse name) config_error h₃,
          h₅,
          ap (λ k. k ∷ ms) head ∙ ok-injective h₆,
        )

    -- Checking the names and parsing them succeed alike.
    expect_names-of_numbers :
        (names : List String) (ns : List ℕ)
        → numbers number parse names ≡ ok ns
        → expect_names parse names ≡ ok tt
    expect_names-of_numbers [] ns h = refl
    expect_names-of_numbers (name ∷ names) ns h =
        let (d, ms, p, h', _) = numbers-cons name names ns h in
        rw (p, expect_names-of_numbers names ms h')

    numbers-of_expect_names :
        (names : List String)
        → expect_names parse names ≡ ok tt
        → (ns : List ℕ) × (numbers number parse names ≡ ok ns)
    numbers-of_expect_names [] h = ([], refl)
    numbers-of_expect_names (name ∷ names) h = elim (Option-cases (parse name)) [
      | inl p ↦ let bad : expect_names parse (name ∷ names) ≡ err config_error = (rw (p)) in cc
      | inr (d, p) ↦
          let rest : expect_names parse names ≡ ok tt = sym ((rw (p))) ∙ h in
          let (ns, e) = numbers-of_expect_names names rest in (number d ∷ ns, rw (p, e))
    ]

    numbers-contains :
        ((d e : ExtensionType) → number d ≡ number e → d ≡ e)
        → (names : List String) (ns : List ℕ) → numbers number parse names ≡ ok ns
        → (name : String) (e : ExtensionType) → parse name ≡ some e
        → contains ns (number e) ≡ contains names name
    numbers-contains injective [] ns h name e p =
        ap (λ k. contains k (number e)) (sym (ok-injective h))
    numbers-contains injective (n ∷ names) ns h name e p =
        let (d, ms, q, h', split) = numbers-cons n names ns h in
        let same : (number d == number e) ≡ (n == name) =
          Bool-ext (number d == number e) (n == name)
            (λ m.
              let types = injective d e ((nat_eq.equal_iff _ _).0 m) in
              (string_eq.equal_iff n name).1 (parse-injective n name e (q ∙ ap some types) p))
            (λ m.
              let names_eq = (string_eq.equal_iff n name).0 m in
              (nat_eq.equal_iff (number d) (number e)).1
                (ap number (some-injective (sym q ∙ ap parse names_eq ∙ p)))) in
        let rest : contains ms (number e) ≡ contains names name =
          numbers-contains injective names ms h' name e p in
        ap (λ k. contains k (number e)) (sym split) ∙ rw (same, rest)

module _ (number : ExtensionType → ℕ) where
  -- The lists after a successful `initialize`.
  initialize-parsed :
      (c c' : Token2022Config)
      → initialize number c ≡ (ok tt, c')
      → (mints : List ℕ) × (accounts : List ℕ) × (numbers number parse_mint_extension_string
            c.blocked_mint_extensions
          ≡ ok mints)
        × (numbers number parse_account_extension_string c.blocked_account_extensions ≡ ok accounts)
        × (c'.parsed_blocked_mint_extensions ≡ some mints)
        × (c'.parsed_blocked_account_extensions ≡ some accounts)
  unfolding initialize
  initialize-parsed c c' h =
      elim (Result-cases (numbers number parse_mint_extension_string c.blocked_mint_extensions)) [
        | inl (e, p) ↦ ground arith
        | inr (mints, p) ↦
            elim (Result-cases
              (numbers number parse_account_extension_string c.blocked_account_extensions)) [
                | inl (e, q) ↦ ground arith
                | inr (accounts, q) ↦
                    let stored : record c {
                      parsed_blocked_mint_extensions = some mints;
                      parsed_blocked_account_extensions = some accounts;
                    }
                        ≡ c' =
                      ground arith in
                    (
                      mints,
                      accounts,
                      p,
                      q,
                      sym (ap (λ d. d.parsed_blocked_mint_extensions) stored),
                      sym (ap (λ d. d.parsed_blocked_account_extensions) stored),
                    )
              ]
      ]

  -- A configuration whose names the validator accepts is initialized.
  pub initialize-of_validate :
      (c : Token2022Config)
      → validate_token2022_extensions c ≡ ok tt
      → (c' : Token2022Config) × (initialize number c ≡ (ok tt, c'))
  unfolding validate_token2022_extensions initialize
  initialize-of_validate c h =
      let (u, m, a) =
        >>=-eq-ok (expect_names parse_mint_extension_string c.blocked_mint_extensions) _ {b = tt}
          h in
      let (mints, e) =
        numbers-of_expect_names parse_mint_extension_string mint_name parse_mint-name number
          c.blocked_mint_extensions m in
      let (accounts, e') =
        numbers-of_expect_names parse_account_extension_string account_name parse_account-name
          number c.blocked_account_extensions a in
      let c' = record c {
        parsed_blocked_mint_extensions = some mints;
        parsed_blocked_account_extensions = some accounts;
      } in
      (c', ground arith)

  -- After the blocked extensions are initialized without an error, an extension of a mint, and
  -- likewise of an account, is blocked exactly if its name stands in the configuration's list,
  -- where different extension types have different numbers.
  pub initialize-blocks :
      ((d e : ExtensionType) → number d ≡ number e → d ≡ e)
      → (c c' : Token2022Config) → initialize number c ≡ (ok tt, c')
      → (name : String) (e : ExtensionType)
      → (parse_mint_extension_string name ≡ some e
          → is_mint_extension_blocked c' (number e) ≡ contains c.blocked_mint_extensions name)
        × (parse_account_extension_string name ≡ some e
            → is_account_extension_blocked c' (number e)
              ≡ contains c.blocked_account_extensions name)
  unfolding is_mint_extension_blocked is_account_extension_blocked
  initialize-blocks injective c c' h name e =
      let (mints, accounts, hm, ha, m, a) = initialize-parsed c c' h in
      (
        λ p.
            ap (λ ns. contains (unwrap_or_empty ns) (number e)) m
            ∙ numbers-contains parse_mint_extension_string mint_name parse_mint-name number
                injective c.blocked_mint_extensions mints hm name e p,
        λ p.
            ap (λ ns. contains (unwrap_or_empty ns) (number e)) a
            ∙ numbers-contains parse_account_extension_string account_name parse_account-name number
                injective c.blocked_account_extensions accounts ha name e p,
      )

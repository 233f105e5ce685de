-- ===== src/Error.antt =====
-- `KoraError` (kora/crates/lib/src/error.rs) and fallible computation. The messages that the
-- source formats into an error are left out: no code decides by them.
pub mod Traverse
use solus_protocol.Base.{
  ◌≡◌, refl, Option, none, some, Bool, true, false, List, [], ◌∷◌, arith, ◌⊎◌, inl, inr,
}

-- `panicked` is no variant of the source: it stands for a Rust panic, such as an index out of range.
pub data KoraError : Type 0 where
  account_not_found rpc_error signing_error invalid_transaction transaction_execution_failed :
      KoraError
  fee_estimation_failed unsupported_fee_token insufficient_funds internal_server_error : KoraError
  validation_error serialization_error swap_error token_operation_error invalid_request : KoraError
  unauthorized rate_limit_exceeded usage_limit_exceeded config_error : KoraError
  panicked : KoraError

pub data Result {ℓ} (A : Type ℓ) : Type ℓ where
  ok : A → Result A
  err : KoraError → Result A

-- `?` of the source.
infixl 5 ◌>>=◌ ◌>>◌
abbrev pub ◌>>=◌ {ℓ κ} : {A : Type ℓ} {B : Type κ} → Result A → (A → Result B) → Result B
ok value >>= next = next value
err error >>= next = err error

-- `if c { return Err(e) }`
abbrev pub fail_if : Bool → KoraError → Result (Unit {0})
fail_if true e = err e
fail_if false e = ok tt

abbrev pub ◌>>◌ {ℓ} : {B : Type ℓ} → Result (Unit {0}) → Result B → Result B
first >> next = first >>= λ _. next

module _ {ℓ} {A : Type ℓ} where
  -- `Option::ok_or_else`
  abbrev pub ok_or : Option A → KoraError → Result A
  ok_or none e = err e
  ok_or (some a) e = ok a

  -- `Result::map_err`
  abbrev pub map_err : Result A → KoraError → Result A
  map_err (ok a) e = ok a
  map_err (err _) e = err e

pub ok-injective {ℓ} : {A : Type ℓ} {a b : A} → ok a ≡ ok b → a ≡ b
ok-injective h = ground arith

pub Result-cases {ℓ} :
    {A : Type ℓ} (r : Result A) → ((e : KoraError) × (r ≡ err e)) ⊎ ((a : A) × (r ≡ ok a))
Result-cases (ok a) = inr (a, refl)
Result-cases (err e) = inl (e, refl)

-- Inversion of a successful bind, for proofs where the parts stay shut.
pub >>=-eq-ok {ℓ κ} :
    {A : Type ℓ} {B : Type κ} (step : Result A) (next : A → Result B) {b : B}
    → (step >>= next) ≡ ok b
    → (value : A) × (step ≡ ok value) × (next value ≡ ok b)
>>=-eq-ok (ok value) next e = (value, refl, e)
>>=-eq-ok (err error) next e = cc

pub fail_if-eq-ok : (c : Bool) (e : KoraError) {u : Unit {0}} → fail_if c e ≡ ok u → c ≡ false
fail_if-eq-ok true e h = cc
fail_if-eq-ok false e h = refl

pub ok_or-eq-ok {ℓ} :
    {A : Type ℓ} (o : Option A) (e : KoraError) {a : A} → ok_or o e ≡ ok a → o ≡ some a
ok_or-eq-ok none e h = cc
ok_or-eq-ok (some a) e h = ground arith

-- `iter().map(f).collect::<Result<Vec<_>, _>>()`: in order, and the first error wins.
module _ {ℓ κ} {A : Type ℓ} {B : Type κ} where
  abbrev pub traverse : (A → Result B) → List A → Result (List B)
  traverse f [] = ok []
  traverse f (x ∷ xs) = f x >>= λ y. traverse f xs >>= λ ys. ok (y ∷ ys)

-- ===== src/Methods/Steps.antt =====
-- Inversion of a method that returns a result, step by step.
use solus_protocol.Base.{◌≡◌, refl, ap}
use solus_protocol.Error.{Result, ok, err}
use solus_protocol.Methods.{Server, Method, continue, lift}

module _ {S A B : Type 0} where
  continue-returns :
      (r : Result A × Server S) (next : A → Method S B) {b : B} {s' : Server S}
      → continue r next ≡ (ok b, s')
      → (a : A) × (s : Server S) × (r ≡ (ok a, s)) × (next a s ≡ (ok b, s'))
  continue-returns (ok a, s) next h = (a, s, refl, h)
  continue-returns (err e, s) next h = absurd (cc (ap (λ q. q.0) h))

  pub >>=-returns :
      (m : Method S A) (next : A → Method S B) (s : Server S) {b : B} {s' : Server S}
      → continue (m s) next ≡ (ok b, s')
      → (a : A) × (u : Server S) × (m s ≡ (ok a, u)) × (next a u ≡ (ok b, s'))
  >>=-returns m next s h = continue-returns (m s) next h

  -- A step that is lifted keeps the state.
  pub lift-returns :
      (r : Result A) (next : A → Method S B) (s : Server S) {b : B} {s' : Server S}
      → continue (lift r s) next ≡ (ok b, s')
      → (a : A) × (r ≡ ok a) × (next a s ≡ (ok b, s'))
  lift-returns (ok a) next s h = (a, refl, h)
  lift-returns (err e) next s h = absurd (cc (ap (λ q. q.0) h))

-- ===== src/Error/Traverse.antt =====
-- A traversal that succeeds, element by element.
use solus_protocol.Base.{List, [], ◌∷◌, ◌≡◌, ◌↔◌, refl, subst}
use solus_protocol.Error.{Result, ok, ◌>>=◌, >>=-eq-ok, ok-injective, traverse}

module _ {A B : Type 0} where
  -- Two lists of one length whose elements are related in pairs.
  abbrev pub AllPairs : (A → B → Type 0) → List A → List B → Type 0
  AllPairs R [] [] = Unit
  AllPairs R [] (y ∷ ys) = ⊥
  AllPairs R (x ∷ xs) [] = ⊥
  AllPairs R (x ∷ xs) (y ∷ ys) = R x y × AllPairs R xs ys

  pub AllPairs-iff :
      {R S : A → B → Type 0}
      → ((x : A) (y : B) → R x y ↔ S x y)
      → (xs : List A) (ys : List B) → AllPairs R xs ys ↔ AllPairs S xs ys
  AllPairs-iff h [] [] = (λ u. u, λ u. u)
  AllPairs-iff h [] (y ∷ ys) = (λ u. u, λ u. u)
  AllPairs-iff h (x ∷ xs) [] = (λ u. u, λ u. u)
  AllPairs-iff h (x ∷ xs) (y ∷ ys) =
      let rest = AllPairs-iff h xs ys in
      (λ (r, rs). ((h x y).0 r, rest.0 rs), λ (s, ss). ((h x y).1 s, rest.1 ss))

  traverse-AllPairs :
      (f : A → Result B) (xs : List A) (ys : List B)
      → traverse f xs ≡ ok ys
      → AllPairs (λ x y. f x ≡ ok y) xs ys
  traverse-AllPairs f [] [] h = tt
  traverse-AllPairs f [] (y ∷ ys) h = cc
  traverse-AllPairs f (x ∷ xs) ys h =
      let (y, e, h₁) = >>=-eq-ok (f x) (λ y. traverse f xs >>= λ ys. ok (y ∷ ys)) {b = ys} h in
      let (ys', e', h₂) = >>=-eq-ok (traverse f xs) (λ ys. ok (y ∷ ys)) {b = ys} h₁ in
      subst (AllPairs (λ x y. f x ≡ ok y) (x ∷ xs)) (ok-injective h₂)
        (e, traverse-AllPairs f xs ys' e')

  traverse-of_AllPairs :
      (f : A → Result B) (xs : List A) (ys : List B)
      → AllPairs (λ x y. f x ≡ ok y) xs ys
      → traverse f xs ≡ ok ys
  traverse-of_AllPairs f [] [] h = refl
  traverse-of_AllPairs f [] (y ∷ ys) h = elim h [ ]
  traverse-of_AllPairs f (x ∷ xs) [] h = elim h [ ]
  traverse-of_AllPairs f (x ∷ xs) (y ∷ ys) (e, es) = rw (e, traverse-of_AllPairs f xs ys es)

  pub traverse_iff :
      (f : A → Result B) (xs : List A) (ys : List B)
      → (traverse f xs ≡ ok ys) ↔ AllPairs (λ x y. f x ≡ ok y) xs ys
  traverse_iff f xs ys = (traverse-AllPairs f xs ys, traverse-of_AllPairs f xs ys)

-- ===== src/Setup/Report/Errors.antt =====
-- When a report has no errors.
use solus_protocol.Base.{Bool, true, false, not, List, [], ◌∷◌, ◌++◌, ◌≡◌, ◌↔◌, refl, All, arith}
use solus_protocol.Setup.Report.{
  ConfigError, ConfigWarning, Report, fine, complain, complain_if, warn_if, all_of, each,
}

abbrev pub Passes : Report → Type 0
Passes r = r.errors ≡ []

append-nil_iff : (xs ys : List ConfigError) → (xs ++ ys ≡ []) ↔ ((xs ≡ []) × (ys ≡ []))
append-nil_iff [] ys = (λ h. (refl, h), λ (_, h). h)
append-nil_iff (x ∷ xs) ys = ground arith

pub all_of_iff : (rs : List Report) → Passes (all_of rs) ↔ All Passes rs
all_of_iff [] = (λ _. tt, λ _. refl)
all_of_iff (r ∷ rs) =
    let (f, g) = append-nil_iff r.errors (all_of rs).errors in
    let (f', g') = all_of_iff rs in (λ h. let (a, b) = f h in (a, f' b), λ (a, b). g (a, g' b))

pub each_iff :
    {A : Type 0} (check : A → Report) (P : A → Type 0)
    → ((x : A) → Passes (check x) ↔ P x)
    → (xs : List A) → Passes (each check xs) ↔ All P xs
each_iff check P h [] = (λ _. tt, λ _. refl)
each_iff check P h (x ∷ xs) =
    let (f, g) = append-nil_iff (check x).errors (each check xs).errors in
    let (f', g') = each_iff check P h xs in
    (λ e. let (a, b) = f e in ((h x).0 a, f' b), λ (a, b). g ((h x).1 a, g' b))

pub warn_if-Passes : (b : Bool) (w : ConfigWarning) → Passes (warn_if b w)
warn_if-Passes true w = refl
warn_if-Passes false w = refl

pub complain-fails : (e : ConfigError) → ¬ Passes (complain e)
complain-fails e h = ground arith

pub complain_unless_iff : (b : Bool) (e : ConfigError) → Passes (complain_if (not b) e) ↔ (b ≡ true)
complain_unless_iff true e = (λ _. refl, λ _. refl)
complain_unless_iff false e = ground arith

pub each-Passes :
    {A : Type 0} (check : A → Report)
    → ((x : A) → Passes (check x))
    → (xs : List A) → Passes (each check xs)
each-Passes check h [] = refl
each-Passes check h (x ∷ xs) =
    (append-nil_iff (check x).errors (each check xs).errors).1 (h x, each-Passes check h xs)

pub complain_unless2_iff :
    (a b : Bool) (e f : ConfigError)
    → Passes (all_of (complain_if (not a) e ∷ complain_if (not b) f ∷ []))
      ↔ ((a ≡ true) × (b ≡ true))
complain_unless2_iff true b e f =
    let (p, q) = complain_unless_iff b f in
    let (p', q') = all_of_iff (fine ∷ complain_if (not b) f ∷ []) in
    (λ h. (refl, p (p' h).1.0), λ (_, h). q' (refl, (q h, tt)))
complain_unless2_iff false b e f = (λ h. ground arith, λ h. ground arith)

-- The facts about the checks of a list, one after the other: what a check asks for is a part of what
-- all ask for, and a check that only warns asks for nothing.
infixr 5 ◌&◌ ◌⊳◌
pub ◌&◌ : {A B P Q : Type 0} → A ↔ P → B ↔ Q → (A × B) ↔ (P × Q)
(f, g) & (f', g') = (λ (a, b). (f a, f' b), λ (p, q). (g p, g' q))

pub ◌⊳◌ : {A B P : Type 0} → A → B ↔ P → (A × B) ↔ P
a ⊳ (f, g) = (λ (_, b). f b, λ p. (a, g p))

pub last_iff : {A P : Type 0} → A ↔ P → (A × Unit {0}) ↔ P
last_iff (f, g) = (λ (a, _). f a, λ p. (g p, tt))

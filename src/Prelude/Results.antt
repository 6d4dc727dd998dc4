-- ===== src/Prelude/Results.antt =====
-- Results with an error, Rust's `Result` and `?`, and loops of checks.
use diet_python.Prelude.Tests.{if◌then◌else◌}
use mathlib.Core.Bool.{Bool, true, false}
use mathlib.Core.Path.{◌≡◌, refl}
use mathlib.Core.Logic.{inr, inl, ◌↔◌}
use mathlib.Core.List.{List, [], ◌∷◌, Memᴰ}
use mathlib.Core.List.Memᴰ
use native.Mathlib.Omega.{arith}

pub data Result {ℓ κ} (X : Type ℓ) (A : Type κ) : Type (ℓ ⊔ κ) where
  ok : A → Result X A
  err : X → Result X A

-- `?`
abbrev pub and_then {ℓ κ μ} :
    {X : Type ℓ} {A : Type κ} {B : Type μ} → Result X A → (A → Result X B) → Result X B
and_then (ok a) f = f a
and_then (err x) f = err x

abbrev pub Check {ℓ} : Type ℓ → Type ℓ
Check X = Result X (Unit {0})

module _ {ℓ} {X : Type ℓ} where
  abbrev pub Passes : Check X → Type ℓ
  Passes c = c ≡ ok tt

  pub and_then-Passes : (c d : Check X) → Passes (and_then c (λ _. d)) ↔ (Passes c × Passes d)
  and_then-Passes (ok u) d = (λ h. (refl, h), λ h. h.1)
  and_then-Passes (err x) d = (λ h. absurd (ground arith), λ h. absurd (ground (arith, h.0)))

  -- `for x in xs { check(x)?; }`
  abbrev pub check_all {κ} : {A : Type κ} → (A → Check X) → List A → Check X
  check_all f [] = ok tt
  check_all f (x ∷ xs) = and_then (f x) (λ _. check_all f xs)

  pub check_all-Passes {κ} :
      {A : Type κ} (f : A → Check X) (xs : List A)
      → Passes (check_all f xs) ↔ ((x : A) → Memᴰ x xs → Passes (f x))
  check_all-Passes f [] = (λ h x m. absurd (Memᴰ.not-nil m), λ h. refl)
  check_all-Passes f (x ∷ xs) =
      let step = and_then-Passes (f x) (check_all f xs) in
      let rest = check_all-Passes f xs in
      (
        λ h y m. elim (Memᴰ.cases_cons m) [
          | inl e ↦ rw e (step.0 h).0
          | inr later ↦ rest.0 (step.0 h).1 y later
        ],
        λ h. step.1 (h x (Memᴰ.head refl), rest.1 (λ y m. h y (Memᴰ.tail m))),
      )

pub and_then_value {ℓ κ} :
    {X : Type ℓ} {A : Type κ} (r : Result X A) (f : A → Check X)
    → Passes (and_then r f) ↔ ((a : A) × (r ≡ ok a) × Passes (f a))
and_then_value (ok a) f = (λ h. (a, refl, h), λ (b, e, h). ground arith)
and_then_value (err x) f = (λ h. absurd (ground arith), λ (b, e, h). absurd (ground arith))

-- A test that is the last step of a check.
pub unless-Passes {ℓ} :
    {X : Type ℓ} (b : Bool) (x : X) → Passes (if b then ok tt else err x) ↔ (b ≡ true)
unless-Passes true x = (λ h. refl, λ h. refl)
unless-Passes false x = (λ h. absurd (ground arith), λ h. absurd (ground arith))

-- ===== src/Prelude/Lists.antt =====
-- Lists under native indices, with Boolean tests.
use Prim.Native.Nat.{ℕ, zero, suc, ◌+◌}
use mathlib.Core.Path.{◌≡◌, refl, ap, sym}
use mathlib.Core.Bool.{Bool, true, false, ◌||◌}
use mathlib.Core.Option.{Option, none, some}
use mathlib.Core.List.{List, [], ◌∷◌, ◌++◌, map, Memᴰ}
use mathlib.Core.Logic.{◌⊎◌, inl, inr}
use mathlib.Core.List.Memᴰ
use native.Mathlib.Omega.{arith}
use diet_python.Prelude.Tests.{Bool-cases, if◌then◌else◌}

module _ {ℓ} {A : Type ℓ} where
  abbrev pub length : List A → ℕ
  length [] = 0
  length (_ ∷ xs) = suc (length xs)

  abbrev pub get_elem? : List A → ℕ → Option A
  get_elem? [] i = none
  get_elem? (x ∷ xs) zero = some x
  get_elem? (x ∷ xs) (suc i) = get_elem? xs i

  -- Rust's `iter().any`.
  abbrev pub any : (A → Bool) → List A → Bool
  any p [] = false
  any p (x ∷ xs) = p x || any p xs

  -- Rust's `iter().find`.
  abbrev pub find : (A → Bool) → List A → Option A
  find p [] = none
  find p (x ∷ xs) = if p x then some x else find p xs

  -- Rust's `retain`, and `filter` on an iterator.
  abbrev pub retain : (A → Bool) → List A → List A
  retain p [] = []
  retain p (x ∷ xs) = if p x then x ∷ retain p xs else retain p xs

  abbrev pub take : ℕ → List A → List A
  take zero xs = []
  take (suc n) [] = []
  take (suc n) (x ∷ xs) = x ∷ take n xs

  abbrev pub drop : ℕ → List A → List A
  drop zero xs = xs
  drop (suc n) [] = []
  drop (suc n) (x ∷ xs) = drop n xs

  pub length-append : (xs ys : List A) → length (xs ++ ys) ≡ length xs + length ys
  length-append [] ys = omega arith
  length-append (x ∷ xs) ys = omega (arith, length-append xs ys)

  pub mem-append_last : (xs : List A) (y : A) {x : A} → Memᴰ x (xs ++ y ∷ []) → Memᴰ x xs ⊎ (x ≡ y)
  mem-append_last xs y m = elim (Memᴰ.append_cases xs m) [
    | inl old ↦ inl old
    | inr new ↦ elim (Memᴰ.cases_cons new) [
      | inl e ↦ inr e
      | inr never ↦ absurd (Memᴰ.not-nil never)
    ]
  ]

module _ {ℓ} {A : Type ℓ} (p : A → Bool) where
  pub retain-mem : (xs : List A) {a : A} → Memᴰ a (retain p xs) → Memᴰ a xs × (p a ≡ true)
  retain-mem [] h = absurd (Memᴰ.not-nil h)
  retain-mem (x ∷ xs) h = elim (Bool-cases (p x)) [
    | inl e ↦ elim (Memᴰ.cases_cons (rw e at h)) [
      | inl here ↦ (Memᴰ.head here, rw here e)
      | inr later ↦ let (m, q) = retain-mem xs later in (Memᴰ.tail m, q)
    ]
    | inr e ↦ let (m, q) = retain-mem xs (rw e at h) in (Memᴰ.tail m, q)
  ]

  pub any-mem : (xs : List A) {x : A} → Memᴰ x xs → p x ≡ true → any p xs ≡ true
  any-mem [] m e = absurd (Memᴰ.not-nil m)
  any-mem (y ∷ xs) m e = elim (Memᴰ.cases_cons m) [
    | inl here ↦ rw (sym here, e) refl
    | inr later ↦ ground (arith, any-mem xs later e)
  ]

  pub mem-retain : (xs : List A) {a : A} → Memᴰ a xs → p a ≡ true → Memᴰ a (retain p xs)
  mem-retain [] h q = absurd (Memᴰ.not-nil h)
  mem-retain (x ∷ xs) h q = elim (Bool-cases (p x)) [
    | inl e ↦ rw e (elim (Memᴰ.cases_cons h) [
      | inl here ↦ Memᴰ.head here
      | inr later ↦ Memᴰ.tail (mem-retain xs later q)
    ])
    | inr e ↦ rw e (elim (Memᴰ.cases_cons h) [
      | inl here ↦ absurd (ground (arith, ap p here))
      | inr later ↦ mem-retain xs later q
    ])
  ]

-- A predicate at every element.
abbrev pub All {ℓ κ} : {A : Type ℓ} → (A → Type κ) → List A → Type κ
All P [] = Unit
All P (x ∷ xs) = P x × All P xs

pub All-append {ℓ κ} :
    {A : Type ℓ} (P : A → Type κ) (xs ys : List A) → All P xs → All P ys → All P (xs ++ ys)
All-append P [] ys hx hy = hy
All-append P (x ∷ xs) ys hx hy = (hx.0, All-append P xs ys hx.1 hy)

pub length-map {ℓ κ} :
    {A : Type ℓ} {B : Type κ} (f : A → B) (xs : List A) → length (map f xs) ≡ length xs
length-map f [] = refl
length-map f (x ∷ xs) = ap suc (length-map f xs)

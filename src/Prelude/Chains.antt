-- ===== src/Prelude/Chains.antt =====
-- Chains of fallible steps: Rust's `?` and `expect` on `Option`.
use Prim.Native.Nat.{ℕ, zero, suc}
use diet_python.Prelude.Lists.{get_elem?}
use mathlib.Core.Logic.{inl, inr}
use mathlib.Core.List.Memᴰ
use mathlib.Core.Path.{ap, sym, subst, ◌≡◌, refl}
use mathlib.Core.Option.{Option, none, some}
use mathlib.Core.List.{List, [], ◌∷◌, Forall₂, Memᴰ, map}

infixl 1 ◌>>=◌
abbrev pub ◌>>=◌ {ℓ κ} : {A : Type ℓ} {B : Type κ} → Option A → (A → Option B) → Option B
none >>= f = none
some a >>= f = f a

pub >>=-eq-some {ℓ κ} :
    {A : Type ℓ} {B : Type κ} (m : Option A) (f : A → Option B) {b : B}
    → (m >>= f) ≡ some b
    → (a : A) × (m ≡ some a) × (f a ≡ some b)
>>=-eq-some none f h = cc
>>=-eq-some (some a) f h = (a, refl, h)

module _ {ℓ κ} {A : Type ℓ} {B : Type κ} where
  -- Every element, or nothing.
  abbrev pub traverse : (A → Option B) → List A → Option (List B)
  traverse f [] = some []
  traverse f (x ∷ xs) = do y ← f x; ys ← traverse f xs; some (y ∷ ys)

  pub traverse-Forall₂ {μ} :
      {R : A → B → Type μ} (f : A → Option B)
      → ((x : A) (y : B) → f x ≡ some y → R x y)
      → (xs : List A) {ys : List B} → traverse f xs ≡ some ys
      → Forall₂ R xs ys
  traverse-Forall₂ {R = R} f rel [] {ys} h = subst (Forall₂ R []) (cc) Forall₂.nil
  traverse-Forall₂ {R = R} f rel (x ∷ xs) {ys = zs} h =
      let (y, p, q) = >>=-eq-some (f x) _ h in
      let (ys, r, e) = >>=-eq-some (traverse f xs) _ q in
      subst (Forall₂ R (x ∷ xs)) (cc) (Forall₂.cons (rel x y p) (traverse-Forall₂ f rel xs r))

  pub traverse_total :
      (f : A → Option B) (xs : List A)
      → ((x : A) → Memᴰ x xs → (y : B) × (f x ≡ some y))
      → (ys : List B) × (traverse f xs ≡ some ys)
  traverse_total f [] each = ([], refl)
  traverse_total f (x ∷ xs) each =
      let (y, p) = each x (Memᴰ.head refl) in
      let (ys, q) = traverse_total f xs (λ z m. each z (Memᴰ.tail m)) in (y ∷ ys, rw p (rw q refl))

  -- The partner of the element at a position stands at the same position.
  pub Forall₂-get_elem? {μ} :
      {R : A → B → Type μ} {xs : List A} {ys : List B}
      → Forall₂ R xs ys
      → (i : ℕ) {y : B} → get_elem? ys i ≡ some y
      → (x : A) × (get_elem? xs i ≡ some x) × R x y
  Forall₂-get_elem? Forall₂.nil i h = cc
  Forall₂-get_elem? {R = R} (Forall₂.cons {a} r rest) zero h = (a, refl, subst (R a) (cc) r)
  Forall₂-get_elem? (Forall₂.cons r rest) (suc i) h = Forall₂-get_elem? rest i h

  pub Forall₂-get_elem?_right {μ} :
      {R : A → B → Type μ} {xs : List A} {ys : List B}
      → Forall₂ R xs ys
      → (i : ℕ) {x : A} → get_elem? xs i ≡ some x
      → (y : B) × (get_elem? ys i ≡ some y) × R x y
  Forall₂-get_elem?_right Forall₂.nil i h = cc
  Forall₂-get_elem?_right {R = R} (Forall₂.cons {b} r rest) zero h =
      (b, refl, subst (λ a. R a b) (cc) r)
  Forall₂-get_elem?_right (Forall₂.cons r rest) (suc i) h = Forall₂-get_elem?_right rest i h

  pub Forall₂-mem {μ} :
      {R : A → B → Type μ} {xs : List A} {ys : List B}
      → Forall₂ R xs ys
      → {y : B} → Memᴰ y ys
      → (x : A) × Memᴰ x xs × R x y
  Forall₂-mem Forall₂.nil m = absurd (Memᴰ.not-nil m)
  Forall₂-mem {R = R} (Forall₂.cons {a} r rest) m = elim (Memᴰ.cases_cons m) [
    | inl here ↦ (a, Memᴰ.head refl, subst (R a) (sym here) r)
    | inr later ↦ let (x, at, rel) = Forall₂-mem rest later in (x, Memᴰ.tail at, rel)
  ]

  pub get_elem?-map :
      (f : A → B) (xs : List A) (i : ℕ) {y : B}
      → get_elem? (map f xs) i ≡ some y
      → (x : A) × (get_elem? xs i ≡ some x) × (y ≡ f x)
  get_elem?-map f [] i h = cc
  get_elem?-map f (x ∷ xs) zero h = (x, refl, cc)
  get_elem?-map f (x ∷ xs) (suc i) h = get_elem?-map f xs i h

pub get_elem?-mem {ℓ} :
    {A : Type ℓ} (xs : List A) (i : ℕ) {x : A} → get_elem? xs i ≡ some x → Memᴰ x xs
get_elem?-mem [] i h = cc
get_elem?-mem (x ∷ xs) zero h = Memᴰ.head (cc)
get_elem?-mem (x ∷ xs) (suc i) h = Memᴰ.tail (get_elem?-mem xs i h)

pub mem-get_elem? {ℓ} :
    {A : Type ℓ} (xs : List A) {x : A} → Memᴰ x xs → (i : ℕ) × (get_elem? xs i ≡ some x)
mem-get_elem? [] m = absurd (Memᴰ.not-nil m)
mem-get_elem? (x ∷ xs) m = elim (Memᴰ.cases_cons m) [
  | inl here ↦ (0, ap some (sym here))
  | inr later ↦ let (i, at) = mem-get_elem? xs later in (suc i, at)
]

-- ===== src/Prelude/Maps.antt =====
-- A hash map whose keys are numbers, as an association list: an insertion hides what stands below.
use Prim.Native.Nat.{ℕ}
use mathlib.Core.Logic.{◌⊎◌, inl, inr}
use mathlib.Core.List.Memᴰ
use native.Mathlib.Omega.{arith}
use diet_python.Prelude.Tests.{Bool-cases, ==_iff}
use mathlib.Core.Path.{◌≡◌}
use mathlib.Core.Option.{Option, none, some}
use mathlib.Core.List.{Memᴰ, List, [], ◌∷◌}
use diet_python.Prelude.Tests.{◌==◌, if◌then◌else◌}

abbrev pub Map {ℓ} : Type ℓ → Type ℓ
Map V = List (ℕ × V)

module _ {ℓ} {V : Type ℓ} where
  abbrev pub lookup : ℕ → Map V → Option V
  lookup k [] = none
  lookup k ((j, v) ∷ m) = if j == k then some v else lookup k m

  abbrev pub insert : ℕ → V → Map V → Map V
  insert k v m = (k, v) ∷ m

  -- Rust's `collect` into a hash map: a later pair replaces an earlier one with its key.
  abbrev pub from_pairs : List (ℕ × V) → Map V → Map V
  from_pairs [] m = m
  from_pairs ((k, v) ∷ ps) m = from_pairs ps (insert k v m)

  pub lookup-from_pairs :
      (k : ℕ) (ps : List (ℕ × V)) (m : Map V) (v : V)
      → lookup k (from_pairs ps m) ≡ some v
      → Memᴰ (k, v) ps ⊎ (lookup k m ≡ some v)
  lookup-from_pairs k [] m v h = inr h
  lookup-from_pairs k ((j, w) ∷ ps) m v h = elim (lookup-from_pairs k ps (insert j w m) v h) [
    | inl later ↦ inl (Memᴰ.tail later)
    | inr here ↦ elim (Bool-cases (j == k)) [
      | inl e ↦ inl (Memᴰ.head (ground (arith, ==_iff j k)))
      | inr e ↦ inr (rw e at here)
    ]
  ]

  -- A key that is missing from the result is missing from the pairs.
  pub lookup-from_pairs-none :
      (k : ℕ) (ps : List (ℕ × V)) (m : Map V)
      → lookup k (from_pairs ps m) ≡ none
      → (lookup k m ≡ none) × ((v : V) → ¬ Memᴰ (k, v) ps)
  lookup-from_pairs-none k [] m h = (h, λ v. Memᴰ.not-nil)
  lookup-from_pairs-none k ((j, w) ∷ ps) m h =
      let (below, later) = lookup-from_pairs-none k ps (insert j w m) h in
      (
        ground arith,
        λ v member. elim (Memᴰ.cases_cons member) [
          | inl e ↦ ground arith
          | inr rest ↦ later v rest
        ],
      )

-- ===== src/TryRegions/Region.antt =====
-- Changes of the blocks of a range
-- (soac-blockpy/src/passes/ruff_to_blockpy/try_regions.rs).
use diet_python.Prelude.{
  ℕ, zero, suc, ◌≤◌, ◌≡◌, refl, Bool, false, ◌&&◌, leb, ltb, Option, none, some, List, [], ◌∷◌,
  length, get_elem?, if◌then◌else◌, arith, Bool-cases, inl, inr,
}
use diet_python.TryRegions.Lower.{Range}
use diet_python.TryRegions.Finalize.{update_slice, update_range}

unfoldable pub in_range : Option Range → ℕ → Bool
in_range none i = false
in_range (some r) i = leb r.start i && ltb i r.stop

-- The range lies in a list of that length.
abbrev pub IsWithin : ℕ → Option Range → Type 0
IsWithin n none = Unit
IsWithin n (some r) = (r.start ≤ r.stop) × (r.stop ≤ n)

-- The elements of the range are changed, and no others.
pub record Updated {ℓ} {A : Type ℓ} (f : A → A) (r : Option Range) (xs ys : List A) : Type ℓ where
  pub same_length : length ys ≡ length xs
  pub at :
      (i : ℕ) (x : A)
      → get_elem? xs i ≡ some x
      → get_elem? ys i ≡ some (if in_range r i then f x else x)

module _ {ℓ} {A : Type ℓ} (f : A → A) where
  abbrev SliceAt : ℕ → ℕ → List A → List A → Type ℓ
  SliceAt start stop xs ys =
      (i : ℕ) (x : A)
      → get_elem? xs i ≡ some x
      → get_elem? ys i ≡ some (if leb start i && ltb i stop then f x else x)

  abbrev Slice : ℕ → ℕ → List A → List A → Type ℓ
  Slice start stop xs ys = (length ys ≡ length xs) × SliceAt start stop xs ys

  SliceAt-empty : (xs : List A) → SliceAt 0 0 xs xs
  SliceAt-empty xs i x h = elim (Bool-cases (ltb i 0)) [
    | inl e ↦ absurd (ground arith)
    | inr e ↦ ground arith
  ]

  SliceAt-changed :
      (stop : ℕ) (x : A) (xs ys : List A)
      → SliceAt 0 stop xs ys
      → SliceAt 0 (suc stop) (x ∷ xs) (f x ∷ ys)
  SliceAt-changed stop x xs ys at zero y h = ground arith
  SliceAt-changed stop x xs ys at (suc i) y h = ground (arith, at i y h)

  SliceAt-kept :
      (start stop : ℕ) (x : A) (xs ys : List A)
      → SliceAt start stop xs ys
      → SliceAt (suc start) (suc stop) (x ∷ xs) (x ∷ ys)
  SliceAt-kept start stop x xs ys at zero y h = ground arith
  SliceAt-kept start stop x xs ys at (suc i) y h = ground (arith, at i y h)

  update_slice-Slice :
      (start stop : ℕ) (xs : List A)
      → start ≤ stop
      → stop ≤ length xs
      → (ys : List A) × (update_slice start stop f xs ≡ some ys) × Slice start stop xs ys
  unfolding update_slice
  update_slice-Slice zero zero xs low high = (xs, refl, (refl, SliceAt-empty xs))
  update_slice-Slice zero (suc stop) [] low high = absurd (omega arith)
  update_slice-Slice zero (suc stop) (x ∷ xs) low high =
      let (ys, p, (n, at)) = update_slice-Slice zero stop xs (omega arith) (omega arith) in
      (f x ∷ ys, rw p refl, (omega arith, SliceAt-changed stop x xs ys at))
  update_slice-Slice (suc start) zero xs low high = absurd (omega arith)
  update_slice-Slice (suc start) (suc stop) [] low high = absurd (omega arith)
  update_slice-Slice (suc start) (suc stop) (x ∷ xs) low high =
      let (ys, p, (n, at)) = update_slice-Slice start stop xs (omega arith) (omega arith) in
      (x ∷ ys, rw p refl, (omega arith, SliceAt-kept start stop x xs ys at))

  -- A range within the list is updated, and no slice panics.
  pub update_range-Updated :
      (r : Option Range) (xs : List A)
      → IsWithin (length xs) r
      → (ys : List A) × (update_range f r xs ≡ some ys) × Updated f r xs ys
  unfolding update_range in_range
  update_range-Updated none xs w = (xs, refl, record { same_length = refl; at = λ i x h. h })
  update_range-Updated (some r) xs w =
      let (ys, p, (n, at)) = update_slice-Slice r.start r.stop xs w.0 w.1 in
      (ys, p, record { same_length = n; at = at })

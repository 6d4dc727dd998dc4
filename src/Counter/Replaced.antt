-- ===== src/Counter/Replaced.antt =====
-- Recording writes one slot (soac-eval/src/counter.rs).
use diet_python.Prelude.{
  subst, ℕ, zero, suc, ◌+◌, ◌≤◌, ◌≡◌, refl, Option, none, some, List, [], ◌∷◌, get_elem?, inl, inr,
  ◌⊎◌, Memᴰ, arith, Option-cases,
}
use diet_python.Prelude.Memᴰ
use diet_python.Counter.{CounterSlot, Slots, fill, set_slot}

module _ {A : Type 0} where
  -- Two lists that differ in one element at most.
  pub data Replaced (x y : A) : List A → List A → Type 0 where
    here : {xs : List A} → Replaced x y (x ∷ xs) (y ∷ xs)
    there : {z : A} {xs ys : List A} → Replaced x y xs ys → Replaced x y (z ∷ xs) (z ∷ ys)

  pub swapped : {x y : A} {xs ys : List A} → Replaced x y xs ys → Replaced y x ys xs
  swapped here = here
  swapped (there r) = there (swapped r)

  pub Replaced-old : {x y : A} {xs ys : List A} → Replaced x y xs ys → Memᴰ x xs
  Replaced-old here = Memᴰ.head refl
  Replaced-old (there r) = Memᴰ.tail (Replaced-old r)

  pub Replaced-mem :
      {x y z : A} {xs ys : List A} → Replaced x y xs ys → Memᴰ z ys → (z ≡ y) ⊎ Memᴰ z xs
  Replaced-mem here m = elim (Memᴰ.cases_cons m) [ inl e ↦ inl e | inr t ↦ inr (Memᴰ.tail t) ]
  Replaced-mem (there r) m = elim (Memᴰ.cases_cons m) [
    | inl e ↦ inr (Memᴰ.head e)
    | inr t ↦ elim (Replaced-mem r t) [ inl e ↦ inl e | inr u ↦ inr (Memᴰ.tail u) ]
  ]

  abbrev pub total : (A → ℕ) → List A → ℕ
  total w [] = 0
  total w (x ∷ xs) = w x + total w xs

  pub Replaced-total :
      (w : A → ℕ) {x y : A} {xs ys : List A}
      → Replaced x y xs ys
      → total w ys + w x ≡ total w xs + w y
  Replaced-total w here = omega arith
  Replaced-total w (there r) = omega (arith, Replaced-total w r)

  pub total-mem : (w : A → ℕ) {x : A} (xs : List A) → Memᴰ x xs → w x ≤ total w xs
  total-mem w [] m = absurd (Memᴰ.not-nil m)
  total-mem w (y ∷ xs) m = elim (Memᴰ.cases_cons m) [
    | inl e ↦ rw e (omega arith)
    | inr t ↦ omega (arith, total-mem w xs t)
  ]

module _ {T : Type 0} where
  pub fill-Replaced :
      (s : CounterSlot T) (slots : Slots T) {slots' : Slots T}
      → fill s slots ≡ some slots'
      → Replaced none (some s) slots slots'
  unfolding fill
  fill-Replaced s [] h = absurd (ground arith)
  fill-Replaced s (none ∷ slots) h = subst (Replaced none (some s) (none ∷ slots)) (cc) here
  fill-Replaced s (some x ∷ slots) h = elim (Option-cases (fill s slots)) [
    | inl e ↦ absurd (ground arith)
    | inr (rest, e) ↦
        subst (Replaced none (some s) (some x ∷ slots)) (cc (rw (e, fill) at h))
          (there (fill-Replaced s slots e))
  ]

  pub fill-full : (s : CounterSlot T) (slots : Slots T) → fill s slots ≡ none → ¬ Memᴰ none slots
  unfolding fill
  fill-full s [] h m = Memᴰ.not-nil m
  fill-full s (none ∷ slots) h m = absurd (ground arith)
  fill-full s (some x ∷ slots) h m = elim (Memᴰ.cases_cons m) [
    | inl e ↦ ground arith
    | inr t ↦ fill-full s slots (ground arith) t
  ]

  pub set_slot-Replaced :
      (i : ℕ) (x y : Option (CounterSlot T)) (slots : Slots T)
      → get_elem? slots i ≡ some x
      → Replaced x y slots (set_slot i y slots)
  unfolding set_slot
  set_slot-Replaced i x y [] h = absurd (ground arith)
  set_slot-Replaced zero x y (z ∷ slots) h =
      subst (λ q. Replaced x y (q ∷ slots) (y ∷ slots)) (cc) here
  set_slot-Replaced (suc i) x y (z ∷ slots) h = there (set_slot-Replaced i x y slots h)

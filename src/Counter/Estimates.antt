-- ===== src/Counter/Estimates.antt =====
-- What the counter answers, against the true counts (soac-eval/src/counter.rs).
use diet_python.Prelude.{
  ℕ, zero, suc, ◌*◌, ◌≤◌, ◌<◌, ◌^◌, ◌≡◌, ◌↔◌, refl, ◌∙◌, ap, Bool, true, Option, none, some, List,
  [], ◌∷◌, length, inl, inr, Memᴰ, arith, Bool-cases, Option-cases,
}
use diet_python.Prelude.Memᴰ
use diet_python.Counter.{
  CounterSlot, Slots, new, bump, fill, set_slot, min_slot_index, record_value, recorded, true_count,
  lower_bound, approx_count,
}
use diet_python.Counter.Replaced.{Replaced, here, there, total, fill-Replaced}
use diet_python.Counter.Bounds.{Untracked, count_of}
use diet_python.Counter.Steps.{bump-Replaced}
use diet_python.Counter.Record.{recorded-Counts}

new-length : (T : Type 0) (n : ℕ) → length (new {T = T} n) ≡ n
unfolding new
new-length T zero = refl
new-length T (suc n) = ap suc (new-length T n)

module _ {T : Type 0} where
  Replaced-length :
      {x y : Option (CounterSlot T)} {xs ys : Slots T} → Replaced x y xs ys → length ys ≡ length xs
  Replaced-length here = refl
  Replaced-length (there r) = ap suc (Replaced-length r)

  set_slot-length :
      (i : ℕ) (x : Option (CounterSlot T)) (slots : Slots T)
      → length (set_slot i x slots) ≡ length slots
  unfolding set_slot
  set_slot-length i x [] = refl
  set_slot-length zero x (y ∷ slots) = refl
  set_slot-length (suc i) x (y ∷ slots) = ap suc (set_slot-length i x slots)

  -- A number that every slot's count is at least, as often as there are slots.
  full-total :
      (k : ℕ) (slots : Slots T)
      → (Memᴰ none slots → k ≡ 0)
      → ((s : CounterSlot T) → Memᴰ (some s) slots → k ≤ s.approx_count)
      → length slots * k ≤ total count_of slots
  full-total k [] empty each = omega arith
  full-total k (none ∷ slots) empty each =
      let nought = empty (Memᴰ.head refl) in rw nought (omega arith)
  full-total k (some s ∷ slots) empty each = omega (
    arith,
    each s (Memᴰ.head refl),
    full-total k slots (λ m. empty (Memᴰ.tail m)) (λ t m. each t (Memᴰ.tail m)),
  )

module _ {T : Type 0} (T_eq : T → T → Bool) where
  record_value-length :
      (v : T) (slots : Slots T) → length (record_value T_eq v slots) ≡ length slots
  unfolding record_value
  record_value-length v slots = elim (Option-cases (bump T_eq v slots)) [
    | inr (slots', e) ↦
        let (s, same, r) = bump-Replaced T_eq v slots e in rw (e, record_value) (Replaced-length r)
    | inl e ↦
        elim (Option-cases
          (fill (record { value = v; approx_count = 1; max_overcount = 0 }) slots)) [
            | inr (slots', f) ↦ rw (e, record_value, f) (Replaced-length (fill-Replaced _ slots f))
            | inl f ↦ elim (Option-cases (min_slot_index slots)) [
              | inr (i, g) ↦ rw (e, record_value, f, g) (set_slot-length i _ slots)
              | inl g ↦ rw (e, record_value, f, g) refl
            ]
          ]
  ]

  recorded-length :
      (capacity : ℕ) (history : List T) → length (recorded T_eq capacity history) ≡ capacity
  unfolding recorded
  recorded-length capacity [] = new-length T capacity
  recorded-length capacity (v ∷ history) =
      record_value-length v (recorded T_eq capacity history) ∙ recorded-length capacity history

  approx_count-slot :
      (v : T) (slots : Slots T) {n : ℕ}
      → approx_count T_eq v slots ≡ some n
      → (s : CounterSlot T) × Memᴰ (some s) slots × (T_eq s.value v ≡ true) × (s.approx_count ≡ n)
  unfolding approx_count
  approx_count-slot v [] h = absurd (ground arith)
  approx_count-slot v (none ∷ slots) h =
      let (s, m, same, e) = approx_count-slot v slots h in (s, Memᴰ.tail m, same, e)
  approx_count-slot v (some x ∷ slots) h = elim (Bool-cases (T_eq x.value v)) [
    | inl hit ↦ (x, Memᴰ.head refl, hit, ground arith)
    | inr miss ↦
        let (s, m, same, e) = approx_count-slot v slots (ground arith) in (s, Memᴰ.tail m, same, e)
  ]

  approx_count-Untracked :
      (v : T) (slots : Slots T) → approx_count T_eq v slots ≡ none → Untracked T_eq v slots
  unfolding approx_count
  approx_count-Untracked v [] h s m = absurd (Memᴰ.not-nil m)
  approx_count-Untracked v (none ∷ slots) h s m = elim (Memᴰ.cases_cons m) [
    | inl e ↦ absurd (ground arith)
    | inr t ↦ approx_count-Untracked v slots h s t
  ]
  approx_count-Untracked v (some x ∷ slots) h s m = elim (Bool-cases (T_eq x.value v)) [
    | inl hit ↦ absurd (ground arith)
    | inr miss ↦ elim (Memᴰ.cases_cons m) [
      | inl e ↦ let is_x : s ≡ x = cc e in rw is_x miss
      | inr t ↦ approx_count-Untracked v slots (ground arith) s t
    ]
  ]

  module _ (T_eq_iff : (a b : T) → (T_eq a b ≡ true) ↔ (a ≡ b)) (capacity : ℕ) (history : List T)
      (small : length history < 2 ^ 64) where
    -- After fewer than 2 ^ 64 calls of `record`, the count that is answered for a value is that of a
    -- slot with that value, and the true count lies between the slot's lower bound and that answer.
    pub approx_count-bounds :
        (v : T) {n : ℕ}
        → approx_count T_eq v (recorded T_eq capacity history) ≡ some n
        → (s : CounterSlot T) × Memᴰ (some s) (recorded T_eq capacity history)
          × (s.value ≡ v)
          × (s.approx_count ≡ n)
          × (lower_bound s ≤ true_count T_eq v history)
          × (true_count T_eq v history ≤ n)
    unfolding lower_bound
    approx_count-bounds v h =
        let (s, m, hit, e) = approx_count-slot v (recorded T_eq capacity history) h in
        let same = (T_eq_iff s.value v).0 hit in
        let counts = recorded-Counts T_eq T_eq_iff capacity history small in
        let at_v = ap (λ z. true_count T_eq z history) same in
        (
          s,
          m,
          same,
          e,
          omega (arith, counts.lower s m, at_v),
          omega (arith, counts.upper s m, at_v, e),
        )

    -- After fewer than 2 ^ 64 calls of `record`, the true count of a value that the counter gives no
    -- count for, times the capacity, is at most the number of calls.
    pub approx_count-heavy :
        (v : T)
        → approx_count T_eq v (recorded T_eq capacity history) ≡ none
        → capacity * true_count T_eq v history ≤ length history
    approx_count-heavy v h =
        let slots = recorded T_eq capacity history in
        let counts = recorded-Counts T_eq T_eq_iff capacity history small in
        let new = approx_count-Untracked v slots h in
        let many =
          full-total (true_count T_eq v history) slots (counts.unseen v new) (counts.rare v new) in
        let long = ap (λ n. n * true_count T_eq v history) (recorded-length capacity history) in
        omega (arith, many, long, counts.sum)

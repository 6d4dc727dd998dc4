-- ===== src/Counter/Steps.antt =====
-- Which slot each branch of `record` writes (soac-eval/src/counter.rs).
use diet_python.Prelude.{
  ◌∙◌, ℕ, suc, ◌+◌, ◌≤◌, ◌≡◌, refl, ap, leb, Bool, true, false, none, some, List, [], ◌∷◌,
  get_elem?, inl, inr, Memᴰ, arith, Bool-cases, Option-cases, subst,
}
use diet_python.Prelude.Memᴰ
use diet_python.Counter.{CounterSlot, Slots, increment, taken, min_by_count, min_slot_index, bump}
use diet_python.Counter.Replaced.{Replaced, here, there}

min_by_count-none : (ps : List (ℕ × ℕ)) → min_by_count ps ≡ none → {q : ℕ × ℕ} → ¬ Memᴰ q ps
unfolding min_by_count
min_by_count-none [] h m = Memᴰ.not-nil m
min_by_count-none (x ∷ ps) h m = elim (Option-cases (min_by_count ps)) [
  | inl e ↦ absurd (ground arith)
  | inr (r, e) ↦ elim (Bool-cases (leb x.1 r.1)) [
    | inl le ↦ absurd (ground arith)
    | inr gt ↦ absurd (ground arith)
  ]
]

min_by_count-least :
    (ps : List (ℕ × ℕ)) {p : ℕ × ℕ}
    → min_by_count ps ≡ some p
    → Memᴰ p ps × ((q : ℕ × ℕ) → Memᴰ q ps → p.1 ≤ q.1)
unfolding min_by_count
min_by_count-least [] h = absurd (ground arith)
min_by_count-least (x ∷ ps) {p} h = elim (Option-cases (min_by_count ps)) [
  | inl e ↦ (
    Memᴰ.head (ground arith),
    λ q m. elim (Memᴰ.cases_cons m) [
      | inl f ↦ ground arith
      | inr t ↦ absurd (min_by_count-none ps e t)
    ],
  )
  | inr (r, e) ↦
      let least = min_by_count-least ps e in
      elim (Bool-cases (leb x.1 r.1)) [
        | inl le ↦
            let same : x ≡ p = cc (rw (e, min_by_count, le) at h) in
            (
              Memᴰ.head (ground (arith, same)),
              λ q m. elim (Memᴰ.cases_cons m) [
                | inl f ↦ ground (arith, same, f)
                | inr t ↦ ground (arith, least.1 q t, same)
              ],
            )
        | inr gt ↦
            let same : r ≡ p = cc (rw (e, min_by_count, gt) at h) in
            (
              Memᴰ.tail (subst (λ z. Memᴰ z ps) same least.0),
              λ q m. elim (Memᴰ.cases_cons m) [
                | inl f ↦ ground (arith, same, f)
                | inr t ↦ ground (arith, least.1 q t, same)
              ],
            )
      ]
]

module _ {T : Type 0} where
  taken-slot :
      (k : ℕ) (slots : Slots T) {p : ℕ × ℕ}
      → Memᴰ p (taken k slots)
      → (j : ℕ) × (s : CounterSlot T) × (p.0 ≡ k + j)
        × (get_elem? slots j ≡ some (some s))
        × (s.approx_count ≡ p.1)
  unfolding taken
  taken-slot k [] m = absurd (Memᴰ.not-nil m)
  taken-slot k (none ∷ slots) m =
      let (j, s, e, at, c) = taken-slot (suc k) slots m in (suc j, s, omega (arith, e), at, c)
  taken-slot k (some x ∷ slots) m = elim (Memᴰ.cases_cons m) [
    | inl e ↦ (0, x, ground arith, refl, ground arith)
    | inr t ↦
        let (j, s, e, at, c) = taken-slot (suc k) slots t in (suc j, s, omega (arith, e), at, c)
  ]

  slot-taken :
      (k : ℕ) (slots : Slots T) {s : CounterSlot T}
      → Memᴰ (some s) slots
      → (i : ℕ) × Memᴰ (i, s.approx_count) (taken k slots)
  unfolding taken
  slot-taken k [] m = absurd (Memᴰ.not-nil m)
  slot-taken k (none ∷ slots) m = elim (Memᴰ.cases_cons m) [
    | inl e ↦ absurd (ground arith)
    | inr t ↦ slot-taken (suc k) slots t
  ]
  slot-taken k (some x ∷ slots) {s} m = elim (Memᴰ.cases_cons m) [
    | inl e ↦ let same : s ≡ x = cc e in (k, Memᴰ.head (ap (λ z. (k, z.approx_count)) same))
    | inr t ↦ let (i, found) = slot-taken (suc k) slots t in (i, Memᴰ.tail found)
  ]

  -- The slot that is given up has the least count.
  pub min_slot_index-least :
      (slots : Slots T) {i : ℕ}
      → min_slot_index slots ≡ some i
      → (s : CounterSlot T) × (get_elem? slots i ≡ some (some s))
        × ((t : CounterSlot T) → Memᴰ (some t) slots → s.approx_count ≤ t.approx_count)
  unfolding min_slot_index
  min_slot_index-least slots {i} h = elim (Option-cases (min_by_count (taken 0 slots))) [
    | inl e ↦ absurd (ground arith)
    | inr (p, e) ↦
        let (m, least) = min_by_count-least (taken 0 slots) e in
        let (j, s, at_j, at, c) = taken-slot 0 slots m in
        let same : p.0 ≡ i = cc (rw (e, min_slot_index) at h) in
        let j_is : j ≡ i = omega (arith, at_j, same) in
        (
          s,
          subst (λ z. get_elem? slots z ≡ some (some s)) j_is at,
          λ t m'. let (k, found) = slot-taken 0 slots m' in omega (arith, c, least _ found),
        )
  ]

  pub min_slot_index-none :
      (slots : Slots T) → min_slot_index slots ≡ none → (s : CounterSlot T) → ¬ Memᴰ (some s) slots
  unfolding min_slot_index
  min_slot_index-none slots h s m = elim (Option-cases (min_by_count (taken 0 slots))) [
    | inl e ↦ let (i, found) = slot-taken 0 slots m in min_by_count-none (taken 0 slots) e found
    | inr (p, e) ↦ absurd (ground arith)
  ]

module _ {T : Type 0} (T_eq : T → T → Bool) where
  pub bump-Replaced :
      (v : T) (slots : Slots T) {slots' : Slots T}
      → bump T_eq v slots ≡ some slots'
      → (s : CounterSlot T) × (T_eq s.value v ≡ true)
        × Replaced
            (some s)
            (some (record s { approx_count = increment s.approx_count }))
            slots
            slots'
  unfolding bump
  bump-Replaced v [] h = absurd (ground arith)
  bump-Replaced v (none ∷ slots) h = elim (Option-cases (bump T_eq v slots)) [
    | inl e ↦ absurd (ground arith)
    | inr (rest, e) ↦
        let (s, same, r) = bump-Replaced v slots e in
        (s, same, subst (Replaced _ _ (none ∷ slots)) (cc (rw (e, bump) at h)) (there r))
  ]
  bump-Replaced v (some x ∷ slots) h = elim (Bool-cases (T_eq x.value v)) [
    | inl same ↦ (x, same, subst (Replaced _ _ (some x ∷ slots)) (cc (rw (same, bump) at h)) here)
    | inr other ↦ elim (Option-cases (bump T_eq v slots)) [
      | inl e ↦ absurd (ground arith)
      | inr (rest, e) ↦
          let (s, same, r) = bump-Replaced v slots e in
          (s, same, subst (Replaced _ _ (some x ∷ slots)) (cc (rw (other, bump, e) at h)) (there r))
    ]
  ]

  -- A value that no slot is counted up for has no slot.
  pub bump-Untracked :
      (v : T) (slots : Slots T)
      → bump T_eq v slots ≡ none
      → (s : CounterSlot T) → Memᴰ (some s) slots
      → T_eq s.value v ≡ false
  unfolding bump
  bump-Untracked v [] h s m = absurd (Memᴰ.not-nil m)
  bump-Untracked v (none ∷ slots) h s m = elim (Memᴰ.cases_cons m) [
    | inl e ↦ absurd (ground arith)
    | inr t ↦ bump-Untracked v slots (ground arith) s t
  ]
  bump-Untracked v (some x ∷ slots) h s m = elim (Bool-cases (T_eq x.value v)) [
    | inl same ↦ absurd (ground arith)
    | inr other ↦ elim (Memᴰ.cases_cons m) [
      | inl e ↦ let is_x : s ≡ x = cc e in ap (λ z. T_eq z.value v) is_x ∙ other
      | inr t ↦ bump-Untracked v slots (ground arith) s t
    ]
  ]

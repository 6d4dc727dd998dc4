-- ===== src/Counter/Record.antt =====
-- `record` keeps the counts within their bounds (soac-eval/src/counter.rs).
use diet_python.Prelude.Memᴰ
use diet_python.Prelude.{
  zero, [], Option-cases, ℕ, suc, ◌≤◌, ◌<◌, ◌^◌, ◌≡◌, ◌↔◌, refl, sym, ◌∙◌, Bool, true, Option, none,
  some, List, ◌∷◌, length, get_elem?, inl, inr, Memᴰ, arith, Bool-cases, subst,
}
use diet_python.Counter.{
  recorded, record_value, CounterSlot, Slots, increment, new, bump, fill, min_slot_index, displaced,
  set_slot, true_count,
}
use diet_python.Counter.Replaced.{
  fill-full, Replaced, swapped, Replaced-old, Replaced-mem, total, Replaced-total, total-mem,
  fill-Replaced, set_slot-Replaced,
}
use diet_python.Counter.Steps.{
  bump-Untracked, min_slot_index-none, min_slot_index-least, bump-Replaced,
}
use diet_python.Counter.Bounds.{Counts, Untracked, hits, count_of, Untracked-total, write-Counts}

module _ {T : Type 0} (T_eq : T → T → Bool)
    (T_eq_iff : (a b : T) → (T_eq a b ≡ true) ↔ (a ≡ b)) where
  T_eq_refl : (a : T) → T_eq a a ≡ true
  T_eq_refl a = (T_eq_iff a a).1 refl

  fits :
      {history : List T} {slots : Slots T} {s : CounterSlot T}
      → Counts T_eq history slots
      → suc (length history) < 2 ^ 64
      → Memᴰ (some s) slots
      → increment s.approx_count ≡ suc s.approx_count
  fits {slots = slots} old small m = omega (arith, total-mem count_of slots m, old.sum)

  bump-Counts :
      (v : T) (history : List T) {slots slots' : Slots T}
      → Counts T_eq history slots
      → suc (length history) < 2 ^ 64
      → bump T_eq v slots ≡ some slots'
      → Counts T_eq (v ∷ history) slots'
  bump-Counts v history {slots} {slots'} old small h =
      let (s, same, r) = bump-Replaced T_eq v slots h in
      let m = Replaced-old r in
      let up = fits old small m in
      let more : (u : T) → Untracked T_eq u slots' → Untracked T_eq u slots = λ u none_has t n.
        elim (Replaced-mem (swapped r) n) [
          | inl e ↦
              let is_s : t ≡ s = cc e in
              rw is_s (
                none_has (record s { approx_count = increment s.approx_count })
                  (Replaced-old (swapped r)))
          | inr n' ↦ none_has t n'
        ] in
      write-Counts T_eq T_eq_iff v history old r same
        (λ u. omega (arith, old.once u, Replaced-total (hits T_eq u) r))
        (omega (arith, old.upper s m, up)) (omega (arith, old.lower s m, up))
        (λ u h. old.unseen u (more u h)) (λ u h. old.rare u (more u h))
        (λ u h. omega (arith, old.rare u (more u h) s m, up)) (omega (arith, up))

  -- A value without a slot has one slot once it is written.
  written-once :
      (v : T) {history : List T} {x : Option (CounterSlot T)} {s' : CounterSlot T} {xs ys : Slots T}
      → Counts T_eq history xs
      → Replaced x (some s') xs ys
      → s'.value ≡ v
      → Untracked T_eq v xs
      → (u : T) → total (hits T_eq u) ys ≤ 1
  written-once v {x = x} {s' = s'} {xs = xs} old r is_v new u =
      elim (Bool-cases (T_eq s'.value u)) [
        | inl hit ↦
            let v_is_u : v ≡ u = sym is_v ∙ (T_eq_iff s'.value u).0 hit in
            let none_u : total (hits T_eq u) xs ≡ 0 =
              subst (λ z. total (hits T_eq z) xs ≡ 0) v_is_u (Untracked-total T_eq v xs new) in
            let one : hits T_eq u (some s') ≡ 1 = rw hit refl in
            omega (arith, Replaced-total (hits T_eq u) r, none_u, one)
        | inr miss ↦
            let nought : hits T_eq u (some s') ≡ 0 = rw miss refl in
            omega (arith, Replaced-total (hits T_eq u) r, old.once u, nought)
      ]

  fill-Counts :
      (v : T) (history : List T) {slots slots' : Slots T}
      → Counts T_eq history slots
      → Untracked T_eq v slots
      → fill (record { value = v; approx_count = 1; max_overcount = 0 }) slots ≡ some slots'
      → Counts T_eq (v ∷ history) slots'
  fill-Counts v history {slots} {slots'} old new h =
      let r = fill-Replaced (record { value = v; approx_count = 1; max_overcount = 0 }) slots h in
      let empty : Memᴰ none slots = Replaced-old r in
      let more : (u : T) → Untracked T_eq u slots' → Untracked T_eq u slots = λ u none_has t n.
        elim (Replaced-mem (swapped r) n) [
          | inl e ↦ absurd (ground arith)
          | inr n' ↦ none_has t n'
        ] in
      let nought = old.unseen v new empty in
      write-Counts T_eq T_eq_iff v history old r (T_eq_refl v) (written-once v old r refl new)
        (omega (arith, nought)) (omega (arith, nought)) (λ u h. old.unseen u (more u h))
        (λ u h. old.rare u (more u h)) (λ u h. omega (arith, old.unseen u (more u h) empty))
        (omega arith)

  evict-Counts :
      (v : T) (history : List T) {slots : Slots T} {i : ℕ}
      → Counts T_eq history slots
      → suc (length history) < 2 ^ 64
      → Untracked T_eq v slots
      → ¬ Memᴰ none slots
      → min_slot_index slots ≡ some i
      → Counts T_eq (v ∷ history) (
          set_slot i
            (some (record {
              value = v;
              approx_count = increment (displaced (get_elem? slots i));
              max_overcount = displaced (get_elem? slots i);
            }))
            slots)
  unfolding displaced
  evict-Counts v history {slots} {i} old small new full h =
      let (s, at, least) = min_slot_index-least slots h in
      rw at (
        let s' : CounterSlot T = record {
          value = v;
          approx_count = increment s.approx_count;
          max_overcount = s.approx_count;
        } in
        let r = set_slot-Replaced i (some s) (some s') slots at in
        let m = Replaced-old r in
        let up = fits old small m in
        let low : (u : T)
            → Untracked T_eq u (set_slot i (some s') slots)
            → true_count T_eq u history ≤ s.approx_count =
          λ u h'. elim (Bool-cases (T_eq s.value u)) [
            | inl hit ↦
                subst (λ z. true_count T_eq z history ≤ s.approx_count) ((T_eq_iff s.value u).0 hit)
                  (old.upper s m)
            | inr miss ↦
                old.rare u
                  (λ t n. elim (Replaced-mem (swapped r) n) [
                    | inl e ↦ let is_s : t ≡ s = cc e in rw is_s miss
                    | inr n' ↦ h' t n'
                  ])
                  s m
          ] in
        write-Counts T_eq T_eq_iff v history old r (T_eq_refl v) (written-once v old r refl new)
          (omega (arith, old.rare v new s m, up)) (omega (arith, up)) (λ u h' n. absurd (full n))
          (λ u h' t n. omega (arith, low u h', least t n)) (λ u h'. omega (arith, low u h', up))
          (omega (arith, up)))

  record_value-Counts :
      (v : T) (history : List T) {slots : Slots T}
      → Counts T_eq history slots
      → suc (length history) < 2 ^ 64
      → Counts T_eq (v ∷ history) (record_value T_eq v slots)
  unfolding record_value
  record_value-Counts v history {slots} old small = elim (Option-cases (bump T_eq v slots)) [
    | inr (slots', e) ↦ rw (e, record_value) (bump-Counts v history old small e)
    | inl e ↦
        let new = bump-Untracked T_eq v slots e in
        elim (Option-cases
          (fill (record { value = v; approx_count = 1; max_overcount = 0 }) slots)) [
            | inr (slots', f) ↦ rw (e, record_value, f) (fill-Counts v history old new f)
            | inl f ↦
                let full = fill-full _ slots f in
                elim (Option-cases (min_slot_index slots)) [
                  | inr (i, g) ↦
                      rw (e, record_value, f, g) (evict-Counts v history old small new full g)
                  | inl g ↦
                      let nothing = min_slot_index-none slots g in
                      rw (e, record_value, f, g)
                        (record {
                          once = old.once;
                          upper = λ s m. absurd (nothing s m);
                          lower = λ s m. absurd (nothing s m);
                          unseen = λ u h m. absurd (full m);
                          rare = λ u h t m. absurd (nothing t m);
                          sum = omega (arith, old.sum);
                        })
                ]
          ]
  ]

  empty-total : (w : Option (CounterSlot T) → ℕ) → w none ≡ 0 → (n : ℕ) → total w (new n) ≡ 0
  unfolding new
  empty-total w h zero = refl
  empty-total w h (suc n) = omega (arith, h, empty-total w h n)

  empty-slots : (n : ℕ) (s : CounterSlot T) → ¬ Memᴰ (some s) (new n)
  unfolding new
  empty-slots zero s m = Memᴰ.not-nil m
  empty-slots (suc n) s m = elim (Memᴰ.cases_cons m) [
    | inl e ↦ ground arith
    | inr t ↦ empty-slots n s t
  ]

  pub recorded-Counts :
      (capacity : ℕ) (history : List T)
      → length history < 2 ^ 64
      → Counts T_eq history (recorded T_eq capacity history)
  unfolding recorded true_count
  recorded-Counts capacity [] small = record {
    once = λ v. omega (arith, empty-total (hits T_eq v) refl capacity);
    upper = λ s m. absurd (empty-slots capacity s m);
    lower = λ s m. absurd (empty-slots capacity s m);
    unseen = λ v h m. refl;
    rare = λ v h t m. absurd (empty-slots capacity t m);
    sum = omega (arith, empty-total count_of refl capacity);
  }
  recorded-Counts capacity (v ∷ history) small =
      record_value-Counts v history (recorded-Counts capacity history (omega arith)) small

-- ===== src/Counter/Bounds.antt =====
-- The counts of the space-saving counter against the true counts (soac-eval/src/counter.rs).
use diet_python.Prelude.{
  ℕ, suc, ◌+◌, ◌≤◌, ◌≡◌, ◌↔◌, refl, sym, ◌∙◌, ap, Bool, true, false, Option, none, some, List, [],
  ◌∷◌, length, inl, inr, Memᴰ, arith, Bool-cases, if◌then◌else◌, subst,
}
use diet_python.Prelude.Memᴰ
use diet_python.Counter.{CounterSlot, Slots, true_count}
use diet_python.Counter.Replaced.{
  Replaced, swapped, Replaced-old, Replaced-mem, total, Replaced-total, total-mem,
}

module _ {T : Type 0} where
  abbrev pub count_of : Option (CounterSlot T) → ℕ
  count_of none = 0
  count_of (some s) = s.approx_count

module _ {T : Type 0} (T_eq : T → T → Bool) where
  abbrev pub hits : T → Option (CounterSlot T) → ℕ
  hits v none = 0
  hits v (some s) = if T_eq s.value v then 1 else 0

  -- No slot has the value.
  abbrev pub Untracked : T → Slots T → Type 0
  Untracked v slots = (s : CounterSlot T) → Memᴰ (some s) slots → T_eq s.value v ≡ false

  -- What the slots say of the values recorded so far.
  pub record Counts (history : List T) (slots : Slots T) : Type 0 where
    -- no value has two slots
    pub once : (v : T) → total (hits v) slots ≤ 1
    pub upper :
        (s : CounterSlot T) → Memᴰ (some s) slots → true_count T_eq s.value history ≤ s.approx_count
    pub lower :
        (s : CounterSlot T)
        → Memᴰ (some s) slots
        → s.approx_count ≤ true_count T_eq s.value history + s.max_overcount
    pub unseen : (v : T) → Untracked v slots → Memᴰ none slots → true_count T_eq v history ≡ 0
    pub rare :
        (v : T)
        → Untracked v slots
        → (t : CounterSlot T) → Memᴰ (some t) slots
        → true_count T_eq v history ≤ t.approx_count
    pub sum : total count_of slots ≤ length history

  hits-one : (v : T) (s : CounterSlot T) → T_eq s.value v ≡ true → hits v (some s) ≡ 1
  hits-one v s h = rw h refl

  -- Two slots of one value are the same.
  pub same_slot :
      (v : T) (slots : Slots T)
      → total (hits v) slots ≤ 1
      → {s t : CounterSlot T} → Memᴰ (some s) slots
      → Memᴰ (some t) slots
      → T_eq s.value v ≡ true
      → T_eq t.value v ≡ true
      → s ≡ t
  same_slot v [] once m n hs ht = absurd (Memᴰ.not-nil m)
  same_slot v (x ∷ slots) once {s} {t} m n hs ht = elim (Memᴰ.cases_cons m) [
    | inl e ↦ elim (Memᴰ.cases_cons n) [
      | inl f ↦ let both : some s ≡ some t = e ∙ sym f in cc both
      | inr n' ↦ absurd (
          omega (
            arith,
            once,
            total-mem (hits v) slots n',
            hits-one v t ht,
            hits-one v s hs,
            ap (hits v) e,
          ))
    ]
    | inr m' ↦ elim (Memᴰ.cases_cons n) [
      | inl f ↦ absurd (
          omega (
            arith,
            once,
            total-mem (hits v) slots m',
            hits-one v s hs,
            hits-one v t ht,
            ap (hits v) f,
          ))
      | inr n' ↦ same_slot v slots (omega arith) m' n' hs ht
    ]
  ]

  pub Untracked-total : (v : T) (slots : Slots T) → Untracked v slots → total (hits v) slots ≡ 0
  Untracked-total v [] h = refl
  Untracked-total v (none ∷ slots) h =
      omega (arith, Untracked-total v slots (λ s m. h s (Memᴰ.tail m)))
  Untracked-total v (some x ∷ slots) h =
      rw (h x (Memᴰ.head refl)) (omega (arith, Untracked-total v slots (λ s m. h s (Memᴰ.tail m))))

  counted :
      (u v : T) (history : List T)
      → T_eq v u ≡ true
      → true_count T_eq u (v ∷ history) ≡ suc (true_count T_eq u history)
  unfolding true_count
  counted u v history h = rw h refl

  not_counted :
      (u v : T) (history : List T)
      → T_eq v u ≡ false
      → true_count T_eq u (v ∷ history) ≡ true_count T_eq u history
  unfolding true_count
  not_counted u v history h = rw h refl

  module _ (T_eq_iff : (a b : T) → (T_eq a b ≡ true) ↔ (a ≡ b)) where
    T_eq_sym : (a b : T) → T_eq a b ≡ true → T_eq b a ≡ true
    T_eq_sym a b h = (T_eq_iff b a).1 (sym ((T_eq_iff a b).0 h))

    T_eq_sym_false : (a b : T) → T_eq a b ≡ false → T_eq b a ≡ false
    T_eq_sym_false a b h = elim (Bool-cases (T_eq b a)) [
      | inl e ↦ absurd (ground (arith, T_eq_sym b a e))
      | inr e ↦ e
    ]

    -- One slot is written, for the value that is recorded.
    pub write-Counts :
        (v : T) (history : List T) {x : Option (CounterSlot T)} {s' : CounterSlot T}
        {xs ys : Slots T}
        → Counts history xs
        → Replaced x (some s') xs ys
        → T_eq s'.value v ≡ true
        → ((u : T) → total (hits u) ys ≤ 1)
        → suc (true_count T_eq s'.value history) ≤ s'.approx_count
        → s'.approx_count ≤ suc (true_count T_eq s'.value history) + s'.max_overcount
        → ((u : T) → Untracked u ys → Memᴰ none xs → true_count T_eq u history ≡ 0)
        → ((u : T)
            → Untracked u ys
            → (t : CounterSlot T) → Memᴰ (some t) xs
            → true_count T_eq u history ≤ t.approx_count)
        → ((u : T) → Untracked u ys → true_count T_eq u history ≤ s'.approx_count)
        → s'.approx_count ≤ suc (count_of x)
        → Counts (v ∷ history) ys
    write-Counts v history {x} {s'} {xs} {ys} old r same once upper lower unseen rare rare' grows =
        let new_mem : Memᴰ (some s') ys = Replaced-old (swapped r) in
        let now = counted s'.value v history (T_eq_sym s'.value v same) in
        let other = λ (u : T) (h : Untracked u ys).
          not_counted u v history
            (subst (λ z. T_eq z u ≡ false) ((T_eq_iff s'.value v).0 same) (h s' new_mem)) in
        record {
          once = once;
          upper = λ s m. elim (Bool-cases (T_eq s.value v)) [
            | inl hit ↦
                let is_new = same_slot v ys (once v) m new_mem hit same in
                rw is_new (omega (arith, now))
            | inr miss ↦ elim (Replaced-mem r m) [
              | inl e ↦ let is_new : s ≡ s' = cc e in absurd (ground (arith, is_new))
              | inr m' ↦ omega (
                arith,
                old.upper s m',
                not_counted s.value v history (T_eq_sym_false s.value v miss),
              )
            ]
          ];
          lower = λ s m. elim (Bool-cases (T_eq s.value v)) [
            | inl hit ↦
                let is_new = same_slot v ys (once v) m new_mem hit same in
                rw is_new (omega (arith, now))
            | inr miss ↦ elim (Replaced-mem r m) [
              | inl e ↦ let is_new : s ≡ s' = cc e in absurd (ground (arith, is_new))
              | inr m' ↦ omega (
                arith,
                old.lower s m',
                not_counted s.value v history (T_eq_sym_false s.value v miss),
              )
            ]
          ];
          unseen = λ u h m. elim (Replaced-mem r m) [
            | inl e ↦ absurd (ground arith)
            | inr m' ↦ other u h ∙ unseen u h m'
          ];
          rare = λ u h t m. elim (Replaced-mem r m) [
            | inl e ↦ let is_new : t ≡ s' = cc e in rw is_new (omega (arith, other u h, rare' u h))
            | inr m' ↦ omega (arith, other u h, rare u h t m')
          ];
          sum = omega (arith, Replaced-total count_of r, old.sum);
        }

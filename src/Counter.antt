-- ===== src/Counter.antt =====
-- The heavy-hitter counter of the evaluator (soac-eval/src/counter.rs). `T_eq` is the values' `Eq`.
-- A count is a u64, and its increment wraps around.
pub mod Replaced
pub mod Steps
pub mod Bounds
pub mod Record
pub mod Estimates
use diet_python.Prelude.{
  ℕ, zero, suc, ◌+◌, ◌-◌, ◌%◌, ◌^◌, leb, Bool, Option, none, some, List, [], ◌∷◌, get_elem?,
  if◌then◌else◌,
}
use mathlib.Core.Option

pub record CounterSlot (T : Type 0) : Type 0 where
  pub value : T
  pub approx_count : ℕ
  pub max_overcount : ℕ

-- `[Option<CounterSlot<T>>; N]`, the one field of `Counter`.
abbrev pub Slots : Type 0 → Type 0
Slots T = List (Option (CounterSlot T))

-- `CounterEntry::lower_bound`, a saturating subtraction.
unfoldable pub lower_bound : {T : Type 0} → CounterSlot T → ℕ
lower_bound s = s.approx_count - s.max_overcount

abbrev pub increment : ℕ → ℕ
increment n = suc n % 2 ^ 64

-- `min_by_key` on the counts: the first of the least.
unfoldable pub min_by_count : List (ℕ × ℕ) → Option (ℕ × ℕ)
min_by_count [] = none
min_by_count (p ∷ ps) = elim (min_by_count ps) [
  | none ↦ some p
  | some q ↦ if leb p.1 q.1 then some p else some q
]

module _ {T : Type 0} where
  -- `Counter::new`
  unfoldable pub new : ℕ → Slots T
  new zero = []
  new (suc n) = none ∷ new n

  -- `Counter::len`
  unfoldable pub len : Slots T → ℕ
  len [] = 0
  len (none ∷ slots) = len slots
  len (some s ∷ slots) = suc (len slots)

  -- The indices and counts of the slots that are taken, from an index on.
  unfoldable pub taken : ℕ → Slots T → List (ℕ × ℕ)
  taken i [] = []
  taken i (none ∷ slots) = taken (suc i) slots
  taken i (some s ∷ slots) = (i, s.approx_count) ∷ taken (suc i) slots

  -- `min_slot_index`
  unfoldable pub min_slot_index : Slots T → Option ℕ
  min_slot_index slots = Option.map (λ p. p.0) (min_by_count (taken 0 slots))

  -- The first empty slot is filled; `none` where there is none.
  unfoldable pub fill : CounterSlot T → Slots T → Option (Slots T)
  fill new_slot [] = none
  fill new_slot (none ∷ slots) = some (some new_slot ∷ slots)
  fill new_slot (some s ∷ slots) = Option.map (λ rest. some s ∷ rest) (fill new_slot slots)

  -- The write `self.slots[index] = x`.
  unfoldable pub set_slot : ℕ → Option (CounterSlot T) → Slots T → Slots T
  set_slot i x [] = []
  set_slot zero x (y ∷ slots) = x ∷ slots
  set_slot (suc i) x (y ∷ slots) = y ∷ set_slot i x slots

  -- The count of the slot at an index, 0 if it is empty.
  unfoldable pub displaced : Option (Option (CounterSlot T)) → ℕ
  displaced (some (some s)) = s.approx_count
  displaced (some none) = 0
  displaced none = 0

module _ {T : Type 0} (T_eq : T → T → Bool) where
  -- The first slot of the value is counted up; `none` where there is none.
  unfoldable pub bump : T → Slots T → Option (Slots T)
  bump v [] = none
  bump v (none ∷ slots) = Option.map (λ rest. none ∷ rest) (bump v slots)
  bump v (some s ∷ slots) =
      let rest = bump v slots in
      if T_eq s.value v
      then some (some (record s { approx_count = increment s.approx_count }) ∷ slots)
      else Option.map (λ rest. some s ∷ rest) rest

  -- `Counter::record`
  unfoldable pub record_value : T → Slots T → Slots T
  record_value v slots = elim (bump v slots) [
    | some counted ↦ counted
    | none ↦ elim (fill (record { value = v; approx_count = 1; max_overcount = 0 }) slots) [
      | some filled ↦ filled
      | none ↦ elim (min_slot_index slots) [
        | none ↦ slots
        | some i ↦
            let displaced_count = displaced (get_elem? slots i) in
            set_slot i
              (some (record {
                value = v;
                approx_count = increment displaced_count;
                max_overcount = displaced_count;
              }))
              slots
      ]
    ]
  ]

  -- `Counter::approx_count`
  unfoldable pub approx_count : T → Slots T → Option ℕ
  approx_count v [] = none
  approx_count v (none ∷ slots) = approx_count v slots
  approx_count v (some s ∷ slots) =
      let rest = approx_count v slots in if T_eq s.value v then some s.approx_count else rest

  -- The calls of `record`, the last of them at the head.
  unfoldable pub recorded : ℕ → List T → Slots T
  recorded capacity [] = new capacity
  recorded capacity (v ∷ earlier) = record_value v (recorded capacity earlier)

  -- How often a value was recorded.
  unfoldable pub true_count : T → List T → ℕ
  true_count v [] = 0
  true_count v (u ∷ earlier) =
      let rest = true_count v earlier in if T_eq u v then suc rest else rest

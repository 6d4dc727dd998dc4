-- ===== src/Instrument/Fragment/Fuel.antt =====
-- The walk over a fragment ends (soac-blockpy/src/passes/instrument.rs).
use diet_python.Prelude.{
  ℕ, zero, suc, ◌≤◌, ◌<◌, ◌==◌, ◌++◌, Bool, true, false, some, List, [], ◌∷◌, Map, lookup, ◌≡◌,
  refl, inl, inr, arith, Bool-cases, Option-cases, length, if◌then◌else◌,
}
use diet_python.Ir.Label.{BlockLabel, is_fallthrough}
use diet_python.Ir.Block.{Block, BlockTerm, jump, if_term, branch_table, raise, return}
use diet_python.Cfg.Prune.{contains}
use diet_python.Instrument.Fragment.{
  Walked, Visit, all_targets, term_ends, enter, remember, all_paths_end_in_fallthrough,
}

abbrev Answers : Visit → Type 0
Answers visit = (l : BlockLabel) (w : Walked) → (r : Bool × Walked) × (visit l w ≡ some r)

all_targets_total :
    (visit : Visit)
    → Answers visit
    → (ts : List BlockLabel) (w : Walked) → (r : Bool × Walked) × (all_targets visit ts w ≡ some r)
unfolding all_targets
all_targets_total visit ok [] w = ((true, w), refl)
all_targets_total visit ok (t ∷ ts) w = elim (Bool-cases (is_fallthrough t)) [
  | inl out ↦ rw out (all_targets_total visit ok ts w)
  | inr inside ↦
      let ((valid, w'), ran) = ok t w in
      rw (inside, ran)
        (elim (Bool-cases valid) [
          | inl good ↦ rw good (all_targets_total visit ok ts w')
          | inr stopped ↦ rw stopped ((false, w'), refl)
        ])
]

term_ends_total {ℓ} :
    {E : Type ℓ} (visit : Visit)
    → Answers visit
    → (t : BlockTerm E) (w : Walked) → (r : Bool × Walked) × (term_ends visit t w ≡ some r)
unfolding term_ends
term_ends_total visit ok (jump e) w = all_targets_total visit ok (e.target ∷ []) w
term_ends_total visit ok (if_term c a b) w = all_targets_total visit ok (a ∷ b ∷ []) w
term_ends_total visit ok (branch_table i ts d) w = all_targets_total visit ok (ts ++ d ∷ []) w
term_ends_total visit ok (raise x) w = ((false, w), refl)
term_ends_total visit ok (return x) w = ((false, w), refl)

module _ {ℓ} {E : Type ℓ} where
  -- The blocks that are not on the stack.
  room : List BlockLabel → Map (Block E E) → ℕ
  room stack [] = 0
  room stack ((k, b) ∷ m) = if contains stack k then room stack m else suc (room stack m)

  room_most : (stack : List BlockLabel) (m : Map (Block E E)) → room stack m ≤ length m
  unfolding room
  room_most stack [] = omega arith
  room_most stack ((k, b) ∷ m) = ground (arith, room_most stack m)

  room_shrinks :
      (l : BlockLabel) (stack : List BlockLabel) (m : Map (Block E E))
      → room (l ∷ stack) m ≤ room stack m
  unfolding room
  room_shrinks l stack [] = omega arith
  room_shrinks l stack ((k, b) ∷ m) = ground (arith, room_shrinks l stack m)

  -- A block that goes on the stack leaves less room.
  room-push :
      (l : BlockLabel) (stack : List BlockLabel) (m : Map (Block E E)) {b : Block E E}
      → contains stack l ≡ false
      → lookup l m ≡ some b
      → room (l ∷ stack) m < room stack m
  unfolding room
  room-push l stack [] fresh h = absurd (cc)
  room-push l stack ((k, c) ∷ m) fresh h = elim (Bool-cases (k == l)) [
    | inl e ↦ ground (arith, room_shrinks l stack m)
    | inr e ↦ let later = room-push l stack m fresh (rw e at h) in ground arith
  ]

  module _ (blocks : Map (Block E E)) where
    walk_total :
        (depth : ℕ) (stack : List BlockLabel)
        → room stack blocks < depth
        → Answers (all_paths_end_in_fallthrough blocks depth stack)
    unfolding all_paths_end_in_fallthrough
    walk_total zero stack h l w = absurd (omega arith)
    walk_total (suc depth) stack h l w = elim (Option-cases (lookup l w.memo)) [
      | inr (valid, known) ↦ rw (known, all_paths_end_in_fallthrough) ((valid, enter l w), refl)
      | inl new ↦ elim (Bool-cases (contains stack l)) [
        | inl below ↦ rw (new, below, all_paths_end_in_fallthrough) ((false, w), refl)
        | inr fresh ↦ elim (Option-cases (lookup l blocks)) [
          | inl missing ↦ rw (new, fresh, missing, all_paths_end_in_fallthrough) ((false, w), refl)
          | inr (b, found) ↦
              let smaller = room-push l stack blocks fresh found in
              let (done, ran) =
                term_ends_total (all_paths_end_in_fallthrough blocks depth (l ∷ stack))
                  (walk_total depth (l ∷ stack) (omega arith)) b.term (enter l w) in
              rw (new, fresh, found, ran, all_paths_end_in_fallthrough) (remember l done, refl)
        ]
      ]
    ]

    -- As deep as there are blocks, and one more.
    pub walk-returns :
        (l : BlockLabel) (w : Walked)
        → (r : Bool × Walked) × (all_paths_end_in_fallthrough blocks (suc (length blocks)) [] l w
            ≡ some r)
    walk-returns = walk_total (suc (length blocks)) [] (omega (arith, room_most [] blocks))

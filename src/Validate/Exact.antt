-- ===== src/Validate/Exact.antt =====
-- Validation accepts exactly the sound functions (validate.rs).
use diet_python.Prelude.{
  ℕ, zero, suc, ◌+◌, ◌≡◌, refl, str_eq_iff, ◌==◌, true, Option, none, some, List, [], ◌∷◌, find,
  get_elem?, and_then, check_all, ◌↔◌, inl, inr, any, Memᴰ, Passes, and_then-Passes, unless-Passes,
  check_all-Passes, arith, Option-cases, Bool-cases,
}
use diet_python.Ir.Label.{BlockLabel}
use diet_python.Ir.Layout.{StorageLayout, ClosureSlot}
use diet_python.Ir.Block.{
  Block, BlockEdge, BlockTerm, jump, if_term, branch_table, raise, return, edge_to,
}
use diet_python.Validate.{
  Function, jump_target, then_target, else_target, br_table_target, br_table_default_target,
  logical, check_cellvar, check_freevar, validate_storage_layout_scoping,
  validate_non_exception_edge, validate_exception_edge, validate_term, validate_block, check_dense,
  validate_function,
}
use diet_python.Validate.Edges.{EdgeIsSound, validate_non_exception_edge-IsSound}
use diet_python.Validate.Handlers.{HandlerIsSound, validate_exception_edge-IsSound}

-- The slots that the scope asks for are in the layout: each cell under its storage name, each free
-- variable under its logical name. Nothing is asked of a layout where the scope needs none.
abbrev pub LayoutIsSound : Option StorageLayout → Option StorageLayout → Type 0
LayoutIsSound none layout = Unit
LayoutIsSound (some expected) none = ⊥
LayoutIsSound (some expected) (some layout) =
    ((s : ClosureSlot)
      → Memᴰ s expected.cellvars
      → (c : ClosureSlot) × (find (logical s.logical_name) layout.cellvars ≡ some c)
        × (c.storage_name ≡ s.storage_name))
    × ((s : ClosureSlot)
        → Memᴰ s expected.freevars
        → any (logical s.logical_name) layout.freevars ≡ true)

check_cellvar_sound :
    (layout : StorageLayout) (s : ClosureSlot)
    → Passes (check_cellvar layout s) ↔ (
        (c : ClosureSlot) × (find (logical s.logical_name) layout.cellvars ≡ some c)
        × (c.storage_name ≡ s.storage_name))
unfolding check_cellvar
check_cellvar_sound layout s = elim (Option-cases (find (logical s.logical_name) layout.cellvars)) [
  | inl missing ↦
      rw (missing, check_cellvar)
        (λ h. absurd (ground arith), λ (c, e, n). absurd (ground (arith, e, missing)))
  | inr (c, found) ↦
      rw (found, check_cellvar)
        (
          λ h. (c, refl, ground (arith, str_eq_iff c.storage_name s.storage_name)),
          λ (d, e, n). ground (arith, str_eq_iff c.storage_name s.storage_name),
        )
]

layout-IsSound :
    (expected layout : Option StorageLayout)
    → Passes (validate_storage_layout_scoping expected layout) ↔ LayoutIsSound expected layout
unfolding validate_storage_layout_scoping check_freevar
layout-IsSound none none = (λ h. tt, λ h. refl)
layout-IsSound none (some layout) = (λ h. tt, λ h. refl)
layout-IsSound (some expected) none = (λ h. ground arith, λ h. absurd h)
layout-IsSound (some expected) (some layout) =
    let both =
      and_then-Passes (check_all (check_cellvar layout) expected.cellvars)
        (check_all (check_freevar layout) expected.freevars) in
    let cells = check_all-Passes (check_cellvar layout) expected.cellvars in
    let frees = check_all-Passes (check_freevar layout) expected.freevars in
    (
      λ h. (
        λ s m. (check_cellvar_sound layout s).0 (cells.0 (both.0 h).0 s m),
        λ s m.
            (unless-Passes (any (logical s.logical_name) layout.freevars) _).0
              (frees.0 (both.0 h).1 s m),
      ),
      λ (c, f). both.1 (
        cells.1 (λ s m. (check_cellvar_sound layout s).1 (c s m)),
        frees.1 (λ s m. (unless-Passes (any (logical s.logical_name) layout.freevars) _).1 (f s m)),
      ),
    )

module _ {ℓ} {E : Type ℓ} where
  abbrev pub TermIsSound : List (Block E E) → Block E E → BlockTerm E → Type ℓ
  TermIsSound blocks b (jump e) = EdgeIsSound blocks b e
  TermIsSound blocks b (if_term t x y) =
      EdgeIsSound blocks b (edge_to x) × EdgeIsSound blocks b (edge_to y)
  TermIsSound blocks b (branch_table i ts d) =
      ((t : BlockLabel) → Memᴰ t ts → EdgeIsSound blocks b (edge_to t))
      × EdgeIsSound blocks b (edge_to d)
  TermIsSound blocks b (raise x) = Unit
  TermIsSound blocks b (return x) = Unit

  validate_term-IsSound :
      (blocks : List (Block E E)) (b : Block E E) (t : BlockTerm E)
      → Passes (validate_term blocks b t) ↔ TermIsSound blocks b t
  unfolding validate_term
  validate_term-IsSound blocks b (jump e) =
      validate_non_exception_edge-IsSound blocks jump_target b e
  validate_term-IsSound blocks b (if_term t x y) =
      let both =
        and_then-Passes (validate_non_exception_edge blocks then_target b (edge_to x))
          (validate_non_exception_edge blocks else_target b (edge_to y)) in
      let first = validate_non_exception_edge-IsSound blocks then_target b (edge_to x) in
      let second = validate_non_exception_edge-IsSound blocks else_target b (edge_to y) in
      (λ h. (first.0 (both.0 h).0, second.0 (both.0 h).1), λ (p, q). both.1 (first.1 p, second.1 q))
  validate_term-IsSound blocks b (branch_table i ts d) =
      let check =
        λ (t : BlockLabel). validate_non_exception_edge blocks br_table_target b (edge_to t) in
      let both =
        and_then-Passes (check_all check ts)
          (validate_non_exception_edge blocks br_table_default_target b (edge_to d)) in
      let all = check_all-Passes check ts in
      let each = λ (t : BlockLabel).
        validate_non_exception_edge-IsSound blocks br_table_target b (edge_to t) in
      let last = validate_non_exception_edge-IsSound blocks br_table_default_target b (edge_to d) in
      (
        λ h. (λ t m. (each t).0 (all.0 (both.0 h).0 t m), last.0 (both.0 h).1),
        λ (p, q). both.1 (all.1 (λ t m. (each t).1 (p t m)), last.1 q),
      )
  validate_term-IsSound blocks b (raise x) = (λ h. tt, λ h. refl)
  validate_term-IsSound blocks b (return x) = (λ h. tt, λ h. refl)

  abbrev pub ExcIsSound : List (Block E E) → Option BlockEdge → Type ℓ
  ExcIsSound blocks none = Unit
  ExcIsSound blocks (some e) = HandlerIsSound blocks e

  exc-IsSound :
      (blocks : List (Block E E)) (b : Block E E) (e : Option BlockEdge)
      → Passes (validate_exception_edge blocks b e) ↔ ExcIsSound blocks e
  unfolding validate_exception_edge
  exc-IsSound blocks b none = (λ h. tt, λ h. refl)
  exc-IsSound blocks b (some e) = validate_exception_edge-IsSound blocks b e

  cons-positions :
      (n : ℕ) (x : Block E E) (xs : List (Block E E))
      → x.label ≡ n
      → ((i : ℕ) (b : Block E E) → get_elem? xs i ≡ some b → b.label ≡ suc n + i)
      → (i : ℕ) (b : Block E E) → get_elem? (x ∷ xs) i ≡ some b
      → b.label ≡ n + i
  cons-positions n x xs here later zero b e = ground arith
  cons-positions n x xs here later (suc i) b e = omega (arith, later i b e)

  check_dense-positions :
      (n : ℕ) (bs : List (Block E E))
      → Passes (check_dense n bs)
        ↔ ((i : ℕ) (b : Block E E) → get_elem? bs i ≡ some b → b.label ≡ n + i)
  unfolding check_dense
  check_dense-positions n [] = (λ h i b e. absurd (ground arith), λ h. refl)
  check_dense-positions n (x ∷ xs) =
      let rest = check_dense-positions (suc n) xs in
      elim (Bool-cases (x.label == n)) [
        | inl same ↦ rw same (
          λ h. cons-positions n x xs (ground arith) (rest.0 h),
          λ h. rest.1 (λ i b e. omega (arith, h (suc i) b e)),
        )
        | inr other ↦
            rw other (λ h. absurd (ground arith), λ h. absurd (ground (arith, h 0 x refl)))
      ]

  -- Labels are indices, and every edge is sound.
  pub record IsSound (expected : Option StorageLayout) (f : Function E) : Type ℓ where
    pub layout : LayoutIsSound expected f.storage_layout
    pub dense : (i : ℕ) (b : Block E E) → get_elem? f.blocks i ≡ some b → b.label ≡ i
    pub handlers : (b : Block E E) → Memᴰ b f.blocks → ExcIsSound f.blocks b.exc_edge
    pub terms : (b : Block E E) → Memᴰ b f.blocks → TermIsSound f.blocks b b.term

  -- Validation accepts a function exactly if its layout has the slots that the scope asks for, each
  -- label is the block's index, and all its edges are sound.
  pub validate_function-IsSound :
      (expected : Option StorageLayout) (f : Function E)
      → Passes (validate_function expected f) ↔ IsSound expected f
  unfolding validate_function validate_block
  validate_function-IsSound expected f =
      let outer =
        and_then-Passes (validate_storage_layout_scoping expected f.storage_layout)
          (and_then (check_dense 0 f.blocks) (λ _. check_all (validate_block f.blocks) f.blocks)) in
      let inner =
        and_then-Passes (check_dense 0 f.blocks) (check_all (validate_block f.blocks) f.blocks) in
      let layout = layout-IsSound expected f.storage_layout in
      let dense = check_dense-positions 0 f.blocks in
      let all = check_all-Passes (validate_block f.blocks) f.blocks in
      let each = λ (b : Block E E).
        and_then-Passes (validate_exception_edge f.blocks b b.exc_edge)
          (validate_term f.blocks b b.term) in
      (
        λ h. record {
          layout = layout.0 (outer.0 h).0;
          dense = λ i b e. omega (arith, dense.0 (inner.0 (outer.0 h).1).0 i b e);
          handlers = λ b m.
              (exc-IsSound f.blocks b b.exc_edge).0
                ((each b).0 (all.0 (inner.0 (outer.0 h).1).1 b m)).0;
          terms = λ b m.
              (validate_term-IsSound f.blocks b b.term).0
                ((each b).0 (all.0 (inner.0 (outer.0 h).1).1 b m)).1;
        },
        λ s. outer.1 (
          layout.1 s.layout,
          inner.1 (
            dense.1 (λ i b e. omega (arith, s.dense i b e)),
            all.1 (λ b m. (each b).1 (
              (exc-IsSound f.blocks b b.exc_edge).1 (s.handlers b m),
              (validate_term-IsSound f.blocks b b.term).1 (s.terms b m),
            )),
          ),
        ),
      )

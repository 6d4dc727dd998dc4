-- ===== src/TryRegions/Finalize.antt =====
-- `finalize_try_regions` (soac-blockpy/src/passes/ruff_to_blockpy/try_regions.rs) and
-- `set_region_exc_param` (soac-blockpy/src/passes/ruff_to_blockpy/compat.rs).
use diet_python.Prelude.{
  ℕ, zero, suc, String, str_eq, Option, none, some, List, [], ◌∷◌, ◌++◌, map, if◌then◌else◌, ◌>>=◌,
}
use mathlib.Core.Option
use diet_python.Ir.Label.{BlockLabel}
use diet_python.Ir.Block.{
  Block, BlockEdge, BlockArg, AbruptKind, BlockTerm, jump, if_term, branch_table, raise, return,
  edge_to, exception_param, set_exception_param,
}
use diet_python.Ir.Structured.{StructuredInstr, expr}
use diet_python.TryRegions.{TryPlan, empty_block}
use diet_python.TryRegions.Lower.{Range, LoweredTryRegions}

-- The blocks of a range are changed; `none` is the panic of a slice out of range.
unfoldable pub update_slice {ℓ} : {A : Type ℓ} → ℕ → ℕ → (A → A) → List A → Option (List A)
update_slice zero zero f xs = some xs
update_slice zero (suc stop) f [] = none
update_slice zero (suc stop) f (x ∷ xs) = Option.map (λ ys. f x ∷ ys) (update_slice zero stop f xs)
update_slice (suc start) zero f xs = none
update_slice (suc start) (suc stop) f [] = none
update_slice (suc start) (suc stop) f (x ∷ xs) =
    Option.map (λ ys. x ∷ ys) (update_slice start stop f xs)

unfoldable pub update_range {ℓ} : {A : Type ℓ} → (A → A) → Option Range → List A → Option (List A)
update_range f none xs = some xs
update_range f (some r) xs = update_slice r.start r.stop f xs

unfoldable pub rename_arg : String → String → BlockArg → BlockArg
rename_arg old new (BlockArg.name n) = if str_eq n old then BlockArg.name new else BlockArg.name n
rename_arg old new BlockArg.none_arg = BlockArg.none_arg
rename_arg old new BlockArg.current_exception = BlockArg.current_exception
rename_arg old new (BlockArg.abrupt_kind k) = BlockArg.abrupt_kind k

unfoldable pub rewrite_edge_args : String → String → BlockEdge → BlockEdge
rewrite_edge_args old new e = record e { args = map (rename_arg old new) e.args }

module _ {ℓ} {E : Type ℓ} where
  unfoldable pub rename_term_args : String → String → BlockTerm E → BlockTerm E
  rename_term_args old new (jump e) = jump (rewrite_edge_args old new e)
  rename_term_args old new (if_term c a b) = if_term c a b
  rename_term_args old new (branch_table i ts d) = branch_table i ts d
  rename_term_args old new (raise x) = raise x
  rename_term_args old new (return x) = return x

  -- `rename_exception_edge_args`
  unfoldable pub rename_exception_edge_args :
      String → String → Block (StructuredInstr E) E → Block (StructuredInstr E) E
  rename_exception_edge_args old new b = record b {
    term = rename_term_args old new b.term;
    exc_edge = Option.map (rewrite_edge_args old new) b.exc_edge;
  }

  unfoldable pub rename_old :
      Option String → String → Block (StructuredInstr E) E → Block (StructuredInstr E) E
  rename_old none new b = b
  rename_old (some old) new b = if str_eq old new then b else rename_exception_edge_args old new b

  -- One round of `set_region_exc_param`.
  unfoldable pub set_block_exc_param :
      String → Block (StructuredInstr E) E → Block (StructuredInstr E) E
  set_block_exc_param new b =
      rename_old (exception_param b.params) new
        (record b { params = set_exception_param new b.params })

  -- A block by its terminator; `store` makes the store of a value under a name.
  unfoldable pub divert :
      (String → E → E)
      → BlockLabel
      → String
      → BlockTerm E
      → Block (StructuredInstr E) E
      → Block (StructuredInstr E) E
  divert store target payload (return v) b = record b {
    body = b.body ++ expr (store payload v) ∷ [];
    term = jump (record {
      target = target;
      args = BlockArg.abrupt_kind AbruptKind.return ∷ BlockArg.name payload ∷ [];
    });
  }
  divert store target payload (jump e) b = b
  divert store target payload (if_term c x y) b = b
  divert store target payload (branch_table i ts d) b = b
  divert store target payload (raise x) b = b

  -- One round of `rewrite_region_returns_to_finally_blockpy`.
  unfoldable pub rewrite_return :
      (String → E → E)
      → BlockLabel
      → String
      → Block (StructuredInstr E) E
      → Block (StructuredInstr E) E
  rewrite_return store target payload b = divert store target payload b.term b

  -- With no finally clause nothing is rewritten; `none` is the panic on a missing payload name.
  unfoldable pub rewrite_returns :
      (String → E → E)
      → TryPlan
      → LoweredTryRegions
      → List (Block (StructuredInstr E) E)
      → Option (List (Block (StructuredInstr E) E))
  rewrite_returns store plan lowered blocks = elim lowered.finally_label [
    | none ↦ some blocks
    | some target ↦ do
      payload ← plan.finally_abrupt_payload_name
      let f = rewrite_return store target payload
      b1 ← update_range f (some lowered.body_region_range) blocks
      b2 ← update_range f (some lowered.else_region_range) b1
      update_range f lowered.except_region_range b2
  ]

  -- `emit_try_jump_entry` is the last step. `linear` is what lowering the statements before the try
  -- statement gives: `none` is its panic.
  unfoldable pub finalize_try_regions :
      (String → E → E)
      → BlockLabel
      → Option (List (StructuredInstr E))
      → TryPlan
      → LoweredTryRegions
      → Option BlockLabel
      → List (Block (StructuredInstr E) E)
      → Option (List (Block (StructuredInstr E) E))
  finalize_try_regions store label linear plan lowered exc blocks = do
    b1 ← rewrite_returns store plan lowered blocks
    b2 ← update_range (set_block_exc_param plan.except_exc_name) lowered.except_region_range b1
    b3 ← update_range (set_block_exc_param plan.except_exc_name) lowered.finally_region_range b2
    instrs ← linear
    let entry = empty_block label (jump (edge_to lowered.body_label)) exc
    some (b3 ++ record entry { body = instrs } ∷ [])

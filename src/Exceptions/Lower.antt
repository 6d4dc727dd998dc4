-- ===== src/Exceptions/Lower.antt =====
-- Structured blocks become basic blocks (soac-blockpy/src/passes/ruff_to_blockpy/bb_shape.rs).
pub mod Total
use diet_python.Prelude.{
  ℕ, Option, none, some, List, [], ◌∷◌, map, lookup, from_pairs, Map, traverse, ◌>>=◌,
}
use mathlib.Core.Option
use diet_python.Ir.Label.{BlockLabel}
use diet_python.Ir.Block.{Block, BlockEdge, edge_to, bb_params}
use diet_python.Ir.Structured.{StructuredInstr, expr, if_stmt}
use diet_python.Cfg.Linearize.{linearize_structured_ifs}
use diet_python.Exceptions.Populate.{populate_exception_edge_args}

abbrev pub edge_target : Option BlockEdge → Option BlockLabel
edge_target = Option.map (λ e. e.target)

-- `get(..).cloned().flatten().map(BlockEdge::new)`
abbrev pub edge_of : Option (Option BlockLabel) → Option BlockEdge
edge_of none = none
edge_of (some none) = none
edge_of (some (some l)) = some (edge_to l)

module _ {ℓ} {E : Type ℓ} where
  -- `lowered_exception_edges`
  unfoldable pub lowered_exception_edges :
      List (Block (StructuredInstr E) E) → Map (Option BlockLabel)
  lowered_exception_edges bs = from_pairs (map (λ b. (b.label, edge_target b.exc_edge)) bs) []

  -- `none` is the `unreachable!` on an if.
  unfoldable pub lower_stmt : StructuredInstr E → Option E
  lower_stmt (expr e) = some e
  lower_stmt (if_stmt test body orelse) = none

  unfoldable pub lower_block :
      Map (Option BlockLabel) → Block (StructuredInstr E) E → Option (Block E E)
  lower_block edges b = do
    ops ← traverse lower_stmt b.body
    some (record {
      label = b.label;
      body = ops;
      term = b.term;
      params = bb_params b.params;
      exc_edge = edge_of (lookup b.label edges);
    })

  -- `lower_structured_blocks_to_bb_blocks`
  unfoldable pub lower_structured_blocks :
      ℕ → List (Block (StructuredInstr E) E) → Option (List (Block E E))
  lower_structured_blocks next bs =
      let linear = linearize_structured_ifs next bs [] (lowered_exception_edges bs) in
      do
        bb_blocks ← traverse (lower_block linear.exception_edges) linear.blocks
        some (populate_exception_edge_args bb_blocks)

-- ===== src/Exceptions/Split.antt =====
-- Blocks with a handler are split after each instruction that updates the exception state, and
-- exception edges are given their arguments (soac-blockpy/src/passes/blockpy_to_bb/exception_pass).
-- `updates` is `op_updates_exception_state`: it asks whether the instruction is a `Store` or a `Del`.
pub mod Chains
pub mod Leads
use diet_python.Prelude.{ℕ, suc, Bool, true, false, Option, none, some, List, [], ◌∷◌, ◌++◌}
use diet_python.Ir.Label.{BlockLabel}
use diet_python.Ir.Block.{BlockEdge, Block, BlockTerm, jump, edge_to, bb_params}
use diet_python.Exceptions.Populate.{populate_exception_edge_args}

-- The name generator's counter, and `out`.
pub record SplitOutput {ℓ} (E : Type ℓ) : Type ℓ where
  pub next_block_id : ℕ
  pub out : List (Block E E)

module _ {ℓ} {E : Type ℓ} where
  -- A segment of a block, pushed.
  unfoldable pub push_segment :
      Block E E → BlockLabel → List E → BlockTerm E → SplitOutput E → SplitOutput E
  push_segment b label ops term so = record so {
    out =
        so.out
        ++ record {
          label = label;
          body = ops;
          term = term;
          params = bb_params b.params;
          exc_edge = b.exc_edge;
        }
          ∷ [];
  }

  -- `next_block_name`
  unfoldable pub next_block : SplitOutput E → SplitOutput E
  next_block so = record so { next_block_id = suc so.next_block_id }

module _ {ℓ} {E : Type ℓ} (updates : E → Bool) where
  -- The `while let` loop, with the label and the instructions of the segment that is open.
  unfoldable pub split_ops :
      Block E E → BlockLabel → List E → List E → SplitOutput E → SplitOutput E
  split_ops b label segment_ops [] so = so
  split_ops b label segment_ops (op ∷ []) so =
      push_segment b label (segment_ops ++ op ∷ []) b.term so
  split_ops b label segment_ops (op ∷ next ∷ ops) so = elim (updates op) [
    | true ↦ split_ops b so.next_block_id [] (next ∷ ops) (
        push_segment b label (segment_ops ++ op ∷ []) (jump (edge_to so.next_block_id))
          (next_block so))
    | false ↦ split_ops b label (segment_ops ++ op ∷ []) (next ∷ ops) so
  ]

  -- The guard on the exception edge and the body, then the loop.
  unfoldable pub split_guarded :
      Block E E → Option BlockEdge → List E → SplitOutput E → SplitOutput E
  split_guarded b none ops so = record so { out = so.out ++ b ∷ [] }
  split_guarded b (some e) [] so = record so { out = so.out ++ b ∷ [] }
  split_guarded b (some e) (op ∷ ops) so = split_ops b b.label [] (op ∷ ops) so

  -- One round of the `for` loop.
  unfoldable pub split_block : Block E E → SplitOutput E → SplitOutput E
  split_block b so = split_guarded b b.exc_edge b.body so

  unfoldable pub split_blocks : List (Block E E) → SplitOutput E → SplitOutput E
  split_blocks [] so = so
  split_blocks (b ∷ bs) so = split_blocks bs (split_block b so)

  -- `split_exception_blocks_for_expr_checks`
  unfoldable pub split_exception_blocks : ℕ → List (Block E E) → SplitOutput E
  split_exception_blocks next bs = split_blocks bs (record { next_block_id = next; out = [] })

  -- `lower_function_try_jump_exception_flow`, on the blocks of the function.
  unfoldable pub lower_exception_flow : ℕ → List (Block E E) → List (Block E E)
  lower_exception_flow next bs = populate_exception_edge_args (split_exception_blocks next bs).out

-- ===== src/Cfg/Relabel.antt =====
-- `relabel_blockpy_blocks_dense` (cfg.rs): each label becomes the position of its block. `none` is a
-- panic, of `expect` or of a position that is no u32.
pub mod Correct
pub mod Dense
use diet_python.Prelude.{
  ℕ, zero, suc, Option, none, some, List, [], ◌∷◌, map, lookup, from_pairs, Map, traverse, ◌>>=◌,
}
use diet_python.Ir.Label.{BlockLabel, from_index}
use diet_python.Ir.Block.{Block, BlockEdge, BlockTerm, jump, if_term, branch_table, raise, return}

unfoldable pub relabel_edge : Map BlockLabel → BlockEdge → Option BlockEdge
relabel_edge table e = do l ← lookup e.target table; some (record e { target = l })

unfoldable pub relabel_exc_edge : Map BlockLabel → Option BlockEdge → Option (Option BlockEdge)
relabel_exc_edge table none = some none
relabel_exc_edge table (some e) = do e' ← relabel_edge table e; some (some e')

-- `relabel_targets`
unfoldable pub relabel_targets {ℓ} :
    {E : Type ℓ} → Map BlockLabel → BlockTerm E → Option (BlockTerm E)
relabel_targets table (jump e) = do e' ← relabel_edge table e; some (jump e')
relabel_targets table (if_term t a b) = do
  a' ← lookup a table
  b' ← lookup b table
  some (if_term t a' b')
relabel_targets table (branch_table i ts d) = do
  ts' ← traverse (λ t. lookup t table) ts
  d' ← lookup d table
  some (branch_table i ts' d')
relabel_targets table (raise x) = some (raise x)
relabel_targets table (return x) = some (return x)

module _ {ℓ κ} {B : Type ℓ} {E : Type κ} where
  -- The pairs of labels and positions, from a position on.
  unfoldable pub numbered : ℕ → List (Block B E) → Option (List (ℕ × BlockLabel))
  numbered i [] = some []
  numbered i (b ∷ bs) = do l ← from_index i; rest ← numbered (suc i) bs; some ((b.label, l) ∷ rest)

  -- The body of the loop.
  unfoldable pub relabel_block : Map BlockLabel → Block B E → Option (Block B E)
  relabel_block table b = do
    l ← lookup b.label table
    t ← relabel_targets table b.term
    e ← relabel_exc_edge table b.exc_edge
    some (record b { label = l; term = t; exc_edge = e })

  unfoldable pub relabel_dense : List (Block B E) → Option (List (Block B E))
  relabel_dense bs = do pairs ← numbered 0 bs; traverse (relabel_block (from_pairs pairs [])) bs

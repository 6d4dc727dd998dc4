-- ===== src/Cfg/Prune.antt =====
-- `prune_unreachable_blockpy_blocks` (cfg.rs). The worklist is a stack, its top at the head.
pub mod Reach
pub mod Correct
use diet_python.Ir.Table.{block_at}
use diet_python.Prelude.{
  ℕ, zero, suc, ◌+◌, ◌==◌, Bool, true, false, Option, none, some, List, [], ◌∷◌, ◌++◌, map, any,
  retain, length, lookup, from_pairs, Map, if◌then◌else◌,
}
use diet_python.Ir.Label.{BlockLabel}
use diet_python.Ir.Block.{Block, BlockTerm, successors}

abbrev pub contains : List BlockLabel → BlockLabel → Bool
contains labels l = any (λ k. k == l) labels

-- Pushes in order, so that the last label is on top.
unfoldable pub push_all : List BlockLabel → List BlockLabel → List BlockLabel
push_all [] stack = stack
push_all (l ∷ ls) stack = push_all ls (l ∷ stack)

module _ {ℓ κ} {B : Type ℓ} {E : Type κ} where
  unfoldable pub expand : Option (Block B E) → List BlockLabel → List BlockLabel
  expand none rest = rest
  expand (some b) rest = push_all (successors b.term) rest

  -- The `while` loop; `none` if the rounds run out.
  unfoldable pub visit :
      List (Block B E) → ℕ → List BlockLabel → List BlockLabel → Option (List BlockLabel)
  visit bs zero [] reachable = some reachable
  visit bs zero (l ∷ rest) reachable = none
  visit bs (suc rounds) [] reachable = some reachable
  visit bs (suc rounds) (l ∷ rest) reachable = elim (contains reachable l) [
    | true ↦ visit bs rounds rest reachable
    | false ↦ visit bs rounds (expand (block_at bs l) rest) (l ∷ reachable)
  ]

  -- Each label is pushed as a root or as a successor.
  unfoldable pub all_successors : List (Block B E) → ℕ
  all_successors [] = 0
  all_successors (b ∷ bs) = length (successors b.term) + all_successors bs

  unfoldable pub reachable_labels :
      BlockLabel → List BlockLabel → List (Block B E) → Option (List BlockLabel)
  reachable_labels entry extra_roots bs =
      visit bs (suc (length extra_roots) + all_successors bs) (push_all (entry ∷ extra_roots) []) []

  unfoldable pub prune_unreachable :
      BlockLabel → List BlockLabel → List (Block B E) → Option (List (Block B E))
  prune_unreachable entry extra_roots bs = elim (reachable_labels entry extra_roots bs) [
    | none ↦ none
    | some reachable ↦ some (retain (λ b. contains reachable b.label) bs)
  ]

-- ===== src/Planning.antt =====
-- Where an exception goes at run time: `exc_dispatch_plan` (soac-eval/src/jit/planning.rs).
pub mod Validated
use diet_python.Prelude.{
  ℕ, String, str_eq, ◌||◌, not, any, Bool, Option, none, some, List, [], ◌∷◌, get_elem?,
  if◌then◌else◌, ◌>>=◌,
}
use diet_python.Ir.Layout.{StorageLayout}
use diet_python.Ir.Block.{Block, BlockArg, BlockEdge, bb_param_names, param_name_vec}

pub record BlockExcDispatchPlan : Type 0 where
  pub target_index : ℕ
  pub slot_writes : List (String × BlockArg)

unfoldable pub stack_slot_names : Option StorageLayout → List String
stack_slot_names none = []
stack_slot_names (some layout) = layout.stack_slots

abbrev pub contains_name : List String → String → Bool
contains_name names n = any (λ m. str_eq m n) names

-- The loop over the target's parameters and the edge's arguments, as far as both go.
unfoldable pub slot_writes :
    List String → List String → List String → List BlockArg → List (String × BlockArg)
slot_writes runtime slots [] args = []
slot_writes runtime slots (n ∷ ns) [] = []
slot_writes runtime slots (n ∷ ns) (a ∷ args) =
    let rest = slot_writes runtime slots ns args in
    if contains_name runtime n || not (contains_name slots n) then rest else (n, a) ∷ rest

module _ {ℓ} {E : Type ℓ} where
  -- `jit_param_names_for_block`
  unfoldable pub jit_param_names_for_block : Block E E → List String
  jit_param_names_for_block b = bb_param_names b.params

  unfoldable pub plan_for :
      Option StorageLayout → List (Block E E) → BlockEdge → Option BlockExcDispatchPlan
  plan_for layout blocks edge = do
    target ← get_elem? blocks edge.target
    some (record {
      target_index = edge.target;
      slot_writes =
          slot_writes (jit_param_names_for_block target) (stack_slot_names layout)
            (param_name_vec target.params) edge.args;
    })

  -- The outer `none` is the panic on an index out of range; the inner one says that the block has no
  -- exception edge.
  unfoldable pub exc_dispatch_plan :
      Option StorageLayout → List (Block E E) → Block E E → Option (Option BlockExcDispatchPlan)
  exc_dispatch_plan layout blocks b = elim b.exc_edge [
    | none ↦ some none
    | some edge ↦ do plan ← plan_for layout blocks edge; some (some plan)
  ]

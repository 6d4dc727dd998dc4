-- ===== src/Exceptions/Populate.antt =====
-- `populate_exception_edge_args` (soac-blockpy/src/passes/ruff_to_blockpy/bb_shape.rs). The loop
-- writes the exception edge of one block at a time and reads no exception edge but that one's
-- target, so it is a map.
pub mod Args
pub mod Needs
pub mod Sound
use text.Mathlib.Text.{starts_with}
use diet_python.Prelude.{
  String, str_eq, ◌||◌, Bool, false, Option, some, none, List, [], ◌∷◌, map, any, if◌then◌else◌,
}
use diet_python.Ir.Table.{block_at}
use diet_python.Ir.Block.{
  Block, BlockArg, BlockEdge, BlockTerm, jump, exception_param, param_name_vec, current_exception,
  none_arg,
}

abbrev pub mentions : List String → String → Bool
mentions names n = any (λ m. str_eq m n) names

unfoldable pub exception_aliases : List BlockArg → List String
exception_aliases [] = []
exception_aliases (BlockArg.name n ∷ args) =
    if starts_with n "_dp_try_exc_" then n ∷ exception_aliases args else exception_aliases args
exception_aliases (_ ∷ args) = exception_aliases args

-- `current_exception_aliases`
unfoldable pub term_aliases {ℓ} : {E : Type ℓ} → BlockTerm E → List String
term_aliases (jump e) = exception_aliases e.args
term_aliases _ = []

unfoldable pub is_exc_name : Option String → String → Bool
is_exc_name none n = false
is_exc_name (some x) n = str_eq x n

-- `source_has_owner`
unfoldable pub has_owner : List String → Bool
has_owner source = any (λ p. str_eq p "_dp_self" || str_eq p "_dp_state") source

-- The argument for one parameter of the target.
unfoldable pub edge_arg : Option String → List String → List String → String → BlockArg
edge_arg exc_name aliases source n =
    if is_exc_name exc_name n
    then current_exception
    else if mentions aliases n
    then current_exception
    else if mentions source n || has_owner source
    then BlockArg.name n
    else none_arg

module _ {ℓ κ} {B : Type ℓ} {E : Type κ} where
  unfoldable pub edge_args : Block B E → Block B E → List BlockArg
  edge_args b target =
      map
        (edge_arg (exception_param target.params) (term_aliases target.term)
          (param_name_vec b.params))
        (param_name_vec target.params)

  -- What the exception edge of a block becomes.
  unfoldable pub populated_edge : List (Block B E) → Block B E → Option BlockEdge → Option BlockEdge
  populated_edge bs b none = none
  populated_edge bs b (some e) = elim (block_at bs e.target) [
    | none ↦ some e
    | some target ↦ some (record { target = e.target; args = edge_args b target })
  ]

  unfoldable pub populate_block : List (Block B E) → Block B E → Block B E
  populate_block bs b = record b { exc_edge = populated_edge bs b b.exc_edge }

  unfoldable pub populate_exception_edge_args : List (Block B E) → List (Block B E)
  populate_exception_edge_args bs = map (populate_block bs) bs

-- ===== src/Examples/Plans.antt =====
-- A block with a handler, and its plan (soac-eval/src/jit/planning.rs).
use diet_python.Prelude.{ℕ, ◌≡◌, refl, none, some, [], ◌∷◌, Memᴰ, Option, Passes}
use diet_python.Ir.Block.{Block, BlockArg, BlockParamRole, raise, return}
use diet_python.Validate
use diet_python.Validate.{Function, validate_function}
use diet_python.Planning.{BlockExcDispatchPlan, exc_dispatch_plan}
use diet_python.Planning.Validated.{Planned, exc_dispatch_plan-Planned}

abbrev risky : Block ℕ ℕ
risky = record {
  label = 0;
  body = 1 ∷ [];
  term = return 2;
  params = [];
  exc_edge = some (record { target = 1; args = BlockArg.current_exception ∷ [] });
}

abbrev recover : Block ℕ ℕ
recover = record {
  label = 1;
  body = [];
  term = raise none;
  params = record { name = "err"; role = BlockParamRole.exception } ∷ [];
  exc_edge = none;
}

abbrev risky_function : Function ℕ
risky_function = record { blocks = risky ∷ recover ∷ []; storage_layout = none }

risky_function-valid : Passes (validate_function none risky_function)
unfolding validate_function Validate.check_cellvar Validate.check_freevar
    Validate.validate_storage_layout_scoping Validate.validate_explicit_edge_arg Validate.check_args
    Validate.check_no_abrupt_kind Validate.check_forwarded Validate.validate_edge_param_forwarding
    Validate.lookup_known_block Validate.validate_non_exception_edge
    Validate.validate_exception_edge Validate.validate_term Validate.validate_block
    Validate.check_dense Validate.validate_module
risky_function-valid = refl

exc_dispatch_plan-Planned_example :
    (plan : Option BlockExcDispatchPlan) × (exc_dispatch_plan none (risky ∷ recover ∷ []) risky
      ≡ some plan)
    × Planned (risky ∷ recover ∷ []) risky.exc_edge plan
exc_dispatch_plan-Planned_example =
    exc_dispatch_plan-Planned none risky_function risky_function-valid risky (Memᴰ.head refl)

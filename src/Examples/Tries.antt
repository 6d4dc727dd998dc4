-- ===== src/Examples/Tries.antt =====
-- A try statement with an else and a finally clause
-- (soac-blockpy/src/passes/ruff_to_blockpy/try_regions.rs). Statements and expressions are numbers.
use diet_python.Prelude.{String, ℕ, suc, none, [], ◌∷◌}
use diet_python.Ir.Block.{return}
use diet_python.TryRegions.{Lowering, push, empty_block}
use diet_python.TryRegions.Lower.{RegionTargets, LowerSequence}
use diet_python.TryRegions.Sequence.{TryStmt}

-- Each sequence becomes one block, which returns.
abbrev lower_one : LowerSequence ℕ ℕ
lower_one stmts targets s = (
  s.next_block_id,
  push (empty_block s.next_block_id (return 0) targets.active_exc)
      (record s { next_block_id = suc s.next_block_id }),
)

abbrev try_stmt : TryStmt ℕ
try_stmt = record { body = 1 ∷ []; handlers = []; orelse = 2 ∷ []; finalbody = 3 ∷ [] }

abbrev at_first : Lowering ℕ
at_first = record { blocks = []; next_block_id = 5; next_tmp_id = 0 }

abbrev outer : RegionTargets
outer = record { normal_cont = 4; loop_labels = none; active_exc = none }

abbrev tmp : String → ℕ → String
tmp prefix n = prefix

-- ===== src/TryRegions/Sequence.antt =====
-- `lower_try_stmt_sequence`
-- (soac-blockpy/src/passes/ruff_to_blockpy/stmt_lowering/try_stmt/mod.rs): the statements after a
-- try statement, then its regions.
use diet_python.Prelude.{String, Option, none, some, List, [], ◌∷◌, ◌>>=◌}
use diet_python.Ir.Label.{BlockLabel}
use diet_python.Ir.Structured.{StructuredInstr}
use diet_python.TryRegions.{TryPlan, Lowering}
use diet_python.TryRegions.Lower.{RegionTargets, LowerSequence, lower_try_regions}
use diet_python.TryRegions.Finalize.{finalize_try_regions}

-- The bodies of a try statement, one for each handler.
pub record TryStmt {ℓ} (S : Type ℓ) : Type ℓ where
  pub body : List S
  pub handlers : List (List S)
  pub orelse : List S
  pub finalbody : List S

module _ {ℓ} {S : Type ℓ} where
  -- `prepare_except_body`, for a statement with handlers.
  unfoldable pub except_body : List (List S) → Option (List S)
  except_body [] = none
  except_body (handler ∷ _) = some handler

  unfoldable pub finally_body : List S → Option (List S)
  finally_body [] = none
  finally_body (stmt ∷ stmts) = some (stmt ∷ stmts)

module _ {ℓ κ} {S : Type κ} {E : Type ℓ} (name_expr : String → E) (store : String → E → E)
    (lower : LowerSequence S E) where
  -- `none` is a panic.
  unfoldable pub lower_try_stmt_sequence :
      TryStmt S
      → List S
      → RegionTargets
      → Option (List (StructuredInstr E))
      → BlockLabel
      → TryPlan
      → Lowering E
      → Option (BlockLabel × Lowering E)
  lower_try_stmt_sequence stmt remaining targets linear label plan s = do
    let (rest, s1) = lower remaining targets s
    (lowered, s2) ←
        lower_try_regions name_expr lower plan rest (finally_body stmt.finalbody) stmt.orelse
          stmt.body (except_body stmt.handlers) targets.loop_labels targets.active_exc s1
    out ← finalize_try_regions store label linear plan lowered targets.active_exc s2.blocks
    some (label, record s2 { blocks = out })

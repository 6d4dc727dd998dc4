-- ===== src/TryRegions.antt =====
-- The plan of a try statement and the blocks that its regions meet in
-- (soac-blockpy/src/passes/ruff_to_blockpy/try_regions.rs). The expressions that are built from a
-- name, and the store of an expression under a name, are arguments.
pub mod Lower
pub mod Finalize
pub mod Region
pub mod Finalized
pub mod Returns
pub mod Regions
pub mod Found
pub mod Statement
pub mod Sequence
pub mod Finally
use diet_python.Prelude.{
  ℕ, suc, ◌+◌, String, Bool, true, false, Option, none, some, List, [], ◌∷◌, ◌++◌, ◌==◌,
  if◌then◌else◌, ◌>>=◌,
}
use mathlib.Core.Option
use diet_python.Ir.Label.{BlockLabel, from_index}
use diet_python.Ir.Block.{
  Block, BlockEdge, BlockArg, AbruptKind, BlockTerm, jump, raise, return, branch_table, edge_to,
}
use diet_python.Ir.Structured.{StructuredInstr}

pub record TryPlan : Type 0 where
  pub except_exc_name : String
  pub finally_abrupt_kind_name : Option String
  pub finally_abrupt_payload_name : Option String
  pub finally_dispatch_label : Option BlockLabel
  pub finally_return_label : Option BlockLabel
  pub finally_raise_label : Option BlockLabel

-- The blocks so far and the counters of the name generator.
pub record Lowering {ℓ} (E : Type ℓ) : Type ℓ where
  pub blocks : List (Block (StructuredInstr E) E)
  pub next_block_id : ℕ
  pub next_tmp_id : ℕ

module _ {ℓ} {E : Type ℓ} where
  -- `blocks.push`
  unfoldable pub push : Block (StructuredInstr E) E → Lowering E → Lowering E
  push b s = record s { blocks = s.blocks ++ b ∷ [] }

  -- `next_block_name`: the label, and the state after it; `none` is the panic when labels run out.
  unfoldable pub next_label : Lowering E → Option (BlockLabel × Lowering E)
  next_label s = do
    label ← from_index s.next_block_id
    some (label, record s { next_block_id = suc s.next_block_id })

  -- `build_try_plan`. `tmp_name` formats a prefix and a number.
  unfoldable pub build_try_plan :
      (String → ℕ → String) → Bool → Lowering E → Option (TryPlan × Lowering E)
  build_try_plan tmp_name true s = do
    let tmp = s.next_tmp_id
    (dispatch, s1) ← next_label s
    (ret, s2) ← next_label s1
    (rais, s3) ← next_label s2
    some (
      record {
        except_exc_name = tmp_name "try_exc" tmp;
        finally_abrupt_kind_name = some (tmp_name "try_abrupt_kind" (tmp + 1));
        finally_abrupt_payload_name = some (tmp_name "try_abrupt_payload" (tmp + 2));
        finally_dispatch_label = some dispatch;
        finally_return_label = some ret;
        finally_raise_label = some rais;
      },
      record s3 { next_tmp_id = tmp + 3 },
    )
  build_try_plan tmp_name false s = some (
    record {
      except_exc_name = tmp_name "try_exc" s.next_tmp_id;
      finally_abrupt_kind_name = none;
      finally_abrupt_payload_name = none;
      finally_dispatch_label = none;
      finally_return_label = none;
      finally_raise_label = none;
    },
    record s { next_tmp_id = s.next_tmp_id + 1 },
  )

-- `TryPlan::finally_cont_label`
unfoldable pub finally_cont_label : TryPlan → BlockLabel → BlockLabel
finally_cont_label plan rest = elim plan.finally_dispatch_label [ some l ↦ l | none ↦ rest ]

module _ {ℓ} {E : Type ℓ} where
  -- A block with no instructions, `with_exc_meta` included.
  abbrev pub empty_block :
      BlockLabel → BlockTerm E → Option BlockLabel → Block (StructuredInstr E) E
  empty_block l t exc = record {
    label = l;
    body = [];
    term = t;
    params = [];
    exc_edge = Option.map edge_to exc;
  }

module _ {ℓ} {E : Type ℓ} (name_expr : String → E) where
  -- `emit_finally_abrupt_dispatch_blocks`: the return, raise and dispatch labels, payload and kind.
  unfoldable pub emit_finally_abrupt_dispatch_blocks :
      BlockLabel
      → BlockLabel
      → BlockLabel
      → String
      → String
      → BlockLabel
      → Option BlockLabel
      → Lowering E
      → Lowering E
  emit_finally_abrupt_dispatch_blocks ret rais dispatch payload kind rest exc s =
      push (empty_block dispatch (branch_table (name_expr kind) (rest ∷ ret ∷ rais ∷ []) rest) exc)
        (push (empty_block rais (raise (some (name_expr payload))) exc)
          (push (empty_block ret (return (name_expr payload)) exc) s))

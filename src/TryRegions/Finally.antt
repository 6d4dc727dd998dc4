-- ===== src/TryRegions/Finally.antt =====
-- No block of a try statement with a finally clause returns past it
-- (soac-blockpy/src/passes/ruff_to_blockpy/try_regions.rs).
use diet_python.TryRegions.Regions.{size, finally_targets}
use mathlib.Core.Option
use diet_python.TryRegions.Found.{IsFound}
use diet_python.Prelude.{
  ◌+◌, true, ℕ, suc, ◌≡◌, String, Option, some, List, [], ◌∷◌, ◌++◌, length, get_elem?,
}
use diet_python.Ir.Label.{BlockLabel}
use diet_python.Ir.Block.{edge_to, jump, Block}
use diet_python.Ir.Structured.{StructuredInstr}
use diet_python.TryRegions.{build_try_plan, Lowering, TryPlan}
use diet_python.TryRegions.Sequence.{TryStmt, lower_try_stmt_sequence, except_body}
use diet_python.TryRegions.Lower.{LowerSequence, RegionTargets, LoweredTryRegions}
use diet_python.TryRegions.Returns.{FinalBlock}
use diet_python.TryRegions.Statement.{diverts, has_exception, Regions}

module _ {ℓ} {E : Type ℓ} (store : String → E → E) where
  -- What becomes of the block at each position.
  abbrev pub FinalBlocks :
      BlockLabel
      → String
      → String
      → LoweredTryRegions
      → List (Block (StructuredInstr E) E)
      → List (Block (StructuredInstr E) E)
      → Type ℓ
  FinalBlocks target payload name lowered blocks out =
      (i : ℕ) (b : Block (StructuredInstr E) E)
      → get_elem? blocks i ≡ some b
      → (b' : Block (StructuredInstr E) E) × (get_elem? out i ≡ some b')
        × FinalBlock store target payload (diverts lowered i) (has_exception lowered i) name b b'

  -- The block that comes after those is the entry: it holds the instructions before the try
  -- statement and jumps to the body.
  pub record IsEntered (label : BlockLabel) (linear : List (StructuredInstr E)) (body : BlockLabel)
      (exc : Option BlockLabel) (n : ℕ) (out : List (Block (StructuredInstr E) E)) : Type ℓ where
    pub others : List (Block (StructuredInstr E) E)
    pub last :
        out
        ≡ others
          ++ record {
            label = label;
            body = linear;
            term = jump (edge_to body);
            params = [];
            exc_edge = Option.map edge_to exc;
          }
            ∷ []
    pub count : length others ≡ n

module _ {ℓ κ} {S : Type κ} {E : Type ℓ} (name_expr : String → E) (store : String → E → E)
    (lower : LowerSequence S E) (tmp_name : String → ℕ → String) where
  abbrev pub plan_of : Lowering E → TryPlan
  plan_of s = record {
    except_exc_name = tmp_name "try_exc" s.next_tmp_id;
    finally_abrupt_kind_name = some (tmp_name "try_abrupt_kind" (s.next_tmp_id + 1));
    finally_abrupt_payload_name = some (tmp_name "try_abrupt_payload" (s.next_tmp_id + 2));
    finally_dispatch_label = some s.next_block_id;
    finally_return_label = some (suc s.next_block_id);
    finally_raise_label = some (suc (suc s.next_block_id));
  }

  abbrev pub after_plan : Lowering E → Lowering E
  after_plan s = record s {
    next_block_id = suc (suc (suc s.next_block_id));
    next_tmp_id = s.next_tmp_id + 3;
  }

  -- The state after the finally clause's statements: its counter.
  abbrev pub labels_after : TryStmt S → List S → RegionTargets → Lowering E → ℕ
  labels_after stmt remaining targets s =
      let (rest, s1) = lower remaining targets (after_plan s) in
      (lower stmt.finalbody
        (finally_targets (plan_of s) rest targets.loop_labels targets.active_exc)
        s1).1.next_block_id

  -- What the lowering of a try statement with a finally clause gives: the plan, the regions that were found,
  -- the label of the clause, the state before the blocks were finalized, and the blocks after it.
  pub record LoweredTry (stmt : TryStmt S) (remaining : List S) (targets : RegionTargets)
      (linear : List (StructuredInstr E)) (label : BlockLabel) (s : Lowering E) : Type (ℓ ⊔ κ) where
    pub planned : build_try_plan tmp_name true s ≡ some (plan_of s, after_plan s)
    pub regions : LoweredTryRegions
    pub target : BlockLabel
    pub found : regions.finally_label ≡ some target
    pub before : Lowering E
    pub out : List (Block (StructuredInstr E) E)
    pub regions_found :
        IsFound lower stmt.finalbody stmt.orelse stmt.body
          (except_body stmt.handlers)
          (lower remaining targets (after_plan s)).1
          regions
          before.blocks
    pub apart : Regions (size before) regions
    pub returns :
        lower_try_stmt_sequence name_expr store lower stmt remaining targets
          (some linear)
          label
          (plan_of s)
          (after_plan s)
        ≡ some (label, record before { blocks = out })
    pub final :
        FinalBlocks store target
          (tmp_name "try_abrupt_payload" (s.next_tmp_id + 2))
          (tmp_name "try_exc" s.next_tmp_id)
          regions
          before.blocks
          out
    pub entered :
        IsEntered store label linear regions.body_label targets.active_exc (size before) out

-- ===== src/TryRegions/Lower.antt =====
-- `lower_try_regions` (soac-blockpy/src/passes/ruff_to_blockpy/try_regions.rs).
use diet_python.Prelude.{
  ℕ, String, Option, none, some, List, [], ◌∷◌, ◌==◌, length, if◌then◌else◌, ◌>>=◌,
}
use mathlib.Core.Option
use diet_python.Ir.Label.{BlockLabel}
use diet_python.Ir.Block.{
  Block, BlockArg, AbruptKind, BlockParamRole, jump, ensure_param, set_exception_param,
}
use diet_python.Ir.Structured.{StructuredInstr}
use diet_python.TryRegions.{
  TryPlan, Lowering, push, next_label, finally_cont_label, empty_block,
  emit_finally_abrupt_dispatch_blocks,
}

-- soac-blockpy/src/passes/ruff_to_blockpy/mod.rs
pub record LoopLabels : Type 0 where
  pub break_label : BlockLabel
  pub continue_label : BlockLabel

pub record RegionTargets : Type 0 where
  pub normal_cont : BlockLabel
  pub loop_labels : Option LoopLabels
  pub active_exc : Option BlockLabel

-- `Range<usize>`
pub record Range : Type 0 where
  pub start : ℕ
  pub stop : ℕ

-- The tuple that the source keeps for a finally clause.
pub record FinallyRegion : Type 0 where
  pub label : BlockLabel
  pub region : Range
  pub normal_entry : Option BlockLabel
  pub exception_entry : Option BlockLabel

pub record LoweredTryRegions : Type 0 where
  pub body_label : BlockLabel
  pub body_region_range : Range
  pub else_region_range : Range
  pub except_region_range : Option Range
  pub finally_region_range : Option Range
  pub finally_label : Option BlockLabel

-- The callback: statements to blocks, and the label of the first.
abbrev pub LowerSequence {ℓ κ} : Type ℓ → Type κ → Type (ℓ ⊔ κ)
LowerSequence S E = List S → RegionTargets → Lowering E → BlockLabel × Lowering E

-- Where the regions go on, and where their exceptions go.
unfoldable pub cleanup_target : BlockLabel → Option FinallyRegion → BlockLabel
cleanup_target rest none = rest
cleanup_target rest (some f) = elim f.normal_entry [ some l ↦ l | none ↦ f.label ]

unfoldable pub exception_target : FinallyRegion → BlockLabel
exception_target f = elim f.exception_entry [ some l ↦ l | none ↦ f.label ]

unfoldable pub cleanup_exc_target : Option BlockLabel → Option FinallyRegion → Option BlockLabel
cleanup_exc_target exc none = exc
cleanup_exc_target exc (some f) = some (exception_target f)

-- The first block with the label is changed.
unfoldable pub update_first {ℓ κ} :
    {B : Type ℓ} {E : Type κ}
    → BlockLabel
    → (Block B E → Block B E)
    → List (Block B E)
    → List (Block B E)
update_first l f [] = []
update_first l f (b ∷ bs) = if b.label == l then f b ∷ bs else b ∷ update_first l f bs

module _ {ℓ} {E : Type ℓ} where
  unfoldable pub ensure_named :
      Option String → BlockParamRole → Block (StructuredInstr E) E → Block (StructuredInstr E) E
  ensure_named none role b = b
  ensure_named (some n) role b = record b { params = ensure_param n role b.params }

  -- The entry of a finally clause takes what it was entered for.
  unfoldable pub ensure_finally_params : TryPlan → BlockLabel → Lowering E → Lowering E
  ensure_finally_params plan l s = record s {
    blocks =
        update_first l
          (λ b.
            ensure_named plan.finally_abrupt_payload_name BlockParamRole.abrupt_payload
              (ensure_named plan.finally_abrupt_kind_name BlockParamRole.abrupt_kind b))
          s.blocks;
  }

  unfoldable pub normal_entry :
      Option String
      → BlockLabel
      → Option BlockLabel
      → Lowering E
      → Option (Option BlockLabel × Lowering E)
  normal_entry none target exc s = some (none, s)
  normal_entry (some kind) target exc s = do
    (l, s') ← next_label s
    let args = BlockArg.abrupt_kind AbruptKind.fallthrough ∷ BlockArg.none_arg ∷ []
    some (some l, push (empty_block l (jump (record { target = target; args = args })) exc) s')

  unfoldable pub exception_entry :
      TryPlan
      → Option String
      → BlockLabel
      → Option BlockLabel
      → Lowering E
      → Option (Option BlockLabel × Lowering E)
  exception_entry plan none target exc s = some (none, s)
  exception_entry plan (some kind) target exc s = do
    (l, s') ← next_label s
    let args = BlockArg.abrupt_kind AbruptKind.exception ∷ BlockArg.name plan.except_exc_name ∷ []
    let made = empty_block l (jump (record { target = target; args = args })) exc
    some (
      some l,
      push (record made { params = set_exception_param plan.except_exc_name made.params }) s',
    )

module _ {ℓ} {E : Type ℓ} (name_expr : String → E) where
  unfoldable pub emit_dispatch :
      Option BlockLabel
      → Option BlockLabel
      → Option BlockLabel
      → Option String
      → Option String
      → BlockLabel
      → Option BlockLabel
      → Lowering E
      → Lowering E
  emit_dispatch (some ret) (some dispatch) (some rais) (some payload) (some kind) rest exc s =
      emit_finally_abrupt_dispatch_blocks name_expr ret rais dispatch payload kind rest exc s
  emit_dispatch _ _ _ _ _ rest exc s = s

module _ {ℓ κ} {S : Type ℓ} {E : Type κ} (name_expr : String → E) (lower : LowerSequence S E) where
  -- A sequence, with the range of the blocks that it adds.
  unfoldable pub lower_region :
      List S → RegionTargets → Lowering E → (BlockLabel × Range) × Lowering E
  lower_region stmts targets s =
      let (l, s') = lower stmts targets s in
      ((l, record { start = length s.blocks; stop = length s'.blocks }), s')

  unfoldable pub lower_finally :
      TryPlan
      → BlockLabel
      → Option LoopLabels
      → Option BlockLabel
      → List S
      → Lowering E
      → Option (FinallyRegion × Lowering E)
  lower_finally plan rest loops exc stmts s = do
    let targets : RegionTargets = record {
      normal_cont = finally_cont_label plan rest;
      loop_labels = loops;
      active_exc = exc;
    }
    let ((l, region), s1) = lower_region stmts targets s
    (normal, s2) ←
        normal_entry plan.finally_abrupt_kind_name l exc (ensure_finally_params plan l s1)
    (raised, s3) ← exception_entry plan plan.finally_abrupt_kind_name l exc s2
    some (
      record { label = l; region = region; normal_entry = normal; exception_entry = raised },
      emit_dispatch name_expr plan.finally_return_label plan.finally_dispatch_label
          plan.finally_raise_label plan.finally_abrupt_payload_name plan.finally_abrupt_kind_name
          rest exc s3,
    )

  unfoldable pub lower_finally_body :
      TryPlan
      → BlockLabel
      → Option LoopLabels
      → Option BlockLabel
      → Option (List S)
      → Lowering E
      → Option (Option FinallyRegion × Lowering E)
  lower_finally_body plan rest loops exc none s = some (none, s)
  lower_finally_body plan rest loops exc (some stmts) s = do
    (f, s') ← lower_finally plan rest loops exc stmts s
    some (some f, s')

  unfoldable pub lower_else :
      List S → RegionTargets → Lowering E → (BlockLabel × Range) × Lowering E
  lower_else [] targets s =
      ((targets.normal_cont, record { start = length s.blocks; stop = length s.blocks }), s)
  lower_else (stmt ∷ stmts) targets s = lower_region (stmt ∷ stmts) targets s

  -- The label that takes the body's exceptions, and the range of the except clause; `none` is the
  -- panic where there is neither an except nor a finally clause.
  unfoldable pub lower_except :
      Option (List S)
      → Option FinallyRegion
      → RegionTargets
      → Lowering E
      → Option ((BlockLabel × Option Range) × Lowering E)
  lower_except (some stmts) finally_region targets s =
      let ((l, range), s') = lower_region stmts targets s in some ((l, some range), s')
  lower_except none (some f) targets s = some ((exception_target f, none), s)
  lower_except none none targets s = none

  unfoldable pub lower_try_regions :
      TryPlan
      → BlockLabel
      → Option (List S)
      → List S
      → List S
      → Option (List S)
      → Option LoopLabels
      → Option BlockLabel
      → Lowering E
      → Option (LoweredTryRegions × Lowering E)
  lower_try_regions plan rest finally_body else_body try_body except_body loops exc s = do
    (fin, s1) ← lower_finally_body plan rest loops exc finally_body s
    let targets : RegionTargets = record {
      normal_cont = cleanup_target rest fin;
      loop_labels = loops;
      active_exc = cleanup_exc_target exc fin;
    }
    let ((else_entry, else_range), s2) = lower_else else_body targets s1
    ((except_label, except_range), s3) ← lower_except except_body fin targets s2
    let body_targets : RegionTargets = record {
      normal_cont = else_entry;
      loop_labels = loops;
      active_exc = some except_label;
    }
    let ((body_label, body_range), s4) = lower_region try_body body_targets s3
    some (
      record {
        body_label = body_label;
        body_region_range = body_range;
        else_region_range = else_range;
        except_region_range = except_range;
        finally_region_range = Option.map (λ f. f.region) fin;
        finally_label = Option.map (λ f. f.label) fin;
      },
      s4,
    )

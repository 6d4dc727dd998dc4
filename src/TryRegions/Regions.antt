-- ===== src/TryRegions/Regions.antt =====
-- Lowering a try statement finds its regions, one after another
-- (soac-blockpy/src/passes/ruff_to_blockpy/try_regions.rs).
use diet_python.Prelude.{
  ◌<◌, ◌^◌, ltb, true, ◌++◌, ℕ, suc, ◌+◌, ◌≤◌, ◌≡◌, refl, ap, String, Option, none, some, List, [],
  ◌∷◌, length, arith, Bool-cases, inl, inr, length-append, ◌==◌,
}
use diet_python.Ir.Label.{BlockLabel, from_index}
use diet_python.Ir.Block.{Block, BlockArg, AbruptKind, jump, set_exception_param}
use diet_python.Ir.Structured.{StructuredInstr}
use diet_python.TryRegions.{
  empty_block, finally_cont_label, TryPlan, Lowering, push, next_label,
  emit_finally_abrupt_dispatch_blocks,
}
use diet_python.TryRegions.Lower.{
  FinallyRegion, LoopLabels, lower_else, lower_finally, lower_region, RegionTargets, Range,
  LowerSequence, update_first, ensure_finally_params, normal_entry, exception_entry, emit_dispatch,
}

module _ {ℓ} {E : Type ℓ} where
  abbrev pub size : Lowering E → ℕ
  size s = length s.blocks

  push-size : (b : Block (StructuredInstr E) E) (s : Lowering E) → size (push b s) ≡ size s + 1
  unfolding push
  push-size b s = length-append s.blocks (b ∷ [])

  push_thrice :
      (a b c : Block (StructuredInstr E) E) (s : Lowering E)
      → size s ≤ size (push c (push b (push a s)))
  push_thrice a b c s =
      omega (arith, push-size a s, push-size b (push a s), push-size c (push b (push a s)))

  length-update_first :
      (l : BlockLabel) (f : Block (StructuredInstr E) E → Block (StructuredInstr E) E)
      (bs : List (Block (StructuredInstr E) E))
      → length (update_first l f bs) ≡ length bs
  unfolding update_first
  length-update_first l f [] = refl
  length-update_first l f (b ∷ bs) = elim (Bool-cases (b.label == l)) [
    | inl e ↦ rw e refl
    | inr e ↦ rw e (ap suc (length-update_first l f bs))
  ]

  ensure_finally_params-size :
      (plan : TryPlan) (l : BlockLabel) (s : Lowering E)
      → size (ensure_finally_params plan l s) ≡ size s
  unfolding ensure_finally_params
  ensure_finally_params-size plan l s = length-update_first l _ s.blocks

  pub next_label-fits :
      (s : Lowering E)
      → s.next_block_id < 2 ^ 32
      → next_label s ≡ some (s.next_block_id, record s { next_block_id = suc s.next_block_id })
  unfolding next_label from_index
  next_label-fits s h =
      let low : ltb s.next_block_id (2 ^ 32) ≡ true = ground arith in rw (low, from_index) refl

  -- A step that makes a label at most, and does not panic.
  record Entered (s : Lowering E) (r : Option (Option BlockLabel × Lowering E)) : Type ℓ where
    entry : Option BlockLabel
    after : Lowering E
    ran : r ≡ some (entry, after)
    grows : size s ≤ size after
    labels : after.next_block_id ≤ s.next_block_id + 1

  normal_entry-Entered :
      (kind : Option String) (target : BlockLabel) (exc : Option BlockLabel) (s : Lowering E)
      → s.next_block_id < 2 ^ 32
      → Entered s (normal_entry kind target exc s)
  unfolding normal_entry push
  normal_entry-Entered none target exc s h = record {
    entry = none;
    after = s;
    ran = refl;
    grows = omega arith;
    labels = omega arith;
  }
  normal_entry-Entered (some kind) target exc s h =
      let args = BlockArg.abrupt_kind AbruptKind.fallthrough ∷ BlockArg.none_arg ∷ [] in
      let next : Lowering E = record s { next_block_id = suc s.next_block_id } in
      let made : Block (StructuredInstr E) E =
        empty_block s.next_block_id (jump (record { target = target; args = args })) exc in
      record {
        entry = some s.next_block_id;
        after = push made next;
        ran = rw (next_label-fits s h) refl;
        grows = omega (arith, push-size made next);
        labels = omega arith;
      }

  exception_entry-Entered :
      (plan : TryPlan) (kind : Option String) (target : BlockLabel) (exc : Option BlockLabel)
      (s : Lowering E)
      → s.next_block_id < 2 ^ 32
      → Entered s (exception_entry plan kind target exc s)
  unfolding exception_entry push
  exception_entry-Entered plan none target exc s h = record {
    entry = none;
    after = s;
    ran = refl;
    grows = omega arith;
    labels = omega arith;
  }
  exception_entry-Entered plan (some kind) target exc s h =
      let args =
        BlockArg.abrupt_kind AbruptKind.exception ∷ BlockArg.name plan.except_exc_name ∷ [] in
      let next : Lowering E = record s { next_block_id = suc s.next_block_id } in
      let empty : Block (StructuredInstr E) E =
        empty_block s.next_block_id (jump (record { target = target; args = args })) exc in
      let made : Block (StructuredInstr E) E = record empty {
        params = set_exception_param plan.except_exc_name empty.params;
      } in
      record {
        entry = some s.next_block_id;
        after = push made next;
        ran = rw (next_label-fits s h) refl;
        grows = omega (arith, push-size made next);
        labels = omega arith;
      }

  module _ (name_expr : String → E) where
    emit_dispatch_grows :
        (ret dispatch rais : Option BlockLabel) (payload kind : Option String) (rest : BlockLabel)
        (exc : Option BlockLabel) (s : Lowering E)
        → size s ≤ size (emit_dispatch name_expr ret dispatch rais payload kind rest exc s)
    unfolding emit_dispatch emit_finally_abrupt_dispatch_blocks
    emit_dispatch_grows (some r) (some d) (some x) (some p) (some k) rest exc s =
        push_thrice _ _ _ s
    emit_dispatch_grows none d x p k rest exc s = omega arith
    emit_dispatch_grows (some r) none x p k rest exc s = omega arith
    emit_dispatch_grows (some r) (some d) none p k rest exc s = omega arith
    emit_dispatch_grows (some r) (some d) (some x) none k rest exc s = omega arith
    emit_dispatch_grows (some r) (some d) (some x) (some p) none rest exc s = omega arith

  -- What is asked of the callback: it adds blocks at the end.
  abbrev pub Appends {κ} : {S : Type κ} → LowerSequence S E → Type (ℓ ⊔ κ)
  Appends {S = S} lower =
      (stmts : List S) (targets : RegionTargets) (s : Lowering E)
      → (new : List (Block (StructuredInstr E) E)) × ((lower stmts targets s).1.blocks
          ≡ s.blocks ++ new)

  abbrev pub Spans : Lowering E → Range → Lowering E → Type 0
  Spans s r s' = (size s ≤ r.start) × (r.start ≤ r.stop) × (r.stop ≤ size s')

-- Where a finally clause goes on.
abbrev pub finally_targets :
    TryPlan → BlockLabel → Option LoopLabels → Option BlockLabel → RegionTargets
finally_targets plan rest loops exc = record {
  normal_cont = finally_cont_label plan rest;
  loop_labels = loops;
  active_exc = exc;
}

module _ {ℓ κ} {S : Type κ} {E : Type ℓ} (name_expr : String → E) (lower : LowerSequence S E)
    (appends : Appends lower) where
  pub lower_region-Spans :
      (stmts : List S) (targets : RegionTargets) (s : Lowering E)
      → let r = lower_region name_expr lower stmts targets s in
        Spans s r.0.1 r.1 × (r.0.1.stop ≡ size r.1)
  unfolding lower_region
  lower_region-Spans stmts targets s =
      let (new, added) = appends stmts targets s in
      let longer : size s ≤ size (lower stmts targets s).1 =
        rw added (omega (arith, length-append s.blocks new)) in
      ((omega arith, longer, omega arith), refl)

  -- The finally clause is lowered, if labels are left for its entries.
  pub record FinallyLowered (plan : TryPlan) (rest : BlockLabel) (loops : Option LoopLabels)
      (exc : Option BlockLabel) (stmts : List S) (s : Lowering E) : Type ℓ where
    pub clause : FinallyRegion
    pub after : Lowering E
    pub ran : lower_finally name_expr lower plan rest loops exc stmts s ≡ some (clause, after)
    pub spans : Spans s clause.region after
    pub region : clause.region ≡ record {
      start = size s;
      stop = size (lower stmts (finally_targets plan rest loops exc) s).1;
    }

  pub lower_finally-FinallyLowered :
      (plan : TryPlan) (rest : BlockLabel) (loops : Option LoopLabels) (exc : Option BlockLabel)
      (stmts : List S) (s : Lowering E)
      → (lower stmts (finally_targets plan rest loops exc) s).1.next_block_id + 2 ≤ 2 ^ 32
      → FinallyLowered plan rest loops exc stmts s
  unfolding lower_finally lower_region ensure_finally_params
  lower_finally-FinallyLowered plan rest loops exc stmts s fits =
      let targets = finally_targets plan rest loops exc in
      let kind = plan.finally_abrupt_kind_name in
      let ((from, low, high), end) = lower_region-Spans stmts targets s in
      let (l, s1) = lower stmts targets s in
      let s2 = ensure_finally_params plan l s1 in
      let a = normal_entry-Entered kind l exc s2 (omega (arith, fits)) in
      let b = exception_entry-Entered plan kind l exc a.after (omega (arith, fits, a.labels)) in
      record {
        clause = record {
          label = l;
          region = record { start = size s; stop = size s1 };
          normal_entry = a.entry;
          exception_entry = b.entry;
        };
        after =
            emit_dispatch name_expr plan.finally_return_label plan.finally_dispatch_label
              plan.finally_raise_label plan.finally_abrupt_payload_name kind rest exc b.after;
        ran = rw (a.ran, b.ran) refl;
        spans = (
          omega arith,
          low,
          omega (
            arith,
            ensure_finally_params-size plan l s1,
            a.grows,
            b.grows,
            emit_dispatch_grows name_expr plan.finally_return_label plan.finally_dispatch_label
                plan.finally_raise_label plan.finally_abrupt_payload_name kind rest exc b.after,
          ),
        );
        region = refl;
      }

  pub lower_else-Spans :
      (stmts : List S) (targets : RegionTargets) (s : Lowering E)
      → let r = lower_else name_expr lower stmts targets s in Spans s r.0.1 r.1
  unfolding lower_else
  lower_else-Spans [] targets s = (omega arith, omega arith, omega arith)
  lower_else-Spans (x ∷ xs) targets s = (lower_region-Spans (x ∷ xs) targets s).0

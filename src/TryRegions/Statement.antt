-- ===== src/TryRegions/Statement.antt =====
-- A try statement with a finally clause, lowered and finalized
-- (soac-blockpy/src/passes/ruff_to_blockpy/try_regions.rs).
use diet_python.Prelude.{
  ◌+◌, ◌^◌, ℕ, ◌≤◌, ◌<◌, ◌≡◌, refl, String, Bool, true, false, ◌||◌, Option, none, some, List,
  arith,
}
use diet_python.Ir.Label.{BlockLabel}
use diet_python.TryRegions.{TryPlan, Lowering}
use diet_python.TryRegions.Lower.{
  Range, LoopLabels, RegionTargets, LoweredTryRegions, LowerSequence, lower_region,
  lower_finally_body, lower_else, lower_except, lower_try_regions, cleanup_target,
  cleanup_exc_target, exception_target,
}
use diet_python.TryRegions.Region.{in_range, IsWithin}
use diet_python.Prelude.{ap, inl, inr}
use diet_python.TryRegions.Found.{
  IsFound, Covers-Prefix, Prefix-trans, or_extend, lower_else-Covers, lower_region-Covers,
}
use diet_python.TryRegions.Regions.{
  size, Appends, lower_region-Spans, lower_finally-FinallyLowered, finally_targets,
  lower_else-Spans,
}

-- The block at that position can return past the finally clause.
unfoldable pub diverts : LoweredTryRegions → ℕ → Bool
diverts lowered i =
    in_range (some lowered.body_region_range) i
    || (in_range (some lowered.else_region_range) i || in_range lowered.except_region_range i)

-- The block at that position stands in an except or a finally clause.
unfoldable pub has_exception : LoweredTryRegions → ℕ → Bool
has_exception lowered i =
    in_range lowered.except_region_range i || in_range lowered.finally_region_range i

-- The ranges lie in the list of blocks, and the finally clause's is apart from the others.
pub record Regions (n : ℕ) (lowered : LoweredTryRegions) : Type 0 where
  pub body : IsWithin n (some lowered.body_region_range)
  pub orelse : IsWithin n (some lowered.else_region_range)
  pub except : IsWithin n lowered.except_region_range
  pub last : IsWithin n lowered.finally_region_range
  pub apart : (i : ℕ) → in_range lowered.finally_region_range i ≡ true → diverts lowered i ≡ false

-- A position below a range is not in it.
below_range : (r : Range) (i n : ℕ) → i < n → n ≤ r.start → in_range (some r) i ≡ false
unfolding in_range
below_range r i n low high = ground arith

-- No position is in a range that is not there.
nowhere : (i : ℕ) → in_range none i ≡ false
unfolding in_range
nowhere i = refl

in_range-stop : (r : Range) (i : ℕ) → in_range (some r) i ≡ true → i < r.stop
unfolding in_range
in_range-stop r i h = ground arith

module _ {ℓ κ} {S : Type κ} {E : Type ℓ} (name_expr : String → E) (lower : LowerSequence S E)
    (appends : Appends lower) where
  pub lower_try_regions-Regions :
      (plan : TryPlan) (rest : BlockLabel) (finally_body else_body try_body : List S)
      (except_body : Option (List S)) (loops : Option LoopLabels) (exc : Option BlockLabel)
      (s : Lowering E)
      → (lower finally_body (finally_targets plan rest loops exc) s).1.next_block_id + 2 ≤ 2 ^ 32
      → (lowered : LoweredTryRegions) × (s' : Lowering E) × (lower_try_regions name_expr lower plan
            rest
            (some finally_body)
            else_body
            try_body
            except_body
            loops
            exc
            s
          ≡ some (lowered, s'))
        × ((l : BlockLabel) × (lowered.finally_label ≡ some l))
        × Regions (size s') lowered
        × IsFound lower finally_body else_body try_body except_body s lowered s'.blocks
  unfolding lower_try_regions lower_finally_body lower_except diverts
  lower_try_regions-Regions plan rest finally_body else_body try_body (some stmts) loops exc s
        fits =
      let fin =
        lower_finally-FinallyLowered name_expr lower appends plan rest loops exc finally_body s
          fits in
      let f = fin.clause in
      let s1 = fin.after in
      let targets : RegionTargets = record {
        normal_cont = cleanup_target rest (some f);
        loop_labels = loops;
        active_exc = cleanup_exc_target exc (some f);
      } in
      let ((else_entry, else_range), s2) = lower_else name_expr lower else_body targets s1 in
      let ((except_label, except_range), s3) = lower_region name_expr lower stmts targets s2 in
      let body_targets : RegionTargets = record {
        normal_cont = else_entry;
        loop_labels = loops;
        active_exc = some except_label;
      } in
      let ((body_label, body_range), s4) = lower_region name_expr lower try_body body_targets s3 in
      let (f1, f2, f3) = fin.spans in
      let (e1, e2, e3) = lower_else-Spans name_expr lower appends else_body targets s1 in
      let ((x1, x2, x3), xe) = lower_region-Spans name_expr lower appends stmts targets s2 in
      let ((b1, b2, b3), be) =
        lower_region-Spans name_expr lower appends try_body body_targets s3 in
      let (ce, pe) = lower_else-Covers lower name_expr appends else_body targets s1 in
      let (cx, px) = lower_region-Covers lower name_expr appends stmts targets s2 in
      let (cb, pb) = lower_region-Covers lower name_expr appends try_body body_targets s3 in
      (
        record {
          body_label = body_label;
          body_region_range = body_range;
          else_region_range = else_range;
          except_region_range = some except_range;
          finally_region_range = some f.region;
          finally_label = some f.label;
        },
        s4,
        rw fin.ran refl,
        (f.label, refl),
        record {
          body = (b2, b3);
          orelse = (e2, omega arith);
          except = (x2, omega arith);
          last = (f2, omega arith);
          apart = λ i h.
              let low = in_range-stop f.region i h in
              rw
                (
                  below_range body_range i (size s1) (omega arith) (omega arith),
                  below_range else_range i (size s1) (omega arith) (omega arith),
                  below_range except_range i (size s1) (omega arith) (omega arith),
                )
                refl;
        },
        record {
          body = cb;
          orelse = or_extend lower ce (Prefix-trans px pb);
          except = inr (stmts, refl, (except_range, refl, Covers-Prefix lower cx pb));
          last = (finally_targets plan rest loops exc, ap some fin.region);
        },
      )
  lower_try_regions-Regions plan rest finally_body else_body try_body none loops exc s fits =
      let fin =
        lower_finally-FinallyLowered name_expr lower appends plan rest loops exc finally_body s
          fits in
      let f = fin.clause in
      let s1 = fin.after in
      let targets : RegionTargets = record {
        normal_cont = cleanup_target rest (some f);
        loop_labels = loops;
        active_exc = cleanup_exc_target exc (some f);
      } in
      let ((else_entry, else_range), s2) = lower_else name_expr lower else_body targets s1 in
      let body_targets : RegionTargets = record {
        normal_cont = else_entry;
        loop_labels = loops;
        active_exc = some (exception_target f);
      } in
      let ((body_label, body_range), s4) = lower_region name_expr lower try_body body_targets s2 in
      let (f1, f2, f3) = fin.spans in
      let (e1, e2, e3) = lower_else-Spans name_expr lower appends else_body targets s1 in
      let ((b1, b2, b3), be) =
        lower_region-Spans name_expr lower appends try_body body_targets s2 in
      let (ce, pe) = lower_else-Covers lower name_expr appends else_body targets s1 in
      let (cb, pb) = lower_region-Covers lower name_expr appends try_body body_targets s2 in
      (
        record {
          body_label = body_label;
          body_region_range = body_range;
          else_region_range = else_range;
          except_region_range = none;
          finally_region_range = some f.region;
          finally_label = some f.label;
        },
        s4,
        rw fin.ran refl,
        (f.label, refl),
        record {
          body = (b2, b3);
          orelse = (e2, omega arith);
          except = tt;
          last = (f2, omega arith);
          apart = λ i h.
              let low = in_range-stop f.region i h in
              rw
                (
                  below_range body_range i (size s1) (omega arith) (omega arith),
                  below_range else_range i (size s1) (omega arith) (omega arith),
                  nowhere i,
                )
                refl;
        },
        record {
          body = cb;
          orelse = or_extend lower ce pb;
          except = inl refl;
          last = (finally_targets plan rest loops exc, ap some fin.region);
        },
      )

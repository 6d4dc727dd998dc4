-- ===== src/Binding/Served.antt =====
-- A call that binds its arguments serves each parameter (soac-eval/src/tree_walk/eval.rs).
use diet_python.Prelude.{
  sym, subst, ◌≡◌, ok, err, Option, List, Forall₂, none, false, length, Result, Bool-cases,
  Option-cases, inl, inr,
}
use diet_python.Params.{ParamSpec, positional_param_indices, vararg_index}
use diet_python.Binding.{
  Runtime, Call, State, BindError, filled, too_many, check_missing, build_function_bound_args,
}
use diet_python.Binding.Filled.{
  Served, AllOk, AllOk-ok, IsFilled, and_then-AllOk, start-IsFilled, length-filled, fail-AllOk,
  bind_positional-IsFilled, bind_varargs-IsFilled, bind_varkw-IsFilled, bind_keywords-IsFilled,
  check_missing-Served,
}

module _ {H O : Type 0} (rt : Runtime H O) where
  abbrev Bound : ParamSpec → List (Option O) → Type 0
  Bound params bound = Forall₂ Served params bound

  check_missing-Bound :
      (params : ParamSpec) (s : State H O)
      → IsFilled (length params) s
      → AllOk (Bound params) (check_missing rt params s.assigned s)
  check_missing-Bound params s f =
      bound_of params s (check_missing rt params s.assigned s)
        (check_missing-Served rt params s.assigned s.bound_args s f.values f.count)
    where
      bound_of :
          (params : ParamSpec) (s : State H O) (r : Result (BindError × H) (List (Option O)))
          → AllOk (λ bound. (bound ≡ s.bound_args) × Forall₂ Served params s.bound_args) r
          → AllOk (Bound params) r
      bound_of params s (ok bound) (e, all) = subst (Bound params) (sym e) all
      bound_of params s (err x) u = tt

  build-Bound :
      (call : Call O) (params : ParamSpec) (h : H)
      → AllOk (Bound params) (build_function_bound_args rt call params h)
  unfolding build_function_bound_args
  build-Bound call params h =
      let n = length params in
      let positional = positional_param_indices params in
      let start : State H O = record {
        bound_args = filled n none;
        assigned = filled n false;
        heap = h;
      } in
      let begun : IsFilled n start = record {
        values = start-IsFilled n;
        count = length-filled n false;
      } in
      elim (Option-cases call.callable) [
        | inl e ↦ rw (e, AllOk) tt
        | inr (f, e) ↦
            elim (Bool-cases (too_many (vararg_index params) call.nargs (length positional))) [
              | inl many ↦ rw (e, many, AllOk) (fail-AllOk rt (Bound params) _ start)
              | inr fit ↦
                  rw (e, fit, AllOk)
                    (and_then-AllOk (IsFilled n) (Bound params) _ _
                      (bind_positional-IsFilled rt n call _ 0 start begun)
                      λ s1 f1.
                        and_then-AllOk (IsFilled n) (Bound params) _ _
                          (bind_varargs-IsFilled rt n call _ _ s1 f1)
                          λ s2 f2.
                            and_then-AllOk (λ r. IsFilled n r.1) (Bound params) _ _
                              (bind_varkw-IsFilled rt n _ s2 f2)
                              λ r f3.
                                and_then-AllOk (IsFilled n) (Bound params) _ _
                                  (bind_keywords-IsFilled rt n call params r.0 call.nkw 0 r.1 f3)
                                  λ s4 f4. check_missing-Bound params s4 f4)
            ]
      ]

  -- If binding the arguments of a call succeeds, then the result holds for each parameter, in
  -- their order, a value, unless the parameter has a default or is a star parameter.
  pub build_function_bound_args-Served :
      (call : Call O) (params : ParamSpec) (h : H) {bound : List (Option O)}
      → build_function_bound_args rt call params h ≡ ok bound
      → Forall₂ Served params bound
  build_function_bound_args-Served call params h {bound} e =
      AllOk-ok (Bound params) _ (build-Bound call params h) e

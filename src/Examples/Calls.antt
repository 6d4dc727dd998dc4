-- ===== src/Examples/Calls.antt =====
-- A call of `def f(a, b, *rest, c, **others)`, where `b` has a default
-- (soac-eval/src/tree_walk/eval.rs).
use diet_python.Prelude.{
  ℕ, suc, ◌-◌, ◌==◌, ◌≡◌, refl, ok, str_eq, true, false, Option, none, some, List, [], ◌∷◌, Forall₂,
  get_elem?, if◌then◌else◌,
}
use diet_python.Params.{ParamKind, ParamSpec}
use diet_python.Binding
use diet_python.Params
use diet_python.Binding.{Runtime, Call, build_function_bound_args}
use diet_python.Binding.Filled.{Served}
use diet_python.Binding.Served.{build_function_bound_args-Served}

-- The state counts the references.
abbrev counting : Runtime ℕ ℕ
counting = record {
  incref = λ o h. suc h;
  decref = λ o h. h - 1;
  tuple_new = λ n h. (some 50, suc h);
  tuple_set_item = λ t i o h. (true, h);
  dict_new = λ h. (some 60, suc h);
  dict_set_item = λ d k o h. (true, suc h);
  py_string = λ o. if o == 70 then some "c" else some "d";
}

abbrev f_params : ParamSpec
f_params =
    record { name = "a"; kind = ParamKind.any; has_default = false }
    ∷ record { name = "b"; kind = ParamKind.any; has_default = true }
    ∷ record { name = "rest"; kind = ParamKind.var_arg; has_default = false }
    ∷ record { name = "c"; kind = ParamKind.kw_only; has_default = false }
    ∷ record { name = "others"; kind = ParamKind.kw_arg; has_default = false }
    ∷ []

-- `f(10, c=13, d=14)`
abbrev f_call : Call ℕ
f_call = record {
  callable = some 1;
  args = get_elem? (10 ∷ 13 ∷ 14 ∷ []);
  nargs = 1;
  nkw = 2;
  kwnames = get_elem? (70 ∷ 71 ∷ []);
}

abbrev f_bound : List (Option ℕ)
f_bound = some 10 ∷ none ∷ some 50 ∷ some 13 ∷ some 60 ∷ []

f_call-binds : build_function_bound_args counting f_call f_params 0 ≡ ok f_bound
unfolding build_function_bound_args str_eq Binding.too_many Binding.bind_positional
    Binding.bind_varargs Binding.fill_tuple Binding.bind_varkw Binding.bind_keywords
    Binding.bind_keyword Binding.bind_borrowed Binding.bind_owned Binding.check_missing
    Binding.cleanup_state_values Binding.fail Binding.filled Binding.keyword_by_kind
    Binding.may_be_missing Binding.named_keyword Binding.other_keyword Binding.set_at
    Params.vararg_index Params.position_from Params.is_var_arg Params.positional_param_indices
    Params.indices_from Params.is_positional Params.kwarg_index Params.is_kw_arg Params.param_index
f_call-binds = refl

build_function_bound_args-Served_example : Forall₂ Served f_params f_bound
build_function_bound_args-Served_example =
    build_function_bound_args-Served counting f_call f_params 0 f_call-binds

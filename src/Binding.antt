-- ===== src/Binding.antt =====
-- Binding the arguments of a call to parameters: `build_function_bound_args`
-- (soac-eval/src/tree_walk/eval.rs). `H` is the state of the Python runtime and `O` the type of its
-- objects; its C interface is an argument. A null pointer is `none`.
pub mod Filled
pub mod Served
use diet_python.Prelude.{
  ℕ, zero, suc, ◌+◌, ◌-◌, ltb, min, String, Bool, true, false, Option, none, some, List, [], ◌∷◌,
  length, take, get_elem?, if◌then◌else◌, ok, err, Result, and_then,
}
use diet_python.Params.{
  ParamKind, Param, ParamSpec, positional_param_indices, param_index, vararg_index, kwarg_index,
}

-- The calls of the C interface: the answer, and the state after the call. `some` and `true` are
-- success.
pub record Runtime (H O : Type 0) : Type 0 where
  pub incref : O → H → H
  pub decref : O → H → H
  pub tuple_new : ℕ → H → Option O × H
  pub tuple_set_item : O → ℕ → O → H → Bool × H
  pub dict_new : H → Option O × H
  pub dict_set_item : O → O → O → H → Bool × H
  pub py_string : O → Option String

-- The error that the source sets; `raised` is one that a call of the interface has set.
pub data BindError : Type 0 where
  null_callable too_many_positional null_positional null_vararg null_keyword raised : BindError
  unexpected_keyword multiple_values missing_required : String → BindError
  -- an index out of bounds
  panic : BindError

-- A call: positional arguments, then those of the keywords.
pub record Call (O : Type 0) : Type 0 where
  pub callable : Option O
  pub args : ℕ → Option O
  pub nargs : ℕ
  pub nkw : ℕ
  pub kwnames : ℕ → Option O

pub record State (H O : Type 0) : Type 0 where
  pub bound_args : List (Option O)
  pub assigned : List Bool
  pub heap : H

-- `xs[i] = a`; the indices here are those of parameters, within bounds.
unfoldable pub set_at {ℓ} : {A : Type ℓ} → ℕ → A → List A → List A
set_at i a [] = []
set_at zero a (x ∷ xs) = a ∷ xs
set_at (suc i) a (x ∷ xs) = x ∷ set_at i a xs

-- `vec![value; n]`
unfoldable pub filled {ℓ} : {A : Type ℓ} → ℕ → A → List A
filled zero a = []
filled (suc n) a = a ∷ filled n a

-- Whether a parameter may stay unassigned.
unfoldable pub may_be_missing : Param → Bool
may_be_missing p = elim p.kind [
  | ParamKind.var_arg ↦ true
  | ParamKind.kw_arg ↦ true
  | ParamKind.any ↦ p.has_default
  | ParamKind.pos_only ↦ p.has_default
  | ParamKind.kw_only ↦ p.has_default
]

unfoldable pub too_many : Option ℕ → ℕ → ℕ → Bool
too_many none nargs capacity = ltb capacity nargs
too_many (some i) nargs capacity = false

module _ {H O : Type 0} (rt : Runtime H O) where
  -- An error, with the state of the runtime where it is raised.
  abbrev Outcome : Type 0 → Type 0
  Outcome A = Result (BindError × H) A

  -- `cleanup_state_values`
  unfoldable pub cleanup_state_values : List (Option O) → H → H
  cleanup_state_values [] h = h
  cleanup_state_values (none ∷ vs) h = cleanup_state_values vs h
  cleanup_state_values (some v ∷ vs) h = cleanup_state_values vs (rt.decref v h)

  unfoldable pub fail : {A : Type 0} → BindError → State H O → Result (BindError × H) A
  fail e s = err (e, cleanup_state_values s.bound_args s.heap)

  -- `bound_arg_value_from_owned`, and the note that the parameter is assigned.
  unfoldable pub bind_owned : ℕ → O → State H O → State H O
  bind_owned i v s = record s {
    bound_args = set_at i (some v) s.bound_args;
    assigned = set_at i true s.assigned;
  }

  -- `bound_arg_value_from_borrowed`
  unfoldable pub bind_borrowed : ℕ → O → State H O → State H O
  bind_borrowed i v s = bind_owned i v (record s { heap = rt.incref v s.heap })

  unfoldable pub bind_positional :
      Call O → List ℕ → ℕ → State H O → Result (BindError × H) (State H O)
  bind_positional call [] position s = ok s
  bind_positional call (i ∷ is) position s = elim (call.args position) [
    | none ↦ fail null_positional s
    | some v ↦ bind_positional call is (suc position) (bind_borrowed i v s)
  ]

  -- The tuple of the other positional arguments; an error releases the tuple.
  unfoldable pub fill_tuple :
      Call O → O → ℕ → ℕ → ℕ → State H O → Result (BindError × H) (State H O)
  fill_tuple call tuple capacity zero offset s = ok s
  fill_tuple call tuple capacity (suc left) offset s = elim (call.args (capacity + offset)) [
    | none ↦ fail null_vararg (record s { heap = rt.decref tuple s.heap })
    | some v ↦
        let (done, h) = rt.tuple_set_item tuple offset v (rt.incref v s.heap) in
        if done
        then fill_tuple call tuple capacity left (suc offset) (record s { heap = h })
        else fail raised (record s { heap = rt.decref tuple (rt.decref v h) })
  ]

  unfoldable pub bind_varargs :
      Call O → ℕ → Option ℕ → State H O → Result (BindError × H) (State H O)
  bind_varargs call capacity none s = ok s
  bind_varargs call capacity (some i) s =
      let extras = call.nargs - capacity in
      let (made, h) = rt.tuple_new extras s.heap in
      elim made [
        | none ↦ fail raised (record s { heap = h })
        | some tuple ↦
            and_then (fill_tuple call tuple capacity extras 0 (record s { heap = h }))
              (λ s'. ok (bind_owned i tuple s'))
      ]

  -- The dictionary of the other keywords, where there is one.
  unfoldable pub bind_varkw : Option ℕ → State H O → Result (BindError × H) (Option O × State H O)
  bind_varkw none s = ok (none, s)
  bind_varkw (some i) s =
      let (made, h) = rt.dict_new s.heap in
      elim made [
        | none ↦ fail raised (record s { heap = h })
        | some dict ↦ ok (some dict, bind_owned i dict (record s { heap = h }))
      ]

  -- A keyword that no parameter takes.
  unfoldable pub other_keyword :
      Option O → String → O → O → State H O → Result (BindError × H) (State H O)
  other_keyword none name key v s = fail (unexpected_keyword name) s
  other_keyword (some dict) name key v s =
      let (done, h) = rt.dict_set_item dict key v s.heap in
      if done then ok (record s { heap = h }) else fail raised (record s { heap = h })

  unfoldable pub named_keyword : ℕ → String → O → State H O → Result (BindError × H) (State H O)
  named_keyword i name v s = elim (get_elem? s.assigned i) [
    | none ↦ fail panic s
    | some taken ↦ if taken then fail (multiple_values name) s else ok (bind_borrowed i v s)
  ]

  -- A parameter of this kind and index has the keyword's name.
  unfoldable pub keyword_by_kind :
      ParamKind → ℕ → Option O → String → O → O → State H O → Result (BindError × H) (State H O)
  keyword_by_kind ParamKind.pos_only i dict name key v s = other_keyword dict name key v s
  keyword_by_kind ParamKind.var_arg i dict name key v s = other_keyword dict name key v s
  keyword_by_kind ParamKind.any i dict name key v s = named_keyword i name v s
  keyword_by_kind ParamKind.kw_only i dict name key v s = named_keyword i name v s
  keyword_by_kind ParamKind.kw_arg i none name key v s = ok s
  keyword_by_kind ParamKind.kw_arg i (some dict) name key v s =
      other_keyword (some dict) name key v s

  unfoldable pub bind_keyword :
      ParamSpec → Option O → String → O → O → State H O → Result (BindError × H) (State H O)
  bind_keyword params dict name key v s = elim (param_index name params) [
    | none ↦ other_keyword dict name key v s
    | some i ↦ elim (get_elem? params i) [
      | none ↦ fail panic s
      | some p ↦ keyword_by_kind p.kind i dict name key v s
    ]
  ]

  unfoldable pub bind_keywords :
      Call O → ParamSpec → Option O → ℕ → ℕ → State H O → Result (BindError × H) (State H O)
  bind_keywords call params dict zero kw_index s = ok s
  bind_keywords call params dict (suc left) kw_index s = elim (call.kwnames kw_index) [
    | none ↦ fail raised s
    | some key ↦ elim (call.args (call.nargs + kw_index)) [
      | none ↦ fail null_keyword s
      | some v ↦ elim (rt.py_string key) [
        | none ↦ fail raised s
        | some name ↦
            and_then (bind_keyword params dict name key v s)
              (bind_keywords call params dict left (suc kw_index))
      ]
    ]
  ]

  unfoldable pub check_missing :
      ParamSpec → List Bool → State H O → Result (BindError × H) (List (Option O))
  check_missing [] assigned s = ok s.bound_args
  check_missing (p ∷ ps) [] s = fail panic s
  check_missing (p ∷ ps) (a ∷ flags) s =
      let rest = check_missing ps flags s in
      if a then rest else if may_be_missing p then rest else fail (missing_required p.name) s

  -- The values of the parameters in their order: a parameter with a default may be left null.
  unfoldable pub build_function_bound_args :
      Call O → ParamSpec → H → Result (BindError × H) (List (Option O))
  build_function_bound_args call params h = elim call.callable [
    | none ↦ err (null_callable, h)
    | some f ↦
        let start : State H O = record {
          bound_args = filled (length params) none;
          assigned = filled (length params) false;
          heap = h;
        } in
        let positional = positional_param_indices params in
        let capacity = length positional in
        let varargs = vararg_index params in
        if too_many varargs call.nargs capacity
        then fail too_many_positional start
        else and_then (bind_positional call (take (min call.nargs capacity) positional) 0 start)
            λ s1. and_then (bind_varargs call capacity varargs s1) λ s2.
              and_then (bind_varkw (kwarg_index params) s2) λ (dict, s3).
                and_then (bind_keywords call params dict call.nkw 0 s3)
                  λ s4. check_missing params s4.assigned s4
  ]

-- ===== src/Examples/Runtime.antt =====
-- Small runs of the counter, of reference counts, of parameter lists and of scopes.
use diet_python.Prelude.{
  String, ℕ, ◌*◌, ◌≤◌, ◌==◌, ◌≡◌, ==_iff, refl, Bool, false, none, some, List, [], ◌∷◌, Memᴰ, map,
  Forall₂, arith, length, if◌then◌else◌, str_eq,
}
use diet_python.Counter
use diet_python.Counter.{CounterSlot, recorded, true_count, lower_bound, approx_count}
use diet_python.Counter.Estimates.{approx_count-bounds, approx_count-heavy}
use diet_python.Refcount.{immortal_initial_refcnt, inc, dec, steps}
use diet_python.Refcount.Balance.{object, held, steps-balanced, steps-immortal}
use diet_python.Params.{Parameters, collect_param_spec_and_defaults, iter_with_default_sources}
use diet_python.Params.Sources.{
  param_of, declared, defaults_of, collect_param_spec_and_defaults-declared,
}
use diet_python.Params.Lookup.{Sourced, iter_with_default_sources-Sourced}
use diet_python.Scope.{
  CallableScopeInfo, CallableScopeKind, BindingKind, load, store, is_internal_symbol, holds,
  binding_kind, effective_binding, get, insert_binding_with_cell_names, binding_target_for_name,
}
use diet_python.Scope.Consistent.{
  IsConsistent, namespace_of, insert_binding-IsConsistent, binding_target_for_name-namespace,
}
use diet_python.Scope.Cells
use diet_python.Scope.Cells.{
  build_storage_layout, freevar_of, cell_storage_name, logical_name_for_cell_storage,
}
use diet_python.Scope.Cells.Names.{logical_name-cell_storage_name}
use diet_python.Scope.Cells.Slots.{HasSlots, build_storage_layout-HasSlots}
use diet_python.Ir.Layout.{ClosureInit, ClosureSlot, StorageLayout}
use diet_python.Ir.Label.{new, module_id, function_id}
use diet_python.Ir.Ids.{new-halves}
use diet_python.Ir.Block.{BlockParam, BlockParamRole, set_exception_param, exception_param}
use diet_python.Ir.ExceptionParam.{exception_param-set_exception_param}

abbrev calls : List ℕ
calls = 5 ∷ 7 ∷ 5 ∷ 9 ∷ 5 ∷ []

abbrev same : ℕ → ℕ → Bool
same a b = a == b

five-answer : approx_count same 5 (recorded same 2 calls) ≡ some 3
unfolding approx_count recorded Counter.record_value Counter.bump Counter.fill
    Counter.min_slot_index Counter.min_by_count Counter.taken Counter.set_slot Counter.displaced
    Counter.new
five-answer = refl

approx_count-bounds_example :
    (s : CounterSlot ℕ) × Memᴰ (some s) (recorded same 2 calls)
    × (s.value ≡ 5)
    × (s.approx_count ≡ 3)
    × (lower_bound s ≤ true_count same 5 calls)
    × (true_count same 5 calls ≤ 3)
approx_count-bounds_example = approx_count-bounds same ==_iff 2 calls (omega arith) 5 five-answer

nine-answer : approx_count same 9 (recorded same 2 calls) ≡ none
unfolding approx_count recorded Counter.record_value Counter.bump Counter.fill
    Counter.min_slot_index Counter.min_by_count Counter.taken Counter.set_slot Counter.displaced
    Counter.new
nine-answer = refl

approx_count-heavy_example : 2 * true_count same 9 calls ≤ length calls
approx_count-heavy_example = approx_count-heavy same ==_iff 2 calls (omega arith) 9 nine-answer

uses-held : held 1 (inc ∷ dec ∷ dec ∷ []) ≡ some 0
unfolding held
uses-held = refl

steps-balanced_example :
    steps (inc ∷ dec ∷ dec ∷ []) (some (object 1 0)) ≡ some (object 0 (if 0 == 0 then 1 else 0))
steps-balanced_example = steps-balanced (inc ∷ dec ∷ dec ∷ []) 0 0 0 (omega arith) uses-held

steps-immortal_example :
    steps (inc ∷ dec ∷ []) (some (object immortal_initial_refcnt 0))
    ≡ some (object immortal_initial_refcnt 0)
steps-immortal_example =
    steps-immortal (inc ∷ dec ∷ []) (object immortal_initial_refcnt 0) (omega arith)

-- `def f(a, /, b=1, *args, c=2)`, the defaults being numbers.
abbrev signature : Parameters ℕ
signature = record {
  posonlyargs = ("a", none) ∷ [];
  args = ("b", some 1) ∷ [];
  vararg = some "args";
  kwonlyargs = ("c", some 2) ∷ [];
  kwarg = none;
}

collect_param_spec_and_defaults-declared_example :
    collect_param_spec_and_defaults signature
    ≡ some (map param_of (declared signature), defaults_of (declared signature))
collect_param_spec_and_defaults-declared_example =
    collect_param_spec_and_defaults-declared signature

iter_with_default_sources-Sourced_example :
    Forall₂
      (Sourced (defaults_of (declared signature)))
      (declared signature)
      (iter_with_default_sources (map param_of (declared signature)))
iter_with_default_sources-Sourced_example = iter_with_default_sources-Sourced signature

abbrev class_scope : CallableScopeInfo
class_scope = record {
  scope_kind = CallableScopeKind.class;
  bindings = [];
  local_defs = [];
  cell_storage_names = [];
  cell_capture_source_names = [];
  owned_cell_source_names = [];
  scope_internal_names = [];
  type_param_names = "T" ∷ [];
  effective_load_bindings = [];
  effective_store_bindings = [];
}

class_scope-IsConsistent : IsConsistent class_scope
unfolding effective_binding binding_kind get
class_scope-IsConsistent n load h = refl
class_scope-IsConsistent n store h = refl

abbrev with_binding : CallableScopeInfo
with_binding = insert_binding_with_cell_names "x" BindingKind.local false none none class_scope

with_binding-IsConsistent : IsConsistent with_binding
with_binding-IsConsistent =
    insert_binding-IsConsistent "x" BindingKind.local false none none class_scope
      class_scope-IsConsistent

insert_binding-IsConsistent_example : IsConsistent with_binding
insert_binding-IsConsistent_example =
    insert_binding-IsConsistent "x" BindingKind.local false none none class_scope
      class_scope-IsConsistent

x-plain : is_internal_symbol "x" ≡ false
unfolding is_internal_symbol str_eq
x-plain = refl

binding_target_for_name-namespace_example :
    binding_target_for_name with_binding "x" store
    ≡ namespace_of with_binding.scope_kind
        (holds with_binding.type_param_names "x")
        store
        (binding_kind with_binding "x")
binding_target_for_name-namespace_example =
    binding_target_for_name-namespace with_binding "x" store with_binding-IsConsistent x-plain

new-halves_example :
    (module_id (new 3 4) ≡ 3)
    × (function_id (new 3 4) ≡ 4)
    × ((new (module_id (record { packed = 5 })) (function_id (record { packed = 5 }))).packed ≡ 5)
new-halves_example = new-halves 3 4 5 (omega arith) (omega arith) (omega arith)

abbrev params : List BlockParam
params =
    record { name = "old"; role = BlockParamRole.exception }
    ∷ record { name = "x"; role = BlockParamRole.abrupt_payload }
    ∷ []

exception_param-set_exception_param_example :
    exception_param (set_exception_param "x" params) ≡ some "x"
exception_param-set_exception_param_example = exception_param-set_exception_param "x" params

no_storage : get "x" class_scope.cell_storage_names ≡ none
unfolding get
no_storage = refl

logical_name-cell_storage_name_example :
    logical_name_for_cell_storage class_scope (cell_storage_name class_scope "x") ≡ some "x"
logical_name-cell_storage_name_example = logical_name-cell_storage_name class_scope "x" no_storage

abbrev outer_slot : ClosureSlot
outer_slot = record {
  logical_name = "outer";
  storage_name = "_dp_cell_outer";
  init = ClosureInit.inherited_capture;
}

abbrev own_slot : ClosureSlot
own_slot = record { logical_name = "x"; storage_name = "_dp_cell_x"; init = ClosureInit.parameter }

abbrev outer_layout : StorageLayout
outer_layout = record {
  freevars = outer_slot ∷ [];
  cellvars = own_slot ∷ [];
  runtime_cells = [];
  stack_slots = [];
}

abbrev outer_captures : List String
outer_captures = "outer" ∷ "outer" ∷ []

abbrev outer_cells : List String
outer_cells = "_dp_cell__dp_pc" ∷ "_dp_cell_x" ∷ []

outer-built :
    build_storage_layout class_scope outer_captures ("x" ∷ []) outer_cells ≡ some outer_layout
unfolding build_storage_layout Cells.sort Cells.insert_sorted Cells.dedup Cells.freevar_of
    Cells.cell_storage_name Cells.cell_name get str_eq Cells.cellvar_of Cells.logical_or_storage
    logical_name_for_cell_storage Cells.strip_prefix Cells.is_runtime_closure_name
outer-built = refl

build_storage_layout-HasSlots_example :
    HasSlots class_scope outer_captures ("x" ∷ []) outer_cells outer_layout
build_storage_layout-HasSlots_example =
    build_storage_layout-HasSlots class_scope outer_captures ("x" ∷ []) outer_cells outer-built

-- ===== src/Scope/Cells.antt =====
-- Names of cells: where a cell is stored, and which name a stored cell belongs to (scope.rs).
pub mod Names
pub mod Layouts
pub mod Slots
use text.Mathlib.Text.{starts_with, is_le}
use Prim.Native.String.{compare, len, slice, ◌++◌}
use mathlib.Core.Option
use diet_python.Prelude.{
  String, str_eq, ◌||◌, not, Bool, true, false, Option, none, some, List, [], ◌∷◌, map, retain,
  if◌then◌else◌,
}
use diet_python.Ir.Layout.{ClosureInit, ClosureSlot, StorageLayout}
use diet_python.Scope.{
  CallableScopeInfo, CallableScopeKind, BindingKind, CellBindingKind, is_cell_binding, holds, add,
  get,
}

-- `str::strip_prefix`
unfoldable pub strip_prefix : String → String → Option String
strip_prefix prefix s = if starts_with s prefix then some (slice s (len prefix) (len s)) else none

-- `cell_name` (passes/ast_to_ast/scope_helpers.rs)
unfoldable pub cell_name : String → String
cell_name n = "_dp_cell_" ++ n

abbrev pub name_or_cell : String → Option String → String
name_or_cell n none = cell_name n
name_or_cell n (some stored) = stored

unfoldable pub cell_storage_name : CallableScopeInfo → String → String
cell_storage_name info n = name_or_cell n (get n info.cell_storage_names)

unfoldable pub cell_capture_source_name : CallableScopeInfo → String → String
cell_capture_source_name info n = name_or_cell n (get n info.cell_capture_source_names)

unfoldable pub cell_ref_source_name : CallableScopeInfo → String → String
cell_ref_source_name info n =
    if is_cell_binding info n then cell_storage_name info n else cell_capture_source_name info n

-- `iter().find_map`: a key whose value is the name.
unfoldable pub key_of : String → List (String × String) → Option String
key_of stored [] = none
key_of stored ((k, v) ∷ rest) =
    let later = key_of stored rest in if str_eq v stored then some k else later

unfoldable pub logical_name_for_cell_storage : CallableScopeInfo → String → Option String
logical_name_for_cell_storage info stored = elim (strip_prefix "_dp_cell_" stored) [
  | some logical ↦ some logical
  | none ↦ key_of stored info.cell_storage_names
]

unfoldable pub logical_name_for_cell_capture_source : CallableScopeInfo → String → Option String
logical_name_for_cell_capture_source info stored =
    elim (key_of stored info.cell_capture_source_names) [
      | some logical ↦ some logical
      | none ↦ logical_name_for_cell_storage info stored
    ]

-- The storage names of the owned cells among some bindings.
unfoldable pub owned_among : CallableScopeInfo → List (String × BindingKind) → List String
owned_among info [] = []
owned_among info ((n, BindingKind.cell CellBindingKind.owner) ∷ rest) =
    add (cell_storage_name info n) (owned_among info rest)
owned_among info ((n, _) ∷ rest) = owned_among info rest

abbrev pub add_all : List String → List String → List String
add_all [] names = names
add_all (n ∷ ns) names = add n (add_all ns names)

unfoldable pub owned_cell_storage_names : CallableScopeInfo → List String
owned_cell_storage_names info =
    add_all info.owned_cell_source_names (owned_among info info.bindings)

-- `is_runtime_closure_name`
unfoldable pub is_runtime_closure_name : String → Bool
is_runtime_closure_name n =
    str_eq n "_dp_pc"
    || str_eq n "_dp_yieldfrom"
    || str_eq n "_dp_throw_context"
    || starts_with n "_dp_try_abrupt_kind_"

-- `sort`, by insertion.
unfoldable pub insert_sorted : String → List String → List String
insert_sorted n [] = n ∷ []
insert_sorted n (m ∷ ms) =
    let later = insert_sorted n ms in if is_le (compare n m) then n ∷ m ∷ ms else m ∷ later

unfoldable pub sort : List String → List String
sort [] = []
sort (n ∷ ns) = insert_sorted n (sort ns)

abbrev pub drop_same : String → List String → List String
drop_same n [] = n ∷ []
drop_same n (m ∷ ms) = if str_eq n m then m ∷ ms else n ∷ m ∷ ms

-- `dedup`: neighbours that are equal become one.
unfoldable pub dedup : List String → List String
dedup [] = []
dedup (n ∷ ns) = drop_same n (dedup ns)

-- The logical name of a stored cell, or the storage name itself.
unfoldable pub logical_or_storage : CallableScopeInfo → String → String
logical_or_storage info stored = elim (logical_name_for_cell_storage info stored) [
  | some logical ↦ logical
  | none ↦ stored
]

unfoldable pub freevar_of : CallableScopeInfo → String → ClosureSlot
freevar_of info n = record {
  logical_name = n;
  storage_name = cell_storage_name info n;
  init = ClosureInit.inherited_capture;
}

unfoldable pub cellvar_of : CallableScopeInfo → List String → String → ClosureSlot
cellvar_of info params stored = record {
  logical_name = logical_or_storage info stored;
  storage_name = stored;
  init =
      if holds params (logical_or_storage info stored)
      then ClosureInit.parameter
      else ClosureInit.deleted_sentinel;
}

-- The end of the function below, which asks for a layout only where there is a slot.
abbrev pub layout_of : List ClosureSlot → List ClosureSlot → Option StorageLayout
layout_of [] [] = none
layout_of freevars cellvars =
    some (record { freevars = freevars; cellvars = cellvars; runtime_cells = []; stack_slots = [] })

-- `build_storage_layout_from_capture_names`
unfoldable pub build_storage_layout :
    CallableScopeInfo → List String → List String → List String → Option StorageLayout
build_storage_layout info capture_names params local_cell_slots =
    layout_of (map (freevar_of info) (dedup (sort capture_names))) (
      map (cellvar_of info params)
        (retain (λ s. not (is_runtime_closure_name (logical_or_storage info s))) local_cell_slots))

-- ===== src/Scope.antt =====
-- Scope information of callables (`CallableScopeInfo` of soac-blockpy/src/block_py/scope.rs). Hash
-- maps are association lists with one entry for a key, and hash sets are lists.
pub mod Consistent
pub mod Cells
use text.Mathlib.Text.{starts_with}
use diet_python.Prelude.{
  String, str_eq, ◌||◌, ◌&&◌, not, Bool, true, false, Option, none, some, List, [], ◌∷◌, ◌++◌, any,
  if◌then◌else◌,
}

pub data BindingTarget : Type 0 where
  local module_global class_namespace : BindingTarget

pub data CellBindingKind : Type 0 where
  owner capture : CellBindingKind

pub data BindingKind : Type 0 where
  local global : BindingKind
  cell : CellBindingKind → BindingKind

pub data CallableScopeKind : Type 0 where
  function class module_scope : CallableScopeKind

pub data ClassBodyFallback : Type 0 where
  to_global to_cell : ClassBodyFallback

pub data EffectiveBinding : Type 0 where
  local global : EffectiveBinding
  cell : CellBindingKind → EffectiveBinding
  class_body : ClassBodyFallback → EffectiveBinding

pub data BindingPurpose : Type 0 where
  load store : BindingPurpose

-- `is_internal_symbol` (block_py/mod.rs)
unfoldable pub is_internal_symbol : String → Bool
is_internal_symbol n = starts_with n "_dp_" || str_eq n "__soac__"

-- A hash set of names.
abbrev pub holds : List String → String → Bool
holds names n = any (λ m. str_eq m n) names

unfoldable pub add : String → List String → List String
add n names = if holds names n then names else names ++ n ∷ []

module _ {V : Type 0} where
  unfoldable pub get : String → List (String × V) → Option V
  get n [] = none
  get n ((k, v) ∷ rest) = let later = get n rest in if str_eq k n then some v else later

  unfoldable pub put : String → V → List (String × V) → List (String × V)
  put n v [] = (n, v) ∷ []
  put n v ((k, w) ∷ rest) =
      let later = put n v rest in if str_eq k n then (k, v) ∷ rest else (k, w) ∷ later

  abbrev pub put_if : String → Option V → List (String × V) → List (String × V)
  put_if n none m = m
  put_if n (some v) m = put n v m

-- The record, without the display names of the function.
pub record CallableScopeInfo : Type 0 where
  pub scope_kind : CallableScopeKind
  pub bindings : List (String × BindingKind)
  pub local_defs : List String
  pub cell_storage_names : List (String × String)
  pub cell_capture_source_names : List (String × String)
  pub owned_cell_source_names : List String
  pub scope_internal_names : List String
  pub type_param_names : List String
  pub effective_load_bindings : List (String × EffectiveBinding)
  pub effective_store_bindings : List (String × EffectiveBinding)

-- The binding itself, outside a class body.
abbrev pub plain : BindingKind → EffectiveBinding
plain BindingKind.local = EffectiveBinding.local
plain BindingKind.global = EffectiveBinding.global
plain (BindingKind.cell k) = EffectiveBinding.cell k

unfoldable pub load_binding : CallableScopeKind → BindingKind → EffectiveBinding
load_binding CallableScopeKind.class (BindingKind.cell k) =
    EffectiveBinding.class_body ClassBodyFallback.to_cell
load_binding CallableScopeKind.class BindingKind.local =
    EffectiveBinding.class_body ClassBodyFallback.to_global
load_binding CallableScopeKind.class BindingKind.global =
    EffectiveBinding.class_body ClassBodyFallback.to_global
load_binding _ binding = plain binding

unfoldable pub store_binding : CallableScopeKind → Bool → BindingKind → EffectiveBinding
store_binding CallableScopeKind.class true binding = plain binding
store_binding CallableScopeKind.class false BindingKind.local =
    EffectiveBinding.class_body ClassBodyFallback.to_global
store_binding _ _ binding = plain binding

-- `derive_effective_binding_for_name`
unfoldable pub derive_effective_binding_for_name :
    String
    → BindingKind
    → CallableScopeKind
    → List String
    → BindingPurpose
    → Bool
    → EffectiveBinding
derive_effective_binding_for_name n binding kind type_params purpose honor =
    if is_internal_symbol n && not honor then EffectiveBinding.local else elim purpose [
      | load ↦ load_binding kind binding
      | store ↦ store_binding kind (holds type_params n) binding
    ]

unfoldable pub honors_internal_binding : CallableScopeInfo → String → Bool
honors_internal_binding info n = not (is_internal_symbol n) || holds info.scope_internal_names n

unfoldable pub binding_kind : CallableScopeInfo → String → Option BindingKind
binding_kind info n = get n info.bindings

unfoldable pub has_local_def : CallableScopeInfo → String → Bool
has_local_def info n = holds info.local_defs n

unfoldable pub effective_binding :
    CallableScopeInfo → String → BindingPurpose → Option EffectiveBinding
effective_binding info n load = get n info.effective_load_bindings
effective_binding info n store = get n info.effective_store_bindings

unfoldable pub insert_binding_with_cell_names :
    String
    → BindingKind
    → Bool
    → Option String
    → Option String
    → CallableScopeInfo
    → CallableScopeInfo
insert_binding_with_cell_names n binding honor storage source info = record info {
  bindings = put n binding info.bindings;
  cell_storage_names = put_if n storage info.cell_storage_names;
  cell_capture_source_names = put_if n source info.cell_capture_source_names;
  scope_internal_names =
      if honor then add n info.scope_internal_names else info.scope_internal_names;
  effective_load_bindings =
      put n
        (derive_effective_binding_for_name n binding info.scope_kind info.type_param_names load
          honor)
        info.effective_load_bindings;
  effective_store_bindings =
      put n
        (derive_effective_binding_for_name n binding info.scope_kind info.type_param_names store
          honor)
        info.effective_store_bindings;
}

unfoldable pub insert_binding :
    String → BindingKind → Bool → Option String → CallableScopeInfo → CallableScopeInfo
insert_binding n binding honor storage info =
    insert_binding_with_cell_names n binding honor storage storage info

-- The end of `resolved_load_binding_kind`, for a name without a binding that is honored.
abbrev pub unbound_kind : String → BindingKind
unbound_kind n = if is_internal_symbol n then BindingKind.local else BindingKind.global

unfoldable pub resolved_load_binding_kind : CallableScopeInfo → String → BindingKind
resolved_load_binding_kind info n = elim (binding_kind info n) [
  | none ↦ unbound_kind n
  | some binding ↦ if honors_internal_binding info n then binding else unbound_kind n
]

unfoldable pub is_cell_binding : CallableScopeInfo → String → Bool
is_cell_binding info n = elim (binding_kind info n) [
  | some (BindingKind.cell k) ↦ true
  | some BindingKind.local ↦ false
  | some BindingKind.global ↦ false
  | none ↦ false
]

-- Where an effective binding is kept.
abbrev pub target_of : EffectiveBinding → BindingTarget
target_of EffectiveBinding.global = BindingTarget.module_global
target_of (EffectiveBinding.class_body f) = BindingTarget.class_namespace
target_of EffectiveBinding.local = BindingTarget.local
target_of (EffectiveBinding.cell k) = BindingTarget.local

abbrev pub target_of_option : Option EffectiveBinding → BindingTarget
target_of_option none = BindingTarget.local
target_of_option (some b) = target_of b

-- The end of `binding_target_for_name`.
abbrev pub unhonored_target : String → Option EffectiveBinding → BindingTarget
unhonored_target n b = if is_internal_symbol n then BindingTarget.local else target_of_option b

unfoldable pub binding_target_for_name : CallableScopeInfo → String → BindingPurpose → BindingTarget
binding_target_for_name info n purpose = elim (effective_binding info n purpose) [
  | none ↦ unhonored_target n none
  | some b ↦ if honors_internal_binding info n then target_of b else unhonored_target n (some b)
]

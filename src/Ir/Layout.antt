-- ===== src/Ir/Layout.antt =====
-- Storage layouts of callables: free variables, cells and stack slots
-- (`StorageLayout` of soac-blockpy/src/block_py/scope.rs).
use diet_python.Prelude.{
  ℕ, String, str_eq, ◌||◌, Bool, Option, List, [], ◌∷◌, ◌++◌, map, any, get_elem?, if◌then◌else◌,
}

pub data ClosureInit : Type 0 where
  inherited_capture parameter deleted_sentinel runtime_pc_unstarted : ClosureInit
  runtime_abrupt_kind_fallthrough runtime_none deferred : ClosureInit

pub record ClosureSlot : Type 0 where
  pub logical_name : String
  pub storage_name : String
  pub init : ClosureInit

pub record StorageLayout : Type 0 where
  pub freevars : List ClosureSlot
  pub cellvars : List ClosureSlot
  pub runtime_cells : List ClosureSlot
  pub stack_slots : List String

unfoldable pub freevar_slot : StorageLayout → ℕ → Option ClosureSlot
freevar_slot l slot = get_elem? l.freevars slot

-- The cells are numbered through both lists.
unfoldable pub local_cell_slot : StorageLayout → ℕ → Option ClosureSlot
local_cell_slot l slot = get_elem? (l.cellvars ++ l.runtime_cells) slot

unfoldable pub local_cell_storage_names : StorageLayout → List String
local_cell_storage_names l = map (λ s. s.storage_name) (l.cellvars ++ l.runtime_cells)

abbrev pub stored_as : String → ClosureSlot → Bool
stored_as n s = str_eq s.storage_name n

unfoldable pub has_freevar_storage_name : StorageLayout → String → Bool
has_freevar_storage_name l n = any (stored_as n) l.freevars

unfoldable pub has_cellvar_storage_name : StorageLayout → String → Bool
has_cellvar_storage_name l n = any (stored_as n) l.cellvars

unfoldable pub has_storage_name : StorageLayout → String → Bool
unfolding has_freevar_storage_name has_cellvar_storage_name
has_storage_name l n =
    has_freevar_storage_name l n
    || has_cellvar_storage_name l n
    || any (stored_as n) l.runtime_cells

unfoldable pub set_stack_slots : List String → StorageLayout → StorageLayout
set_stack_slots slots l = record l { stack_slots = slots }

unfoldable pub ensure_stack_slot : String → StorageLayout → StorageLayout
ensure_stack_slot n l =
    if any (λ s. str_eq s n) l.stack_slots
    then l
    else record l { stack_slots = l.stack_slots ++ n ∷ [] }

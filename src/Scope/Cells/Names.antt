-- ===== src/Scope/Cells/Names.antt =====
-- Storage names are read back as the names they were made for (scope.rs).
use text.Mathlib.TextPositions.{starts_with-append, slice-append_right, len-append}
use Prim.Native.String.{◌++◌}
use diet_python.Prelude.{◌≡◌, refl, String, none, some}
use diet_python.Scope.{CallableScopeInfo, get}
use diet_python.Scope.Cells.{
  strip_prefix, cell_name, cell_storage_name, logical_name_for_cell_storage,
}

strip_prefix-append : (p s : String) → strip_prefix p (p ++ s) ≡ some s
unfolding strip_prefix
strip_prefix-append p s =
    rw (starts_with-append p s) (rw (len-append p s) (rw (slice-append_right p s) refl))

-- A name that no storage name is recorded for is read back from the name of its cell.
pub logical_name-cell_storage_name :
    (info : CallableScopeInfo) (n : String)
    → get n info.cell_storage_names ≡ none
    → logical_name_for_cell_storage info (cell_storage_name info n) ≡ some n
unfolding logical_name_for_cell_storage cell_storage_name cell_name
logical_name-cell_storage_name info n h =
    rw h (rw (strip_prefix-append "_dp_cell_" n, logical_name_for_cell_storage) refl)

-- ===== src/CounterDump/Read.antt =====
-- The inspector's view of a record (soac-inspector/src/counter_dump.rs).
use diet_python.Prelude.{
  ℕ, suc, ◌-◌, leb, ◌&&◌, ◌||◌, ◌==◌, String, Option, none, some, List, get_elem?, length, take,
  drop, if◌then◌else◌, ok, err, Result, and_then,
}
use diet_python.Ir.Label.{FunctionId}
use diet_python.Instrument.Counters.{InstrId}
use diet_python.CounterDump.{none_u32, none_u64, CounterDumpRecordView, CounterDumpRow}

-- The messages of the source, and the panic on an index of a column that is too short.
pub data ReadError : Type 0 where
  row_out_of_bounds string_out_of_bounds no_terminal_offset range_out_of_bounds not_utf8 : ReadError
  column_too_short : ReadError

unfoldable pub ok_or {ℓ} : {A : Type ℓ} → Option A → ReadError → Result ReadError A
ok_or none e = err e
ok_or (some a) e = ok a

-- `get(start..end)`
unfoldable pub slice : ℕ → ℕ → List ℕ → Option (List ℕ)
slice start stop xs =
    if leb start stop && leb stop (length xs)
    then some (take (stop - start) (drop start xs))
    else none

unfoldable pub function_id_from : ℕ → Option FunctionId
function_id_from n = if n == none_u64 then none else some (record { packed = n })

unfoldable pub instr_id_from : ℕ → ℕ → Option InstrId
instr_id_from label index =
    if (label == none_u32) || (index == none_u32)
    then none
    else some (record { block_label = label; instr_index_in_block = index })

module _ (from_utf8 : List ℕ → Option String) (view : CounterDumpRecordView) where
  unfoldable pub resolve_string_id : ℕ → Result ReadError String
  resolve_string_id id =
      and_then (ok_or (get_elem? view.string_offsets id) string_out_of_bounds) λ start.
        and_then (ok_or (get_elem? view.string_offsets (suc id)) no_terminal_offset) λ stop.
          and_then (ok_or (slice start stop view.string_bytes) range_out_of_bounds)
            λ bytes. ok_or (from_utf8 bytes) not_utf8

  unfoldable pub resolve_optional_string_id : ℕ → Result ReadError (Option String)
  resolve_optional_string_id id =
      if id == none_u32 then ok none else and_then (resolve_string_id id) (λ s. ok (some s))

  unfoldable pub module_name : Result ReadError String
  module_name = resolve_string_id view.module_name_string_id

  unfoldable pub package_name : Result ReadError (Option String)
  package_name = resolve_optional_string_id view.package_name_string_id

  abbrev column : List ℕ → ℕ → Result ReadError ℕ
  column xs i = ok_or (get_elem? xs i) column_too_short

  -- Where the counter ids end, so do the rows.
  unfoldable pub row : ℕ → Result ReadError CounterDumpRow
  row i = and_then (ok_or (get_elem? view.counter_id i) row_out_of_bounds) λ counter_id.
      and_then (and_then (column view.scope i) resolve_string_id) λ scope.
        and_then (and_then (column view.kind i) resolve_string_id) λ kind.
          and_then (and_then (column view.site_kind i) resolve_string_id) λ site_kind.
            and_then (column view.function_id i) λ function_id.
              and_then (column view.current_function_id i) λ current_function_id.
                and_then (column view.instr_block_label i) λ label.
                  and_then (column view.instr_index_in_block i) λ index.
                    and_then (and_then (column view.function_qualname i) resolve_optional_string_id)
                      λ function_qualname.
                        and_then (and_then (column view.block_label i) resolve_optional_string_id)
                          λ block_label. and_then (column view.value i) λ value. ok (record {
                            counter_id = counter_id;
                            scope = scope;
                            kind = kind;
                            site_kind = site_kind;
                            function_id = function_id_from function_id;
                            current_function_id = function_id_from current_function_id;
                            instr_id = instr_id_from label index;
                            function_qualname = function_qualname;
                            block_label = block_label;
                            value = value;
                          })

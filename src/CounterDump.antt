-- ===== src/CounterDump.antt =====
-- Counter dumps: what the evaluator writes (soac-eval/src/counter_dump.rs) and the inspector reads
-- (soac-inspector/src/counter_dump.rs). The columns are lists of numbers; how they stand as bytes in
-- a record is in Layout, Bytes and Record. `as_bytes` and `from_utf8` are the standard library's, as arguments.
pub mod Layout
pub mod Read
pub mod Strings
pub mod Intern
pub mod Rows
pub mod Bytes
pub mod Record
pub mod RoundTrip
pub mod Parsed
pub mod Fits
pub mod Encoded
use diet_python.Prelude.{
  ℕ, zero, suc, ◌+◌, ◌-◌, ◌^◌, ltb, leb, ◌&&◌, ◌==◌, String, str_eq, Bool, true, false, Option,
  none, some, List, [], ◌∷◌, ◌++◌, map, length, if◌then◌else◌, ok, err, Result, and_then,
}
use diet_python.Ir.Label.{FunctionId}
use diet_python.Instrument.Counters.{InstrId}

abbrev pub none_u32 : ℕ
none_u32 = 2 ^ 32 - 1

abbrev pub none_u64 : ℕ
none_u64 = 2 ^ 64 - 1

pub record CounterDumpRow : Type 0 where
  pub counter_id : ℕ
  pub scope : String
  pub kind : String
  pub site_kind : String
  pub function_id : Option FunctionId
  pub current_function_id : Option FunctionId
  pub instr_id : Option InstrId
  pub function_qualname : Option String
  pub block_label : Option String
  pub value : ℕ

pub record CounterDumpRecord : Type 0 where
  pub module_name : String
  pub package_name : Option String
  pub rows : List CounterDumpRow

-- The messages of the source.
pub data DumpError : Type 0 where
  string_table_full too_many_rows too_many_strings too_many_bytes : DumpError
  offset_too_large out_of_bounds : DumpError

pub record StringTable : Type 0 where
  pub ids : List (String × ℕ)
  pub strings : List String

abbrev pub default_table : StringTable
default_table = record { ids = []; strings = [] }

unfoldable pub id_of : String → List (String × ℕ) → Option ℕ
id_of v [] = none
id_of v ((w, id) ∷ ids) = if str_eq w v then some id else id_of v ids

-- `u32::try_from`
abbrev pub as_u32 : DumpError → ℕ → Result DumpError ℕ
as_u32 e n = if ltb n (2 ^ 32) then ok n else err e

unfoldable pub intern : String → StringTable → Result DumpError (ℕ × StringTable)
intern v t = elim (id_of v t.ids) [
  | some id ↦ ok (id, t)
  | none ↦
      and_then (as_u32 string_table_full (length t.strings))
        λ id. ok (id, record { ids = (v, id) ∷ t.ids; strings = t.strings ++ v ∷ [] })
]

unfoldable pub intern_optional : Option String → StringTable → Result DumpError (ℕ × StringTable)
intern_optional none t = ok (none_u32, t)
intern_optional (some v) t = intern v t

-- The numbers of one row, one in each column.
pub record EncodedRow : Type 0 where
  pub counter_id : ℕ
  pub scope : ℕ
  pub kind : ℕ
  pub site_kind : ℕ
  pub function_id : ℕ
  pub current_function_id : ℕ
  pub instr_block_label : ℕ
  pub instr_index_in_block : ℕ
  pub function_qualname : ℕ
  pub block_label : ℕ
  pub value : ℕ

unfoldable pub packed_id : Option FunctionId → ℕ
packed_id none = none_u64
packed_id (some f) = f.packed

unfoldable pub label_of : Option InstrId → ℕ
label_of none = none_u32
label_of (some i) = i.block_label

unfoldable pub index_of : Option InstrId → ℕ
index_of none = none_u32
index_of (some i) = i.instr_index_in_block

-- One round of the loop of `encode`.
unfoldable pub encode_row :
    CounterDumpRow → StringTable → Result DumpError (EncodedRow × StringTable)
encode_row row t0 = and_then (intern row.scope t0) λ (scope, t1).
    and_then (intern row.kind t1) λ (kind, t2).
      and_then (intern row.site_kind t2) λ (site_kind, t3).
        and_then (intern_optional row.function_qualname t3) λ (qualname, t4).
          and_then (intern_optional row.block_label t4) λ (label, t5). ok (
            record {
              counter_id = row.counter_id;
              scope = scope;
              kind = kind;
              site_kind = site_kind;
              function_id = packed_id row.function_id;
              current_function_id = packed_id row.current_function_id;
              instr_block_label = label_of row.instr_id;
              instr_index_in_block = index_of row.instr_id;
              function_qualname = qualname;
              block_label = label;
              value = row.value;
            },
            t5,
          )

unfoldable pub encode_rows :
    List CounterDumpRow → StringTable → Result DumpError (List EncodedRow × StringTable)
encode_rows [] t = ok ([], t)
encode_rows (r ∷ rs) t =
    and_then (encode_row r t) λ (e, t1). and_then (encode_rows rs t1) λ (es, t2). ok (e ∷ es, t2)

-- An empty package name counts as none.
unfoldable pub intern_package : Option String → StringTable → Result DumpError (ℕ × StringTable)
intern_package none t = ok (none_u32, t)
intern_package (some p) t = if str_eq p "" then ok (none_u32, t) else intern p t

-- The bytes of the strings and the offset after each.
unfoldable pub push_strings :
    (String → List ℕ) → List String → List ℕ → List ℕ → Result DumpError (List ℕ × List ℕ)
push_strings as_bytes [] bytes offsets = ok (bytes, offsets)
push_strings as_bytes (s ∷ ss) bytes offsets =
    let bytes' = bytes ++ as_bytes s in
    and_then (as_u32 too_many_bytes (length bytes'))
      λ end. push_strings as_bytes ss bytes' (offsets ++ end ∷ [])

-- What a record holds, as the inspector's view of it names it.
pub record CounterDumpRecordView : Type 0 where
  pub module_name_string_id : ℕ
  pub package_name_string_id : ℕ
  pub string_offsets : List ℕ
  pub string_bytes : List ℕ
  pub counter_id : List ℕ
  pub scope : List ℕ
  pub kind : List ℕ
  pub site_kind : List ℕ
  pub function_id : List ℕ
  pub current_function_id : List ℕ
  pub instr_block_label : List ℕ
  pub instr_index_in_block : List ℕ
  pub function_qualname : List ℕ
  pub block_label : List ℕ
  pub value : List ℕ

unfoldable pub columns : ℕ → ℕ → List ℕ → List ℕ → List EncodedRow → CounterDumpRecordView
columns module_id package_id offsets bytes rows = record {
  module_name_string_id = module_id;
  package_name_string_id = package_id;
  string_offsets = offsets;
  string_bytes = bytes;
  counter_id = map (λ r. r.counter_id) rows;
  scope = map (λ r. r.scope) rows;
  kind = map (λ r. r.kind) rows;
  site_kind = map (λ r. r.site_kind) rows;
  function_id = map (λ r. r.function_id) rows;
  current_function_id = map (λ r. r.current_function_id) rows;
  instr_block_label = map (λ r. r.instr_block_label) rows;
  instr_index_in_block = map (λ r. r.instr_index_in_block) rows;
  function_qualname = map (λ r. r.function_qualname) rows;
  block_label = map (λ r. r.block_label) rows;
  value = map (λ r. r.value) rows;
}

-- What `CounterDumpRecord::encode` gathers before it lays out the bytes.
unfoldable pub gather :
    (String → List ℕ) → CounterDumpRecord → Result DumpError CounterDumpRecordView
gather as_bytes r = and_then (as_u32 too_many_rows (length r.rows)) λ count.
    and_then (intern r.module_name default_table) λ (module_id, t1).
      and_then (intern_package r.package_name t1) λ (package_id, t2).
        and_then (encode_rows r.rows t2) λ (rows, t3).
          and_then (as_u32 too_many_strings (length t3.strings)) λ strings.
            and_then (push_strings as_bytes t3.strings [] (0 ∷ []))
              λ (bytes, offsets). ok (columns module_id package_id offsets bytes rows)

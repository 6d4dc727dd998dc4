-- ===== src/CounterDump/Record.antt =====
-- A dumped record as bytes: the end of `encode` (soac-eval/src/counter_dump.rs), and one round of
-- `parse_counter_dump_records` (soac-inspector/src/counter_dump.rs).
use diet_python.Prelude.{
  ℕ, ◌+◌, ◌-◌, ◌==◌, ltb, ◌^◌, ◌&&◌, String, Bool, true, false, Option, none, some, List, [], ◌∷◌,
  ◌++◌, length, if◌then◌else◌, ok, err, Result, and_then, ◌>>=◌,
}
use diet_python.CounterDump.{
  DumpError, offset_too_large, out_of_bounds, CounterDumpRecord, CounterDumpRecordView, gather,
}
use diet_python.CounterDump.Layout.{Layout, layout, header_size, sections_accepted}
use diet_python.CounterDump.Bytes.{bytes_of_slice, zeros, write_all, words_at}
use diet_python.CounterDump.Read.{slice}

-- `COUNTER_DUMP_MAGIC`: SOACCNTR
abbrev pub magic : List ℕ
magic = 83 ∷ 79 ∷ 65 ∷ 67 ∷ 67 ∷ 78 ∷ 84 ∷ 82 ∷ []

-- `COUNTER_DUMP_VERSION`
abbrev pub version : ℕ
version = 4

-- The u32 fields; those for the record's length and for the offsets are in the layout.
pub record CounterDumpRecordHeader : Type 0 where
  pub row_count : ℕ
  pub string_count : ℕ
  pub string_bytes_len : ℕ
  pub module_name_string_id : ℕ
  pub package_name_string_id : ℕ
  pub offsets : Layout

-- The u32 fields in their order.
unfoldable pub header_words : CounterDumpRecordHeader → List ℕ
header_words h =
    h.offsets.record_len ∷ h.row_count ∷ h.string_count ∷ h.string_bytes_len
    ∷ h.module_name_string_id ∷ h.package_name_string_id ∷ h.offsets.string_offsets
    ∷ h.offsets.string_bytes ∷ h.offsets.counter_id ∷ h.offsets.scope ∷ h.offsets.kind
    ∷ h.offsets.site_kind ∷ h.offsets.function_id ∷ h.offsets.current_function_id
    ∷ h.offsets.instr_block_label ∷ h.offsets.instr_index_in_block ∷ h.offsets.function_qualname
    ∷ h.offsets.block_label ∷ h.offsets.value ∷ []

-- `bytes_of(&header)`
unfoldable pub header_bytes : CounterDumpRecordHeader → List ℕ
header_bytes h =
    magic ++ (bytes_of_slice 2 (version ∷ header_size ∷ []) ++ bytes_of_slice 4 (header_words h))

-- There is an offset before the first string and one after each.
unfoldable pub header_for : CounterDumpRecordView → CounterDumpRecordHeader
header_for v = record {
  row_count = length v.counter_id;
  string_count = length v.string_offsets - 1;
  string_bytes_len = length v.string_bytes;
  module_name_string_id = v.module_name_string_id;
  package_name_string_id = v.package_name_string_id;
  offsets = layout (length v.string_offsets - 1) (length v.string_bytes) (length v.counter_id);
}

unfoldable pub sections : CounterDumpRecordView → Layout → List (ℕ × List ℕ)
sections v l =
    (l.string_offsets, bytes_of_slice 4 v.string_offsets)
    ∷ (l.string_bytes, v.string_bytes)
    ∷ (l.counter_id, bytes_of_slice 4 v.counter_id)
    ∷ (l.scope, bytes_of_slice 4 v.scope)
    ∷ (l.kind, bytes_of_slice 4 v.kind)
    ∷ (l.site_kind, bytes_of_slice 4 v.site_kind)
    ∷ (l.function_id, bytes_of_slice 8 v.function_id)
    ∷ (l.current_function_id, bytes_of_slice 8 v.current_function_id)
    ∷ (l.instr_block_label, bytes_of_slice 4 v.instr_block_label)
    ∷ (l.instr_index_in_block, bytes_of_slice 4 v.instr_index_in_block)
    ∷ (l.function_qualname, bytes_of_slice 4 v.function_qualname)
    ∷ (l.block_label, bytes_of_slice 4 v.block_label)
    ∷ (l.value, bytes_of_slice 8 v.value)
    ∷ []

unfoldable pub all_u32 : List ℕ → Bool
all_u32 [] = true
all_u32 (n ∷ ns) = ltb n (2 ^ 32) && all_u32 ns

-- A field of the header that is no u32 is an error.
unfoldable pub write_record : CounterDumpRecordView → Result DumpError (List ℕ)
write_record v =
    let h = header_for v in
    if all_u32 (header_words h)
    then elim (write_all ((0, header_bytes h) ∷ sections v h.offsets)
        (zeros h.offsets.record_len)) [ none ↦ err out_of_bounds | some bytes ↦ ok bytes ]
    else err offset_too_large

-- `CounterDumpRecord::encode`
unfoldable pub encode : (String → List ℕ) → CounterDumpRecord → Result DumpError (List ℕ)
encode as_bytes r = and_then (gather as_bytes r) write_record

unfoldable pub bytes_eq : List ℕ → List ℕ → Bool
bytes_eq [] [] = true
bytes_eq (b ∷ bs) (c ∷ cs) = (b == c) && bytes_eq bs cs
bytes_eq _ _ = false

-- An error where a test fails.
unfoldable pub require {ℓ} : {A : Type ℓ} → Bool → Option A → Option A
require true o = o
require false o = none

unfoldable pub header_of : List ℕ → Option CounterDumpRecordHeader
header_of
      (len ∷ rows ∷ strings ∷ bytes ∷ m ∷ p ∷ so ∷ sb ∷ c ∷ sc ∷ k ∷ sk ∷ f ∷ cf ∷ il ∷ ii ∷ q ∷ bl
        ∷ v ∷ []) =
    some (record {
      row_count = rows;
      string_count = strings;
      string_bytes_len = bytes;
      module_name_string_id = m;
      package_name_string_id = p;
      offsets = record {
        string_offsets = so;
        string_bytes = sb;
        counter_id = c;
        scope = sc;
        kind = k;
        site_kind = sk;
        function_id = f;
        current_function_id = cf;
        instr_block_label = il;
        instr_index_in_block = ii;
        function_qualname = q;
        block_label = bl;
        value = v;
        record_len = len;
      };
    })
header_of _ = none

-- The cast of the header, and the tests of its first three fields.
unfoldable pub read_header : List ℕ → Option CounterDumpRecordHeader
read_header bytes = do
  found ← slice 0 8 bytes
  versions ← words_at 2 2 8 bytes
  words ← words_at 4 19 12 bytes
  require (bytes_eq found magic)
      (require (bytes_eq versions (version ∷ header_size ∷ [])) (header_of words))

-- `last().copied().unwrap_or(0)`, and `first` likewise.
unfoldable pub last_or_zero : List ℕ → ℕ
last_or_zero [] = 0
last_or_zero (n ∷ []) = n
last_or_zero (n ∷ m ∷ ns) = last_or_zero (m ∷ ns)

unfoldable pub first_or_zero : List ℕ → ℕ
first_or_zero [] = 0
first_or_zero (n ∷ ns) = n

unfoldable pub read_sections :
    CounterDumpRecordHeader → Layout → ℕ → List ℕ → Option CounterDumpRecordView
read_sections h l rows bytes = do
  string_offsets ← words_at 4 (h.string_count + 1) l.string_offsets bytes
  string_bytes ← slice l.string_bytes (l.string_bytes + h.string_bytes_len) bytes
  counter_id ← words_at 4 rows l.counter_id bytes
  scope ← words_at 4 rows l.scope bytes
  kind ← words_at 4 rows l.kind bytes
  site_kind ← words_at 4 rows l.site_kind bytes
  function_id ← words_at 8 rows l.function_id bytes
  current_function_id ← words_at 8 rows l.current_function_id bytes
  instr_block_label ← words_at 4 rows l.instr_block_label bytes
  instr_index_in_block ← words_at 4 rows l.instr_index_in_block bytes
  function_qualname ← words_at 4 rows l.function_qualname bytes
  block_label ← words_at 4 rows l.block_label bytes
  value ← words_at 8 rows l.value bytes
  require (first_or_zero string_offsets == 0) (
      require (last_or_zero string_offsets == length string_bytes) (
        some (record {
          module_name_string_id = h.module_name_string_id;
          package_name_string_id = h.package_name_string_id;
          string_offsets = string_offsets;
          string_bytes = string_bytes;
          counter_id = counter_id;
          scope = scope;
          kind = kind;
          site_kind = site_kind;
          function_id = function_id;
          current_function_id = current_function_id;
          instr_block_label = instr_block_label;
          instr_index_in_block = instr_index_in_block;
          function_qualname = function_qualname;
          block_label = block_label;
          value = value;
        })))

-- One round of the loop of `parse_counter_dump_records`, on the bytes that are left: the record. An
-- error is `none`. The offsets are tested before any section is read.
unfoldable pub parse_record : List ℕ → Option CounterDumpRecordView
parse_record remaining = do
  h ← read_header remaining
  bytes ← slice 0 h.offsets.record_len remaining
  require (sections_accepted h.offsets h.string_count h.string_bytes_len h.row_count)
      (read_sections h h.offsets h.row_count bytes)

-- ===== src/CounterDump/Layout.antt =====
-- Where the sections of a dumped record stand: the offsets of `encode` (soac-eval/src/counter_dump.rs)
-- and the checks of `parse_counter_dump_records` (soac-inspector/src/counter_dump.rs). Offsets are
-- from a record's start, which is aligned to 8 bytes.
pub mod Accepted
use diet_python.Prelude.{
  ℕ, suc, ◌+◌, ◌-◌, ◌*◌, ◌%◌, ◌≤◌, leb, ◌==◌, ◌&&◌, not, Bool, true, List, [], ◌∷◌, if◌then◌else◌,
}

unfoldable pub align_up : ℕ → ℕ → ℕ
align_up offset align = if offset % align == 0 then offset else offset + (align - offset % align)

-- `size_of::<CounterDumpRecordHeader>()`: 8 bytes, two u16 and nineteen u32.
abbrev pub header_size : ℕ
header_size = 88

pub record Layout : Type 0 where
  pub string_offsets : ℕ
  pub string_bytes : ℕ
  pub counter_id : ℕ
  pub scope : ℕ
  pub kind : ℕ
  pub site_kind : ℕ
  pub function_id : ℕ
  pub current_function_id : ℕ
  pub instr_block_label : ℕ
  pub instr_index_in_block : ℕ
  pub function_qualname : ℕ
  pub block_label : ℕ
  pub value : ℕ
  pub record_len : ℕ

-- The offsets for a number of strings, of their bytes and of rows.
unfoldable pub layout : ℕ → ℕ → ℕ → Layout
layout strings bytes rows =
    let string_offsets = align_up header_size 4 in
    let string_bytes = string_offsets + (strings + 1) * 4 in
    let counter_id = align_up (string_bytes + bytes) 4 in
    let scope = counter_id + rows * 4 in
    let kind = scope + rows * 4 in
    let site_kind = kind + rows * 4 in
    let function_id = align_up (site_kind + rows * 4) 8 in
    let current_function_id = function_id + rows * 8 in
    let instr_block_label = current_function_id + rows * 8 in
    let instr_index_in_block = instr_block_label + rows * 4 in
    let function_qualname = instr_index_in_block + rows * 4 in
    let block_label = function_qualname + rows * 4 in
    let value = align_up (block_label + rows * 4) 8 in
    record {
      string_offsets = string_offsets;
      string_bytes = string_bytes;
      counter_id = counter_id;
      scope = scope;
      kind = kind;
      site_kind = site_kind;
      function_id = function_id;
      current_function_id = current_function_id;
      instr_block_label = instr_block_label;
      instr_index_in_block = instr_index_in_block;
      function_qualname = function_qualname;
      block_label = block_label;
      value = value;
      record_len = align_up (value + rows * 8) 8;
    }

unfoldable pub is_nondecreasing : List ℕ → Bool
is_nondecreasing [] = true
is_nondecreasing (x ∷ []) = true
is_nondecreasing (x ∷ y ∷ ys) = leb x y && is_nondecreasing (y ∷ ys)

-- The tests of `cast_slice`: of a number of values of a size, at an offset of a record.
unfoldable pub cast_slice : ℕ → ℕ → ℕ → ℕ → Bool
cast_slice record_len offset len size = leb (offset + len * size) record_len && (offset % size == 0)

-- The tests on the sections of a record.
unfoldable pub sections_accepted : Layout → ℕ → ℕ → ℕ → Bool
sections_accepted l strings bytes rows =
    not (l.record_len == 0)
    && (l.record_len % 8 == 0)
    && is_nondecreasing (
        header_size ∷ l.string_offsets ∷ l.string_bytes ∷ l.counter_id ∷ l.scope ∷ l.kind
        ∷ l.site_kind ∷ l.function_id ∷ l.current_function_id ∷ l.instr_block_label
        ∷ l.instr_index_in_block ∷ l.function_qualname ∷ l.block_label ∷ l.value ∷ l.record_len
        ∷ [])
    && cast_slice l.record_len l.string_offsets (strings + 1) 4
    && leb (l.string_bytes + bytes) l.record_len
    && cast_slice l.record_len l.counter_id rows 4
    && cast_slice l.record_len l.scope rows 4
    && cast_slice l.record_len l.kind rows 4
    && cast_slice l.record_len l.site_kind rows 4
    && cast_slice l.record_len l.function_id rows 8
    && cast_slice l.record_len l.current_function_id rows 8
    && cast_slice l.record_len l.instr_block_label rows 4
    && cast_slice l.record_len l.instr_index_in_block rows 4
    && cast_slice l.record_len l.function_qualname rows 4
    && cast_slice l.record_len l.block_label rows 4
    && cast_slice l.record_len l.value rows 8

-- ===== src/CounterDump/Layout/Accepted.antt =====
-- The inspector accepts the sections that the evaluator lays out (soac-eval/src/counter_dump.rs,
-- soac-inspector/src/counter_dump.rs).
use diet_python.Prelude.{false, ℕ, ◌+◌, ◌*◌, ◌%◌, ◌≤◌, ◌≡◌, refl, leb, ◌==◌, true, ◌∷◌, arith}
use diet_python.CounterDump.Layout.{
  [], sections_accepted, layout, Layout, header_size, align_up, is_nondecreasing, cast_slice,
}

-- The next multiple of the alignment.
align_up_4 : (o : ℕ) → (o ≤ align_up o 4) × (align_up o 4 % 4 ≡ 0)
unfolding align_up
align_up_4 o = ground arith

align_up_8 : (o : ℕ) → (o ≤ align_up o 8) × (align_up o 8 % 8 ≡ 0)
unfolding align_up
align_up_8 o = ground arith

header_aligned : align_up header_size 4 ≡ 88
unfolding align_up
header_aligned = refl

leb-true : (a b : ℕ) → a ≤ b → leb a b ≡ true
leb-true a b h = ground arith

cast_slice-true :
    (n offset len size : ℕ)
    → offset + len * size ≤ n
    → offset % size ≡ 0
    → cast_slice n offset len size ≡ true
unfolding cast_slice
cast_slice-true n offset len size h a =
    let low : leb (offset + len * size) n ≡ true = ground arith in
    let aligned : (offset % size == 0) ≡ true = rw a refl in rw (low, aligned) refl

-- What the offsets of a record owe each other.
pub record IsLaidOut (l : Layout) (strings bytes rows : ℕ) : Type 0 where
  pub string_offsets : l.string_offsets ≡ 88
  pub string_bytes : l.string_bytes ≡ l.string_offsets + (strings + 1) * 4
  pub counter_id : l.string_bytes + bytes ≤ l.counter_id
  pub counter_id_aligned : l.counter_id % 4 ≡ 0
  pub scope : l.scope ≡ l.counter_id + rows * 4
  pub kind : l.kind ≡ l.scope + rows * 4
  pub site_kind : l.site_kind ≡ l.kind + rows * 4
  pub function_id : l.site_kind + rows * 4 ≤ l.function_id
  pub function_id_aligned : l.function_id % 8 ≡ 0
  pub current_function_id : l.current_function_id ≡ l.function_id + rows * 8
  pub instr_block_label : l.instr_block_label ≡ l.current_function_id + rows * 8
  pub instr_index_in_block : l.instr_index_in_block ≡ l.instr_block_label + rows * 4
  pub function_qualname : l.function_qualname ≡ l.instr_index_in_block + rows * 4
  pub block_label : l.block_label ≡ l.function_qualname + rows * 4
  pub value : l.block_label + rows * 4 ≤ l.value
  pub value_aligned : l.value % 8 ≡ 0
  pub record_len : l.value + rows * 8 ≤ l.record_len
  pub record_len_aligned : l.record_len % 8 ≡ 0

layout-IsLaidOut :
    (strings bytes rows : ℕ) → IsLaidOut (layout strings bytes rows) strings bytes rows
unfolding layout
layout-IsLaidOut strings bytes rows =
    let l = layout strings bytes rows in
    let (c, ca) = align_up_4 (l.string_bytes + bytes) in
    let (f, fa) = align_up_8 (l.site_kind + rows * 4) in
    let (v, va) = align_up_8 (l.block_label + rows * 4) in
    let (r, ra) = align_up_8 (l.value + rows * 8) in
    record {
      string_offsets = start;
      string_bytes = refl;
      counter_id = c;
      counter_id_aligned = ca;
      scope = refl;
      kind = refl;
      site_kind = refl;
      function_id = f;
      function_id_aligned = fa;
      current_function_id = refl;
      instr_block_label = refl;
      instr_index_in_block = refl;
      function_qualname = refl;
      block_label = refl;
      value = v;
      value_aligned = va;
      record_len = r;
      record_len_aligned = ra;
    }
  where
    start : (layout strings bytes rows).string_offsets ≡ 88
    start = header_aligned

-- The inspector's tests on the sections pass.
module _ (l : Layout) (strings bytes rows : ℕ) (h : IsLaidOut l strings bytes rows) where
  nondecreasing :
      is_nondecreasing (
        header_size ∷ l.string_offsets ∷ l.string_bytes ∷ l.counter_id ∷ l.scope ∷ l.kind
        ∷ l.site_kind ∷ l.function_id ∷ l.current_function_id ∷ l.instr_block_label
        ∷ l.instr_index_in_block ∷ l.function_qualname ∷ l.block_label ∷ l.value ∷ l.record_len
        ∷ [])
      ≡ true
  unfolding is_nondecreasing
  nondecreasing =
      rw
        (
          leb-true header_size l.string_offsets (omega arith),
          leb-true l.string_offsets l.string_bytes (omega arith),
          leb-true l.string_bytes l.counter_id (omega arith),
          leb-true l.counter_id l.scope (omega arith),
          leb-true l.scope l.kind (omega arith),
          leb-true l.kind l.site_kind (omega arith),
          leb-true l.site_kind l.function_id (omega arith),
          leb-true l.function_id l.current_function_id (omega arith),
          leb-true l.current_function_id l.instr_block_label (omega arith),
          leb-true l.instr_block_label l.instr_index_in_block (omega arith),
          leb-true l.instr_index_in_block l.function_qualname (omega arith),
          leb-true l.function_qualname l.block_label (omega arith),
          leb-true l.block_label l.value (omega arith),
          leb-true l.value l.record_len (omega arith),
        )
        refl

  accepted : sections_accepted l strings bytes rows ≡ true
  unfolding sections_accepted
  accepted =
      let positive : (l.record_len == 0) ≡ false = ground arith in
      let aligned : (l.record_len % 8 == 0) ≡ true = rw h.record_len_aligned refl in
      let n = l.record_len in
      rw
        (
          positive,
          aligned,
          nondecreasing,
          cast_slice-true n l.string_offsets (strings + 1) 4 (omega arith) (omega arith),
          leb-true (l.string_bytes + bytes) n (omega arith),
          cast_slice-true n l.counter_id rows 4 (omega arith) (omega arith),
          cast_slice-true n l.scope rows 4 (omega arith) (omega arith),
          cast_slice-true n l.kind rows 4 (omega arith) (omega arith),
          cast_slice-true n l.site_kind rows 4 (omega arith) (omega arith),
          cast_slice-true n l.function_id rows 8 (omega arith) (omega arith),
          cast_slice-true n l.current_function_id rows 8 (omega arith) (omega arith),
          cast_slice-true n l.instr_block_label rows 4 (omega arith) (omega arith),
          cast_slice-true n l.instr_index_in_block rows 4 (omega arith) (omega arith),
          cast_slice-true n l.function_qualname rows 4 (omega arith) (omega arith),
          cast_slice-true n l.block_label rows 4 (omega arith) (omega arith),
          cast_slice-true n l.value rows 8 (omega arith) (omega arith),
        )
        refl

-- For any numbers of strings, bytes and rows, each section that the evaluator lays out ends before
-- the next one starts, and the inspector's tests pass: the sections are in order, inside of the
-- record and aligned, and the record's length is a multiple of 8 that is not 0.
pub sections_accepted-layout :
    (strings bytes rows : ℕ)
    → IsLaidOut (layout strings bytes rows) strings bytes rows
      × (sections_accepted (layout strings bytes rows) strings bytes rows ≡ true)
sections_accepted-layout strings bytes rows =
    let laid = layout-IsLaidOut strings bytes rows in
    (laid, accepted (layout strings bytes rows) strings bytes rows laid)

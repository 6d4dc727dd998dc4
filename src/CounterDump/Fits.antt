-- ===== src/CounterDump/Fits.antt =====
-- What is gathered for a record fits its columns (soac-eval/src/counter_dump.rs).
use diet_python.Prelude.{
  ℕ, ◌+◌, ◌<◌, ◌≡◌, ◌^◌, refl, ap, sym, ◌∙◌, String, Option, none, some, List, [], ◌∷◌, map, length,
  length-map, length-append, Memᴰ, Forall₂, All, arith,
}
use diet_python.Ir.Label.{FunctionId}
use diet_python.Instrument.Counters.{InstrId}
use diet_python.CounterDump.{CounterDumpRow, EncodedRow, columns, packed_id, label_of, index_of}
use diet_python.CounterDump.Rows.{Refers, RowRefers}
use diet_python.CounterDump.Strings.{HoldsStrings, all_bytes, ends}
use diet_python.CounterDump.RoundTrip.{IsReadable, HasFunctionId, HasInstrId, get_elem?-below}
use diet_python.CounterDump.Bytes.Words.{Fit, limit}
use diet_python.CounterDump.Record.{first_or_zero, last_or_zero}
use diet_python.CounterDump.Parsed.{IsDumpable}

-- The numbers of a row are in range.
record RowFits (e : EncodedRow) : Type 0 where
  counter_id : e.counter_id < 2 ^ 32
  scope : e.scope < 2 ^ 32
  kind : e.kind < 2 ^ 32
  site_kind : e.site_kind < 2 ^ 32
  function_id : e.function_id < 2 ^ 64
  current_function_id : e.current_function_id < 2 ^ 64
  instr_block_label : e.instr_block_label < 2 ^ 32
  instr_index_in_block : e.instr_index_in_block < 2 ^ 32
  function_qualname : e.function_qualname < 2 ^ 32
  block_label : e.block_label < 2 ^ 32
  value : e.value < 2 ^ 64

packed_id_below : (f : Option FunctionId) → HasFunctionId f → packed_id f < 2 ^ 64
unfolding packed_id
packed_id_below none h = omega arith
packed_id_below (some f) h = omega (arith, h)

label_of_below : (i : Option InstrId) → HasInstrId i → (label_of i < 2 ^ 32) × (index_of i < 2 ^ 32)
unfolding label_of index_of
label_of_below none h = (omega arith, omega arith)
label_of_below (some i) h = (omega (arith, h.0), omega (arith, h.1))

Refers-below :
    (ss : List String) (o : Option String) (id : ℕ)
    → length ss < 2 ^ 32
    → Refers ss o id
    → id < 2 ^ 32
Refers-below ss none id few h = omega (arith, h)
Refers-below ss (some s) id few h = omega (arith, few, get_elem?-below ss id h)

RowRefers-RowFits :
    (ss : List String) (r : CounterDumpRow) (e : EncodedRow)
    → length ss < 2 ^ 32
    → RowRefers ss r e
    → IsReadable r
    → RowFits e
RowRefers-RowFits ss r e few q readable =
    let (label, index) = label_of_below r.instr_id readable.instr_id in
    record {
      counter_id = omega (arith, q.counter_id, readable.counter_id);
      scope = omega (arith, few, get_elem?-below ss e.scope q.scope);
      kind = omega (arith, few, get_elem?-below ss e.kind q.kind);
      site_kind = omega (arith, few, get_elem?-below ss e.site_kind q.site_kind);
      function_id =
          omega (arith, q.function_id, packed_id_below r.function_id readable.function_id);
      current_function_id = omega (
        arith,
        q.current_function_id,
        packed_id_below r.current_function_id readable.current_function_id,
      );
      instr_block_label = omega (arith, q.instr_block_label, label);
      instr_index_in_block = omega (arith, q.instr_index_in_block, index);
      function_qualname =
          Refers-below ss r.function_qualname e.function_qualname few q.function_qualname;
      block_label = Refers-below ss r.block_label e.block_label few q.block_label;
      value = omega (arith, q.value, readable.value);
    }

rows-RowFits :
    (ss : List String) (rows : List CounterDumpRow) (es : List EncodedRow)
    → length ss < 2 ^ 32
    → Forall₂ (RowRefers ss) rows es
    → ((x : CounterDumpRow) → Memᴰ x rows → IsReadable x)
    → All RowFits es
rows-RowFits ss [] [] few Forall₂.nil readable = tt
rows-RowFits ss [] (e ∷ es) few x readable = elim x [ ]
rows-RowFits ss (r ∷ rows) [] few x readable = elim x [ ]
rows-RowFits ss (r ∷ rows) (e ∷ es) few (Forall₂.cons q rest) readable = (
  RowRefers-RowFits ss r e few q (readable r (Memᴰ.head refl)),
  rows-RowFits ss rows es few rest (λ x m. readable x (Memᴰ.tail m)),
)

map-Fit :
    (k : ℕ) (f : EncodedRow → ℕ) (es : List EncodedRow)
    → All RowFits es
    → ((e : EncodedRow) → RowFits e → f e < limit k)
    → Fit k (map f es)
map-Fit k f [] fits each = tt
map-Fit k f (e ∷ es) fits each = (each e fits.0, map-Fit k f es fits.1 each)

module _ (as_bytes : String → List ℕ) where
  ends-Fit :
      (ss : List String) (start : ℕ)
      → start + length (all_bytes as_bytes ss) < 2 ^ 32
      → Fit 4 (ends as_bytes start ss)
  unfolding all_bytes ends
  ends-Fit [] start h = tt
  ends-Fit (s ∷ ss) start h =
      let n = length-append (as_bytes s) (all_bytes as_bytes ss) in
      (omega (arith, h, n), ends-Fit ss (start + length (as_bytes s)) (omega (arith, h, n)))

  ends-last :
      (ss : List String) (start : ℕ)
      → last_or_zero (start ∷ ends as_bytes start ss) ≡ start + length (all_bytes as_bytes ss)
  unfolding all_bytes ends last_or_zero
  ends-last [] start = omega arith
  ends-last (s ∷ ss) start =
      let n = length-append (as_bytes s) (all_bytes as_bytes ss) in
      ends-last ss (start + length (as_bytes s)) ∙ omega (arith, n)

  pub columns-IsDumpable :
      (ss : List String) (m p : ℕ) (offsets bytes : List ℕ) (rows : List CounterDumpRow)
      (es : List EncodedRow)
      → HoldsStrings as_bytes ss (columns m p offsets bytes es)
      → length ss < 2 ^ 32
      → length bytes < 2 ^ 32
      → Forall₂ (RowRefers ss) rows es
      → ((x : CounterDumpRow) → Memᴰ x rows → IsReadable x)
      → IsDumpable (columns m p offsets bytes es)
  unfolding columns first_or_zero
  columns-IsDumpable ss m p offsets bytes rows es holds few total refers readable =
      let fits = rows-RowFits ss rows es few refers readable in
      let all : bytes ≡ all_bytes as_bytes ss = holds.bytes in
      let these : offsets ≡ 0 ∷ ends as_bytes 0 ss = holds.offsets in
      let small : 0 + length (all_bytes as_bytes ss) < 2 ^ 32 =
        omega (arith, total, ap length all) in
      let counted = length-map (λ (x : EncodedRow). x.counter_id) es in
      record {
        some_offset = rw these (omega arith);
        first = rw these refl;
        last = rw these (ends-last ss 0 ∙ omega (arith, ap length all));
        scope = length-map (λ (x : EncodedRow). x.scope) es ∙ sym counted;
        kind = length-map (λ (x : EncodedRow). x.kind) es ∙ sym counted;
        site_kind = length-map (λ (x : EncodedRow). x.site_kind) es ∙ sym counted;
        function_id = length-map (λ (x : EncodedRow). x.function_id) es ∙ sym counted;
        current_function_id =
            length-map (λ (x : EncodedRow). x.current_function_id) es ∙ sym counted;
        instr_block_label = length-map (λ (x : EncodedRow). x.instr_block_label) es ∙ sym counted;
        instr_index_in_block =
            length-map (λ (x : EncodedRow). x.instr_index_in_block) es ∙ sym counted;
        function_qualname = length-map (λ (x : EncodedRow). x.function_qualname) es ∙ sym counted;
        block_label = length-map (λ (x : EncodedRow). x.block_label) es ∙ sym counted;
        value = length-map (λ (x : EncodedRow). x.value) es ∙ sym counted;
        offsets_fit = rw these (omega arith, ends-Fit ss 0 small);
        counter_id_fits = map-Fit 4 (λ x. x.counter_id) es fits (λ e r. r.counter_id);
        scope_fits = map-Fit 4 (λ x. x.scope) es fits (λ e r. r.scope);
        kind_fits = map-Fit 4 (λ x. x.kind) es fits (λ e r. r.kind);
        site_kind_fits = map-Fit 4 (λ x. x.site_kind) es fits (λ e r. r.site_kind);
        function_id_fits = map-Fit 8 (λ x. x.function_id) es fits (λ e r. r.function_id);
        current_function_id_fits =
            map-Fit 8 (λ x. x.current_function_id) es fits (λ e r. r.current_function_id);
        instr_block_label_fits =
            map-Fit 4 (λ x. x.instr_block_label) es fits (λ e r. r.instr_block_label);
        instr_index_in_block_fits =
            map-Fit 4 (λ x. x.instr_index_in_block) es fits (λ e r. r.instr_index_in_block);
        function_qualname_fits =
            map-Fit 4 (λ x. x.function_qualname) es fits (λ e r. r.function_qualname);
        block_label_fits = map-Fit 4 (λ x. x.block_label) es fits (λ e r. r.block_label);
        value_fits = map-Fit 8 (λ x. x.value) es fits (λ e r. r.value);
      }

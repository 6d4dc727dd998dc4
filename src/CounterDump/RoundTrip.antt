-- ===== src/CounterDump/RoundTrip.antt =====
-- What the inspector reads of what the evaluator gathers for a record (soac-eval/src/counter_dump.rs,
-- soac-inspector/src/counter_dump.rs).
use diet_python.CounterDump.Intern.{
  intern-Interned, get_elem?-Grown, Grown-trans, default_table-IsTable,
}
use diet_python.CounterDump.Rows.{
  intern_package-Referred, encode_rows-RowsInterned, Refers-Grown, shown_package,
}
use diet_python.Prelude.{
  Forall₂-get_elem?_right, get_elem?-mem, Forall₂-get_elem?_right, ◌∙◌, sym, Forall₂, length-map,
  Memᴰ, ℕ, zero, suc, ◌<◌, ◌≡◌, refl, ap, ◌==◌, String, Option, none, some, List, [], ◌∷◌, map,
  get_elem?, length, arith, ok, false, ◌^◌,
}
use diet_python.Ir.Label.{FunctionId}
use diet_python.Instrument.Counters.{InstrId}
use diet_python.CounterDump.{
  StringTable, push_strings, too_many_strings, encode_rows, intern_package, Result, default_table,
  intern, too_many_rows, as_u32, columns, gather, CounterDumpRecord, EncodedRow, none_u32, none_u64,
  CounterDumpRow, packed_id, label_of, index_of, CounterDumpRecordView,
}
use diet_python.CounterDump.Read.{
  ok_or, package_name, row, module_name, resolve_string_id, resolve_optional_string_id,
  function_id_from, instr_id_from,
}
use diet_python.CounterDump.Strings.{
  push_strings-HoldsStrings, as_u32-ok, and_then-ok, HoldsStrings, resolve_string_id-HoldsStrings,
}
use diet_python.CounterDump.Rows.{RowRefers, shown_package, Refers}

get_elem?-mapped {ℓ κ} :
    {A : Type ℓ} {B : Type κ} (f : A → B) (xs : List A) (i : ℕ) {x : A}
    → get_elem? xs i ≡ some x
    → get_elem? (map f xs) i ≡ some (f x)
get_elem?-mapped f [] i h = absurd (cc)
get_elem?-mapped f (y ∷ xs) zero {x} h = let same : y ≡ x = cc h in ap (λ z. some (f z)) same
get_elem?-mapped f (y ∷ xs) (suc i) h = get_elem?-mapped f xs i h

pub get_elem?-below {ℓ} :
    {A : Type ℓ} (xs : List A) (i : ℕ) {x : A} → get_elem? xs i ≡ some x → i < length xs
get_elem?-below [] i h = absurd (cc)
get_elem?-below (y ∷ xs) zero h = omega arith
get_elem?-below (y ∷ xs) (suc i) h = omega (arith, get_elem?-below xs i h)

Forall₂-length {ℓ κ μ} :
    {A : Type ℓ} {B : Type κ} {R : A → B → Type μ} {xs : List A} {ys : List B}
    → Forall₂ R xs ys
    → length xs ≡ length ys
Forall₂-length Forall₂.nil = refl
Forall₂-length (Forall₂.cons r rest) = ap suc (Forall₂-length rest)

ok-value {ℓ κ} : {X : Type ℓ} {A : Type κ} (r : Result X A) {a b : A} → r ≡ ok a → r ≡ ok b → a ≡ b
ok-value r p q = let same = sym p ∙ q in cc same

-- An id that is not the one that stands for none.
abbrev pub HasFunctionId : Option FunctionId → Type 0
HasFunctionId none = Unit
HasFunctionId (some f) = f.packed < none_u64

abbrev pub HasInstrId : Option InstrId → Type 0
HasInstrId none = Unit
HasInstrId (some i) = (i.block_label < none_u32) × (i.instr_index_in_block < none_u32)

-- The numbers of the row are in range, and no id in it is the one that stands for none.
pub record IsReadable (r : CounterDumpRow) : Type 0 where
  pub counter_id : r.counter_id < 2 ^ 32
  pub value : r.value < 2 ^ 64
  pub function_id : HasFunctionId r.function_id
  pub current_function_id : HasFunctionId r.current_function_id
  pub instr_id : HasInstrId r.instr_id

function_id_from-packed_id :
    (f : Option FunctionId) → HasFunctionId f → function_id_from (packed_id f) ≡ f
unfolding function_id_from packed_id
function_id_from-packed_id none h = refl
function_id_from-packed_id (some f) h =
    let other : (f.packed == none_u64) ≡ false = ground arith in rw other refl

instr_id_from-label_of :
    (i : Option InstrId) → HasInstrId i → instr_id_from (label_of i) (index_of i) ≡ i
unfolding instr_id_from label_of index_of
instr_id_from-label_of none h = refl
instr_id_from-label_of (some i) h =
    let (low, high) = h in
    let label : (i.block_label == none_u32) ≡ false = ground arith in
    let index : (i.instr_index_in_block == none_u32) ≡ false = ground arith in
    rw (label, index) refl

module _ (as_bytes : String → List ℕ) (from_utf8 : List ℕ → Option String)
    (decodes : (s : String) → from_utf8 (as_bytes s) ≡ some s) where
  module _ (ss : List String) (view : CounterDumpRecordView) (holds : HoldsStrings as_bytes ss view)
      (few : length ss < 2 ^ 32) where
    resolve :
        (id : ℕ) {s : String}
        → get_elem? ss id ≡ some s
        → resolve_string_id from_utf8 view id ≡ ok s
    resolve = resolve_string_id-HoldsStrings as_bytes from_utf8 ss view decodes holds

    resolve_optional :
        (o : Option String) (id : ℕ)
        → Refers ss o id
        → resolve_optional_string_id from_utf8 view id ≡ ok o
    unfolding resolve_optional_string_id
    resolve_optional none id h = rw h refl
    resolve_optional (some s) id h =
        let low = get_elem?-below ss id h in
        let other : (id == none_u32) ≡ false = ground arith in rw (other, resolve id h) refl

  module _ (ss : List String) (m p : ℕ) (offsets bytes : List ℕ) (es : List EncodedRow)
      (holds : HoldsStrings as_bytes ss (columns m p offsets bytes es))
      (few : length ss < 2 ^ 32) where
    abbrev view : CounterDumpRecordView
    view = columns m p offsets bytes es

    row-RowRefers :
        (i : ℕ) (r : CounterDumpRow) (e : EncodedRow)
        → get_elem? es i ≡ some e
        → RowRefers ss r e
        → IsReadable r
        → row from_utf8 view i ≡ ok r
    unfolding row columns ok_or
    row-RowRefers i r e at q readable =
        let optional = resolve_optional ss view holds few in
        rw
          (
            get_elem?-mapped (λ (x : EncodedRow). x.counter_id) es i at,
            get_elem?-mapped (λ (x : EncodedRow). x.scope) es i at,
            get_elem?-mapped (λ (x : EncodedRow). x.kind) es i at,
            get_elem?-mapped (λ (x : EncodedRow). x.site_kind) es i at,
            get_elem?-mapped (λ (x : EncodedRow). x.function_id) es i at,
            get_elem?-mapped (λ (x : EncodedRow). x.current_function_id) es i at,
            get_elem?-mapped (λ (x : EncodedRow). x.instr_block_label) es i at,
            get_elem?-mapped (λ (x : EncodedRow). x.instr_index_in_block) es i at,
            get_elem?-mapped (λ (x : EncodedRow). x.function_qualname) es i at,
            get_elem?-mapped (λ (x : EncodedRow). x.block_label) es i at,
            get_elem?-mapped (λ (x : EncodedRow). x.value) es i at,
            resolve ss view holds few e.scope q.scope,
            resolve ss view holds few e.kind q.kind,
            resolve ss view holds few e.site_kind q.site_kind,
            optional r.function_qualname e.function_qualname q.function_qualname,
            optional r.block_label e.block_label q.block_label,
            q.counter_id,
            q.function_id,
            q.current_function_id,
            q.instr_block_label,
            q.instr_index_in_block,
            q.value,
            function_id_from-packed_id r.function_id readable.function_id,
            function_id_from-packed_id r.current_function_id readable.current_function_id,
            instr_id_from-label_of r.instr_id readable.instr_id,
          )
          refl

  -- What the inspector reads of a dump.
  pub record Reads (r : CounterDumpRecord) (v : CounterDumpRecordView) : Type 0 where
    pub named : module_name from_utf8 v ≡ ok r.module_name
    pub packaged : package_name from_utf8 v ≡ ok (shown_package r.package_name)
    pub counted : length v.counter_id ≡ length r.rows
    pub read : (i : ℕ) (x : CounterDumpRow) → get_elem? r.rows i ≡ some x → row from_utf8 v i ≡ ok x

  pub assembled :
      (r : CounterDumpRecord) (m p : ℕ) (t1 t2 t3 : StringTable) (es : List EncodedRow)
      (bytes offsets : List ℕ)
      → ((x : CounterDumpRow) → Memᴰ x r.rows → IsReadable x)
      → intern r.module_name default_table ≡ ok (m, t1)
      → intern_package r.package_name t1 ≡ ok (p, t2)
      → encode_rows r.rows t2 ≡ ok (es, t3)
      → length t3.strings < 2 ^ 32
      → push_strings as_bytes t3.strings [] (0 ∷ []) ≡ ok (bytes, offsets)
      → Reads r (columns m p offsets bytes es)
  unfolding module_name package_name columns
  assembled r m p t1 t2 t3 es bytes offsets readable p1 p2 p3 few p5 =
      let i1 = intern-Interned r.module_name default_table default_table-IsTable p1 in
      let i2 = intern_package-Referred r.package_name t1 i1.table p2 in
      let i3 = encode_rows-RowsInterned r.rows t2 i2.table p3 in
      let made : CounterDumpRecordView = columns m p offsets bytes es in
      let holds = push_strings-HoldsStrings as_bytes t3.strings made p5 in
      record {
        named =
            resolve t3.strings made holds few m
              (get_elem?-Grown (Grown-trans i2.grown i3.grown) m i1.at);
        packaged =
            resolve_optional t3.strings made holds few (shown_package r.package_name) p
              (Refers-Grown i3.grown (shown_package r.package_name) p i2.refers);
        counted = length-map (λ (x : EncodedRow). x.counter_id) es ∙ sym (Forall₂-length i3.refers);
        read = λ i x at.
            let (e, there, q) = Forall₂-get_elem?_right i3.refers i at in
            row-RowRefers t3.strings m p offsets bytes es holds few i x e there q
              (readable x (get_elem?-mem r.rows i at));
      }

  -- How what is gathered for a record comes about.
  pub record Gathered (r : CounterDumpRecord) (v : CounterDumpRecordView) : Type 0 where
    pub module_id : ℕ
    pub package_id : ℕ
    pub named : StringTable
    pub packaged : StringTable
    pub table : StringTable
    pub rows : List EncodedRow
    pub bytes : List ℕ
    pub offsets : List ℕ
    pub same : columns module_id package_id offsets bytes rows ≡ v
    pub module_ran : intern r.module_name default_table ≡ ok (module_id, named)
    pub package_ran : intern_package r.package_name named ≡ ok (package_id, packaged)
    pub rows_ran : encode_rows r.rows packaged ≡ ok (rows, table)
    pub few : length table.strings < 2 ^ 32
    pub strings_ran : push_strings as_bytes table.strings [] (0 ∷ []) ≡ ok (bytes, offsets)

  pub gather-Gathered :
      (r : CounterDumpRecord) (v : CounterDumpRecordView) → gather as_bytes r ≡ ok v → Gathered r v
  unfolding gather
  gather-Gathered r v h =
      let (count, p0, h0) = and_then-ok (as_u32 too_many_rows (length r.rows)) _ h in
      let ((m, t1), p1, h1) = and_then-ok (intern r.module_name default_table) _ h0 in
      let ((p, t2), p2, h2) = and_then-ok (intern_package r.package_name t1) _ h1 in
      let ((es, t3), p3, h3) = and_then-ok (encode_rows r.rows t2) _ h2 in
      let (strings, p4, h4) = and_then-ok (as_u32 too_many_strings (length t3.strings)) _ h3 in
      let (_, few) = as_u32-ok too_many_strings (length t3.strings) p4 in
      let ((bytes, offsets), p5, h5) =
        and_then-ok (push_strings as_bytes t3.strings [] (0 ∷ [])) _ h4 in
      record {
        module_id = m;
        package_id = p;
        named = t1;
        packaged = t2;
        table = t3;
        rows = es;
        bytes = bytes;
        offsets = offsets;
        same = ok-value (ok (columns m p offsets bytes es)) refl h5;
        module_ran = p1;
        package_ran = p2;
        rows_ran = p3;
        few = few;
        strings_ran = p5;
      }

-- ===== src/CounterDump/Rows.antt =====
-- The numbers of a row stand for the row (soac-eval/src/counter_dump.rs).
use diet_python.Prelude.{
  ℕ, ◌≡◌, refl, sym, String, str_eq, Option, none, some, List, [], ◌∷◌, get_elem?, Bool-cases, inl,
  inr, ok, subst, Forall₂, if◌then◌else◌,
}
use diet_python.CounterDump.{
  Result, none_u32, DumpError, StringTable, intern, intern_optional, intern_package, CounterDumpRow,
  EncodedRow, packed_id, label_of, index_of, encode_row, encode_rows,
}
use diet_python.CounterDump.Strings.{and_then-ok, ok-pair}
use diet_python.CounterDump.Intern.{
  IsTable, Grown, Grown-refl, Grown-trans, get_elem?-Grown, intern-Interned,
}

-- The number refers to the string, or stands for none.
abbrev pub Refers : List String → Option String → ℕ → Type 0
Refers ss none id = id ≡ none_u32
Refers ss (some s) id = get_elem? ss id ≡ some s

pub Refers-Grown :
    {ss ss' : List String}
    → Grown ss ss'
    → (o : Option String) (id : ℕ) → Refers ss o id
    → Refers ss' o id
Refers-Grown g none id h = h
Refers-Grown g (some s) id h = get_elem?-Grown g id h

-- What interning a string that may be missing gives.
pub record Referred (o : Option String) (t : StringTable) (id : ℕ) (t' : StringTable) : Type 0 where
  pub table : IsTable t'
  pub grown : Grown t.strings t'.strings
  pub refers : Refers t'.strings o id

abbrev unchanged : StringTable → Result DumpError (ℕ × StringTable)
unchanged t = ok (none_u32, t)

unchanged-Referred :
    (t : StringTable) {id : ℕ} {t' : StringTable}
    → IsTable t
    → unchanged t ≡ ok (id, t')
    → Referred none t id t'
unchanged-Referred t {id} {t'} table h =
    let same : t ≡ t' = cc h in
    let number : none_u32 ≡ id = cc h in
    subst (λ u. Referred none t id u) same
      (record { table = table; grown = Grown-refl t.strings; refers = sym number })

some-Referred :
    (v : String) (t : StringTable) {id : ℕ} {t' : StringTable}
    → IsTable t
    → intern v t ≡ ok (id, t')
    → Referred (some v) t id t'
some-Referred v t table h =
    let i = intern-Interned v t table h in
    record { table = i.table; grown = i.grown; refers = i.at }

pub intern_optional-Referred :
    (o : Option String) (t : StringTable) {id : ℕ} {t' : StringTable}
    → IsTable t
    → intern_optional o t ≡ ok (id, t')
    → Referred o t id t'
unfolding intern_optional
intern_optional-Referred none t table h = unchanged-Referred t table h
intern_optional-Referred (some v) t table h = some-Referred v t table h

-- An empty package name is left out.
unfoldable pub shown_package : Option String → Option String
shown_package none = none
shown_package (some p) = if str_eq p "" then none else some p

pub intern_package-Referred :
    (o : Option String) (t : StringTable) {id : ℕ} {t' : StringTable}
    → IsTable t
    → intern_package o t ≡ ok (id, t')
    → Referred (shown_package o) t id t'
unfolding intern_package shown_package
intern_package-Referred none t table h = unchanged-Referred t table h
intern_package-Referred (some p) t table h = elim (Bool-cases (str_eq p "")) [
  | inl e ↦ rw e (unchanged-Referred t table (rw e at h))
  | inr e ↦ rw e (some-Referred p t table (rw e at h))
]

pub record RowRefers (ss : List String) (row : CounterDumpRow) (e : EncodedRow) : Type 0 where
  pub counter_id : e.counter_id ≡ row.counter_id
  pub scope : get_elem? ss e.scope ≡ some row.scope
  pub kind : get_elem? ss e.kind ≡ some row.kind
  pub site_kind : get_elem? ss e.site_kind ≡ some row.site_kind
  pub function_id : e.function_id ≡ packed_id row.function_id
  pub current_function_id : e.current_function_id ≡ packed_id row.current_function_id
  pub instr_block_label : e.instr_block_label ≡ label_of row.instr_id
  pub instr_index_in_block : e.instr_index_in_block ≡ index_of row.instr_id
  pub function_qualname : Refers ss row.function_qualname e.function_qualname
  pub block_label : Refers ss row.block_label e.block_label
  pub value : e.value ≡ row.value

RowRefers-Grown :
    {ss ss' : List String}
    → Grown ss ss'
    → (row : CounterDumpRow) (e : EncodedRow) → RowRefers ss row e
    → RowRefers ss' row e
RowRefers-Grown g row e r = record {
  counter_id = r.counter_id;
  scope = get_elem?-Grown g e.scope r.scope;
  kind = get_elem?-Grown g e.kind r.kind;
  site_kind = get_elem?-Grown g e.site_kind r.site_kind;
  function_id = r.function_id;
  current_function_id = r.current_function_id;
  instr_block_label = r.instr_block_label;
  instr_index_in_block = r.instr_index_in_block;
  function_qualname = Refers-Grown g row.function_qualname e.function_qualname r.function_qualname;
  block_label = Refers-Grown g row.block_label e.block_label r.block_label;
  value = r.value;
}

record RowInterned (row : CounterDumpRow) (t : StringTable) (e : EncodedRow) (t' : StringTable)
    : Type 0 where
  pub table : IsTable t'
  pub grown : Grown t.strings t'.strings
  pub refers : RowRefers t'.strings row e

encode_row-RowInterned :
    (row : CounterDumpRow) (t : StringTable) {e : EncodedRow} {t' : StringTable}
    → IsTable t
    → encode_row row t ≡ ok (e, t')
    → RowInterned row t e t'
unfolding encode_row
encode_row-RowInterned row t {e} {t'} table h =
    let ((scope, t1), p1, h1) = and_then-ok (intern row.scope t) _ h in
    let i1 = intern-Interned row.scope t table p1 in
    let ((kind, t2), p2, h2) = and_then-ok (intern row.kind t1) _ h1 in
    let i2 = intern-Interned row.kind t1 i1.table p2 in
    let ((site_kind, t3), p3, h3) = and_then-ok (intern row.site_kind t2) _ h2 in
    let i3 = intern-Interned row.site_kind t2 i2.table p3 in
    let ((qualname, t4), p4, h4) = and_then-ok (intern_optional row.function_qualname t3) _ h3 in
    let i4 = intern_optional-Referred row.function_qualname t3 i3.table p4 in
    let ((label, t5), p5, h5) = and_then-ok (intern_optional row.block_label t4) _ h4 in
    let i5 = intern_optional-Referred row.block_label t4 i4.table p5 in
    let made : EncodedRow = record {
      counter_id = row.counter_id;
      scope = scope;
      kind = kind;
      site_kind = site_kind;
      function_id = packed_id row.function_id;
      current_function_id = packed_id row.current_function_id;
      instr_block_label = label_of row.instr_id;
      instr_index_in_block = index_of row.instr_id;
      function_qualname = qualname;
      block_label = label;
      value = row.value;
    } in
    let (same, after) = ok-pair (ok (made, t5)) refl h5 in
    let g4 = i5.grown in
    let g3 = Grown-trans i4.grown g4 in
    let g2 = Grown-trans i3.grown g3 in
    let g1 = Grown-trans i2.grown g2 in
    subst (λ u. RowInterned row t e u) after
      (subst (λ x. RowInterned row t x t5) same
        (record {
          table = i5.table;
          grown = Grown-trans i1.grown g1;
          refers = record {
            counter_id = refl;
            scope = get_elem?-Grown g1 scope i1.at;
            kind = get_elem?-Grown g2 kind i2.at;
            site_kind = get_elem?-Grown g3 site_kind i3.at;
            function_id = refl;
            current_function_id = refl;
            instr_block_label = refl;
            instr_index_in_block = refl;
            function_qualname = Refers-Grown g4 row.function_qualname qualname i4.refers;
            block_label = i5.refers;
            value = refl;
          };
        }))

pub record RowsInterned (rows : List CounterDumpRow) (t : StringTable) (es : List EncodedRow)
    (t' : StringTable) : Type 0 where
  pub table : IsTable t'
  pub grown : Grown t.strings t'.strings
  pub refers : Forall₂ (RowRefers t'.strings) rows es

pub encode_rows-RowsInterned :
    (rows : List CounterDumpRow) (t : StringTable) {es : List EncodedRow} {t' : StringTable}
    → IsTable t
    → encode_rows rows t ≡ ok (es, t')
    → RowsInterned rows t es t'
unfolding encode_rows
encode_rows-RowsInterned [] t {es} {t'} table h =
    let same : t ≡ t' = cc h in
    let none_left : [] ≡ es = cc h in
    subst (λ u. RowsInterned [] t es u) same
      (record {
        table = table;
        grown = Grown-refl t.strings;
        refers = subst (Forall₂ (RowRefers t.strings) []) none_left Forall₂.nil;
      })
encode_rows-RowsInterned (r ∷ rs) t {es} {t'} table h =
    let ((e, t1), p1, h1) = and_then-ok (encode_row r t) _ h in
    let i1 = encode_row-RowInterned r t table p1 in
    let ((rest, t2), p2, h2) = and_then-ok (encode_rows rs t1) _ h1 in
    let i2 = encode_rows-RowsInterned rs t1 i1.table p2 in
    let (all, same) = ok-pair (ok (e ∷ rest, t2)) refl h2 in
    subst (λ u. RowsInterned (r ∷ rs) t es u) same
      (record {
        table = i2.table;
        grown = Grown-trans i1.grown i2.grown;
        refers =
            subst (Forall₂ (RowRefers t2.strings) (r ∷ rs)) all
              (Forall₂.cons (RowRefers-Grown i2.grown r e i1.refers) i2.refers);
      })

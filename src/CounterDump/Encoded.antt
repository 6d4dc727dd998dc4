-- ===== src/CounterDump/Encoded.antt =====
-- What the evaluator dumps is what the inspector reads (soac-eval/src/counter_dump.rs,
-- soac-inspector/src/counter_dump.rs).
use diet_python.Prelude.{
  sym, ℕ, ◌<◌, ◌^◌, ◌≡◌, String, Option, some, List, length, ok, Memᴰ, subst, Bool-cases, inl, inr,
}
use diet_python.CounterDump.{
  CounterDumpRow, CounterDumpRecord, CounterDumpRecordView, gather, columns, default_table,
}
use diet_python.CounterDump.Strings.{and_then-ok, push_strings-HoldsStrings}
use diet_python.CounterDump.Intern.{intern-Interned, default_table-IsTable}
use diet_python.CounterDump.Rows.{intern_package-Referred, encode_rows-RowsInterned}
use diet_python.CounterDump.RoundTrip.{IsReadable, Reads, assembled, Gathered, gather-Gathered}
use diet_python.CounterDump.Record.{
  header_words, header_for, all_u32, write_record, encode, parse_record,
}
use diet_python.CounterDump.Parsed.{IsDumpable, all_u32-Fit, write_record-parsed}
use diet_python.CounterDump.Fits.{columns-IsDumpable}

-- A record that is written has not too many bytes of strings.
write_record-below :
    (v : CounterDumpRecordView) (out : List ℕ)
    → write_record v ≡ ok out
    → length v.string_bytes < 2 ^ 32
unfolding write_record header_for header_words
write_record-below v out w = elim (Bool-cases (all_u32 (header_words (header_for v)))) [
  | inl e ↦ (all_u32-Fit (header_words (header_for v)) e).1.1.1.0
  | inr e ↦ absurd (let bad = rw e at w in cc)
]

module _ (as_bytes : String → List ℕ) (from_utf8 : List ℕ → Option String)
    (decodes : (s : String) → from_utf8 (as_bytes s) ≡ some s) where
  Gathered-IsDumpable :
      (r : CounterDumpRecord) (v : CounterDumpRecordView)
      → ((x : CounterDumpRow) → Memᴰ x r.rows → IsReadable x)
      → (g : Gathered as_bytes from_utf8 decodes r v) → length v.string_bytes < 2 ^ 32
      → IsDumpable v
  unfolding columns
  Gathered-IsDumpable r v readable g total =
      let i1 = intern-Interned r.module_name default_table default_table-IsTable g.module_ran in
      let i2 = intern_package-Referred r.package_name g.named i1.table g.package_ran in
      let i3 = encode_rows-RowsInterned r.rows g.packaged i2.table g.rows_ran in
      let made = columns g.module_id g.package_id g.offsets g.bytes g.rows in
      subst IsDumpable g.same (
        columns-IsDumpable as_bytes g.table.strings g.module_id g.package_id g.offsets g.bytes
          r.rows g.rows (push_strings-HoldsStrings as_bytes g.table.strings made g.strings_ran)
          g.few (rw (sym g.same) at total) i3.refers readable)

  -- If the evaluator encodes a record as bytes, the numbers in which are in range, and no id in a row
  -- is the one that stands for none, then the inspector parses the bytes, and reads in them the
  -- module's name, the package's name unless that is empty, and each of the rows.
  pub encode-Reads :
      (r : CounterDumpRecord) (bytes : List ℕ)
      → ((x : CounterDumpRow) → Memᴰ x r.rows → IsReadable x)
      → encode as_bytes r ≡ ok bytes
      → (v : CounterDumpRecordView) × (parse_record bytes ≡ some v)
        × Reads as_bytes from_utf8 decodes r v
  unfolding encode
  encode-Reads r bytes readable h =
      let (v, gathered, written) = and_then-ok (gather as_bytes r) write_record h in
      let g = gather-Gathered as_bytes from_utf8 decodes r v gathered in
      let d = Gathered-IsDumpable r v readable g (write_record-below v bytes written) in
      (
        v,
        write_record-parsed v bytes d written,
        subst (Reads as_bytes from_utf8 decodes r) g.same (
            assembled as_bytes from_utf8 decodes r g.module_id g.package_id g.named g.packaged
              g.table g.rows g.bytes g.offsets readable g.module_ran g.package_ran g.rows_ran g.few
              g.strings_ran),
      )

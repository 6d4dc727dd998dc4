-- ===== src/Examples/Dumps.antt =====
-- A dump of two rows (soac-eval/src/counter_dump.rs). A text is encoded by its characters' codes.
use Prim.Native.Nat.{compare, Ordering}
use Prim.Native.Char.{Char, char, code}
use diet_python.Prelude.Memᴰ
use diet_python.CounterDump
use diet_python.CounterDump.{CounterDumpRow, CounterDumpRecord, CounterDumpRecordView}
use diet_python.CounterDump.Record
use diet_python.CounterDump.Bytes
use diet_python.CounterDump.Layout
use diet_python.CounterDump.Record.{encode, parse_record}
use diet_python.CounterDump.Encoded.{encode-Reads}
use diet_python.CounterDump.RoundTrip.{IsReadable, Reads}
use diet_python.CounterDump.Layout.{layout, sections_accepted}
use diet_python.CounterDump.Layout.Accepted.{IsLaidOut, sections_accepted-layout}
use diet_python.Prelude.{
  Memᴰ, inl, inr, arith, ok, true, str_eq, String, ℕ, ◌≡◌, refl, ap, Option, none, some, List, [],
  ◌∷◌, ◌>>=◌,
}
use mathlib.Core.Option

abbrev IsLess : Ordering → Type 0
IsLess Ordering.lt = Unit
IsLess Ordering.eq = ⊥
IsLess Ordering.gt = ⊥

abbrev Both : Ordering → Ordering → Type 0
Both Ordering.lt o = IsLess o
Both Ordering.eq _ = ⊥
Both Ordering.gt _ = ⊥

abbrev Scalar : Ordering → Ordering → Ordering → Type 0
Scalar Ordering.lt _ _ = Unit
Scalar Ordering.eq o p = Both o p
Scalar Ordering.gt o p = Both o p

both_of : (o p : Ordering) → Option (Both o p)
both_of Ordering.lt Ordering.lt = some tt
both_of _ _ = none

scalar_of : (o p q : Ordering) → Option (Scalar o p q)
scalar_of Ordering.lt p q = some tt
scalar_of Ordering.eq p q = both_of p q
scalar_of Ordering.gt p q = both_of p q

both_of-some : (o p : Ordering) (x : Both o p) → both_of o p ≡ some x
unfolding both_of
both_of-some Ordering.lt Ordering.lt x = refl
both_of-some Ordering.lt Ordering.eq x = absurd x
both_of-some Ordering.lt Ordering.gt x = absurd x
both_of-some Ordering.eq p x = absurd x
both_of-some Ordering.gt p x = absurd x

scalar_of-some : (o p q : Ordering) (x : Scalar o p q) → scalar_of o p q ≡ some x
unfolding scalar_of
scalar_of-some Ordering.lt p q x = refl
scalar_of-some Ordering.eq p q x = both_of-some p q x
scalar_of-some Ordering.gt p q x = both_of-some p q x

char_of : ℕ → Option Char
char_of n = Option.map (char n) (scalar_of (compare n 55296) (compare 57343 n) (compare n 1114112))

char_of-code : (c : Char) → char_of (code c) ≡ some c
unfolding char_of
char_of-code (char n p) =
    ap (Option.map (char n))
      (scalar_of-some (compare n 55296) (compare 57343 n) (compare n 1114112) p)

codes : String → List ℕ
codes String.[] = []
codes (String.◌∷◌ c s) = code c ∷ codes s

text_of : List ℕ → Option String
text_of [] = some String.[]
text_of (n ∷ ns) = do c ← char_of n; s ← text_of ns; some (String.◌∷◌ c s)

text_of-codes : (s : String) → text_of (codes s) ≡ some s
unfolding text_of codes
text_of-codes String.[] = refl
text_of-codes (String.◌∷◌ c s) = rw (char_of-code c, text_of-codes s) refl

abbrev hits : CounterDumpRow
hits = record {
  counter_id = 1;
  scope = "this";
  kind = "entry";
  site_kind = "entry";
  function_id = some (record { packed = 7 });
  current_function_id = none;
  instr_id = none;
  function_qualname = some "f";
  block_label = none;
  value = 5;
}

abbrev misses : CounterDumpRow
misses = record {
  counter_id = 2;
  scope = "this";
  kind = "misses";
  site_kind = "runtime";
  function_id = none;
  current_function_id = none;
  instr_id = some (record { block_label = 3; instr_index_in_block = 0 });
  function_qualname = none;
  block_label = some "f";
  value = 0;
}

abbrev dump : CounterDumpRecord
dump = record { module_name = "m"; package_name = some ""; rows = hits ∷ misses ∷ [] }

dump-IsReadable : (x : CounterDumpRow) → Memᴰ x dump.rows → IsReadable x
dump-IsReadable x m = elim (Memᴰ.cases_cons m) [
  | inl e ↦ rw e (record {
    counter_id = omega arith;
    value = omega arith;
    function_id = omega arith;
    current_function_id = tt;
    instr_id = tt;
  })
  | inr later ↦ elim (Memᴰ.cases_cons later) [
    | inl e ↦ rw e (record {
      counter_id = omega arith;
      value = omega arith;
      function_id = tt;
      current_function_id = tt;
      instr_id = (omega arith, omega arith);
    })
    | inr never ↦ absurd (Memᴰ.not-nil never)
  ]
]

abbrev dump_bytes : List ℕ
dump_bytes =
    83 ∷ 79 ∷ 65 ∷ 67 ∷ 67 ∷ 78 ∷ 84 ∷ 82 ∷ 4 ∷ 0 ∷ 88 ∷ 0 ∷ 0 ∷ 1 ∷ 0 ∷ 0 ∷ 2 ∷ 0 ∷ 0 ∷ 0 ∷ 6 ∷ 0
    ∷ 0 ∷ 0 ∷ 24 ∷ 0 ∷ 0 ∷ 0 ∷ 0 ∷ 0 ∷ 0 ∷ 0 ∷ 255 ∷ 255 ∷ 255 ∷ 255 ∷ 88 ∷ 0 ∷ 0 ∷ 0 ∷ 116 ∷ 0 ∷ 0
    ∷ 0 ∷ 140 ∷ 0 ∷ 0 ∷ 0 ∷ 148 ∷ 0 ∷ 0 ∷ 0 ∷ 156 ∷ 0 ∷ 0 ∷ 0 ∷ 164 ∷ 0 ∷ 0 ∷ 0 ∷ 176 ∷ 0 ∷ 0 ∷ 0
    ∷ 192 ∷ 0 ∷ 0 ∷ 0 ∷ 208 ∷ 0 ∷ 0 ∷ 0 ∷ 216 ∷ 0 ∷ 0 ∷ 0 ∷ 224 ∷ 0 ∷ 0 ∷ 0 ∷ 232 ∷ 0 ∷ 0 ∷ 0 ∷ 240
    ∷ 0 ∷ 0 ∷ 0 ∷ 0 ∷ 0 ∷ 0 ∷ 0 ∷ 1 ∷ 0 ∷ 0 ∷ 0 ∷ 5 ∷ 0 ∷ 0 ∷ 0 ∷ 10 ∷ 0 ∷ 0 ∷ 0 ∷ 11 ∷ 0 ∷ 0 ∷ 0
    ∷ 17 ∷ 0 ∷ 0 ∷ 0 ∷ 24 ∷ 0 ∷ 0 ∷ 0 ∷ 109 ∷ 116 ∷ 104 ∷ 105 ∷ 115 ∷ 101 ∷ 110 ∷ 116 ∷ 114 ∷ 121
    ∷ 102 ∷ 109 ∷ 105 ∷ 115 ∷ 115 ∷ 101 ∷ 115 ∷ 114 ∷ 117 ∷ 110 ∷ 116 ∷ 105 ∷ 109 ∷ 101 ∷ 1 ∷ 0 ∷ 0
    ∷ 0 ∷ 2 ∷ 0 ∷ 0 ∷ 0 ∷ 1 ∷ 0 ∷ 0 ∷ 0 ∷ 1 ∷ 0 ∷ 0 ∷ 0 ∷ 2 ∷ 0 ∷ 0 ∷ 0 ∷ 4 ∷ 0 ∷ 0 ∷ 0 ∷ 2 ∷ 0 ∷ 0
    ∷ 0 ∷ 5 ∷ 0 ∷ 0 ∷ 0 ∷ 0 ∷ 0 ∷ 0 ∷ 0 ∷ 7 ∷ 0 ∷ 0 ∷ 0 ∷ 0 ∷ 0 ∷ 0 ∷ 0 ∷ 255 ∷ 255 ∷ 255 ∷ 255
    ∷ 255 ∷ 255 ∷ 255 ∷ 255 ∷ 255 ∷ 255 ∷ 255 ∷ 255 ∷ 255 ∷ 255 ∷ 255 ∷ 255 ∷ 255 ∷ 255 ∷ 255 ∷ 255
    ∷ 255 ∷ 255 ∷ 255 ∷ 255 ∷ 255 ∷ 255 ∷ 255 ∷ 255 ∷ 3 ∷ 0 ∷ 0 ∷ 0 ∷ 255 ∷ 255 ∷ 255 ∷ 255 ∷ 0 ∷ 0
    ∷ 0 ∷ 0 ∷ 3 ∷ 0 ∷ 0 ∷ 0 ∷ 255 ∷ 255 ∷ 255 ∷ 255 ∷ 255 ∷ 255 ∷ 255 ∷ 255 ∷ 3 ∷ 0 ∷ 0 ∷ 0 ∷ 5 ∷ 0
    ∷ 0 ∷ 0 ∷ 0 ∷ 0 ∷ 0 ∷ 0 ∷ 0 ∷ 0 ∷ 0 ∷ 0 ∷ 0 ∷ 0 ∷ 0 ∷ 0 ∷ []

dump-encode : encode codes dump ≡ ok dump_bytes
unfolding encode CounterDump.gather CounterDump.columns CounterDump.push_strings CounterDump.intern
    CounterDump.id_of CounterDump.intern_package CounterDump.encode_rows CounterDump.encode_row
    CounterDump.intern_optional CounterDump.packed_id CounterDump.label_of CounterDump.index_of
    Record.write_record Record.header_for Record.header_words Record.header_bytes Record.sections
    Record.all_u32 Bytes.to_le Bytes.bytes_of_slice Bytes.zeros Bytes.write_all Bytes.write_bytes
    layout Layout.align_up codes str_eq
dump-encode = refl

encode-Reads_example :
    (v : CounterDumpRecordView) × (parse_record dump_bytes ≡ some v)
    × Reads codes text_of text_of-codes dump v
encode-Reads_example =
    encode-Reads codes text_of text_of-codes dump dump_bytes dump-IsReadable dump-encode

sections_accepted-layout_example :
    IsLaidOut (layout 6 24 2) 6 24 2 × (sections_accepted (layout 6 24 2) 6 24 2 ≡ true)
sections_accepted-layout_example = sections_accepted-layout 6 24 2

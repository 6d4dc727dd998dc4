-- ===== src/CounterDump/Parsed.antt =====
-- A record that was written is parsed (soac-eval/src/counter_dump.rs,
-- soac-inspector/src/counter_dump.rs).
use diet_python.Prelude.{
  ℕ, ◌+◌, ◌*◌, ◌-◌, ◌≡◌, refl, ap, sym, ◌∙◌, ◌==◌, ==_iff, ltb, ◌^◌, true, some, List, [], ◌∷◌,
  ◌++◌, length, append_assoc, length-append, append-nil, arith, Bool-cases, inl, inr, All, Memᴰ,
  subst, ok,
}
use diet_python.CounterDump.{CounterDumpRecordView}
use diet_python.CounterDump.Layout.{Layout, header_size, sections_accepted}
use diet_python.CounterDump.Layout.Accepted.{IsLaidOut, sections_accepted-layout}
use diet_python.CounterDump.Bytes.{bytes_of_slice}
use diet_python.CounterDump.Bytes.Words.{
  Fit, StandsAt, slice-StandsAt, words_at-StandsAt, length-bytes_of_slice,
}
use diet_python.CounterDump.Bytes.Written.{InOrder, write_all-Kept}
use diet_python.CounterDump.Record.{
  magic, version, CounterDumpRecordHeader, header_words, header_bytes, header_for, sections,
  all_u32, write_record, bytes_eq, require, header_of, read_header, last_or_zero, first_or_zero,
  read_sections, parse_record,
}

-- Columns of one length, of words that fit, and string offsets from 0 to the end of the bytes.
pub record IsDumpable (v : CounterDumpRecordView) : Type 0 where
  pub some_offset : length v.string_offsets ≡ length v.string_offsets - 1 + 1
  pub first : first_or_zero v.string_offsets ≡ 0
  pub last : last_or_zero v.string_offsets ≡ length v.string_bytes
  pub scope : length v.scope ≡ length v.counter_id
  pub kind : length v.kind ≡ length v.counter_id
  pub site_kind : length v.site_kind ≡ length v.counter_id
  pub function_id : length v.function_id ≡ length v.counter_id
  pub current_function_id : length v.current_function_id ≡ length v.counter_id
  pub instr_block_label : length v.instr_block_label ≡ length v.counter_id
  pub instr_index_in_block : length v.instr_index_in_block ≡ length v.counter_id
  pub function_qualname : length v.function_qualname ≡ length v.counter_id
  pub block_label : length v.block_label ≡ length v.counter_id
  pub value : length v.value ≡ length v.counter_id
  pub offsets_fit : Fit 4 v.string_offsets
  pub counter_id_fits : Fit 4 v.counter_id
  pub scope_fits : Fit 4 v.scope
  pub kind_fits : Fit 4 v.kind
  pub site_kind_fits : Fit 4 v.site_kind
  pub function_id_fits : Fit 8 v.function_id
  pub current_function_id_fits : Fit 8 v.current_function_id
  pub instr_block_label_fits : Fit 4 v.instr_block_label
  pub instr_index_in_block_fits : Fit 4 v.instr_index_in_block
  pub function_qualname_fits : Fit 4 v.function_qualname
  pub block_label_fits : Fit 4 v.block_label
  pub value_fits : Fit 8 v.value

pub all_u32-Fit : (ns : List ℕ) → all_u32 ns ≡ true → Fit 4 ns
unfolding all_u32
all_u32-Fit [] h = tt
all_u32-Fit (n ∷ ns) h = elim (Bool-cases (ltb n (2 ^ 32))) [
  | inl e ↦ (ground arith, all_u32-Fit ns (rw e at h))
  | inr e ↦ absurd (let bad = rw e at h in cc)
]

StandsAt-left :
    {out : List ℕ} {offset : ℕ} (xs ys : List ℕ)
    → StandsAt out offset (xs ++ ys)
    → StandsAt out offset xs
StandsAt-left xs ys s = record {
  before = s.before;
  after = ys ++ s.after;
  whole = s.whole ∙ ap (λ zs. s.before ++ zs) (append_assoc xs ys s.after);
  start = s.start;
}

StandsAt-right :
    {out : List ℕ} {offset : ℕ} (next : ℕ) (xs ys : List ℕ)
    → StandsAt out offset (xs ++ ys)
    → next ≡ offset + length xs
    → StandsAt out next ys
StandsAt-right next xs ys s e = record {
  before = s.before ++ xs;
  after = s.after;
  whole =
      s.whole
      ∙ ap (λ zs. s.before ++ zs) (append_assoc xs ys s.after)
      ∙ sym (append_assoc s.before xs (ys ++ s.after));
  start = length-append s.before xs ∙ ap (λ i. i + length xs) s.start ∙ sym e;
}

StandsAt-whole : (out : List ℕ) → StandsAt out 0 out
StandsAt-whole out = record { before = []; after = []; whole = sym (append-nil out); start = refl }

read_header-StandsAt :
    (out : List ℕ) (h : CounterDumpRecordHeader)
    → StandsAt out 0 (header_bytes h)
    → Fit 4 (header_words h)
    → read_header out ≡ some h
unfolding read_header header_bytes header_words header_of bytes_eq require
read_header-StandsAt out h s fit =
    let versions = bytes_of_slice 2 (version ∷ header_size ∷ []) in
    let words = bytes_of_slice 4 (header_words h) in
    let front = StandsAt-left magic (versions ++ words) s in
    let later = StandsAt-right 8 magic (versions ++ words) s refl in
    let middle = StandsAt-left versions words later in
    let four : 12 ≡ 8 + length versions =
      ap (λ i. 8 + i) (sym (length-bytes_of_slice 2 (version ∷ header_size ∷ []))) in
    let end = StandsAt-right 12 versions words later four in
    rw
      (
        slice-StandsAt out 0 8 magic front refl,
        words_at-StandsAt 2 (version ∷ header_size ∷ []) out 8 2 middle refl
            (omega arith, (omega arith, tt)),
        words_at-StandsAt 4 (header_words h) out 12 19 end refl fit,
      )
      refl

module _ (v : CounterDumpRecordView) (d : IsDumpable v) where
  -- The sections take the room that is laid out for them.
  sections-InOrder :
      (l : Layout)
      → IsLaidOut l (length v.string_offsets - 1) (length v.string_bytes) (length v.counter_id)
      → InOrder 88 (sections v l) l.record_len
  unfolding sections
  sections-InOrder l i =
      let size = length-bytes_of_slice in
      let offsets = size 4 v.string_offsets ∙ ap (λ n. n * 4) d.some_offset in
      let scope = size 4 v.scope ∙ ap (λ n. n * 4) d.scope in
      let kind = size 4 v.kind ∙ ap (λ n. n * 4) d.kind in
      let site_kind = size 4 v.site_kind ∙ ap (λ n. n * 4) d.site_kind in
      let function_id = size 8 v.function_id ∙ ap (λ n. n * 8) d.function_id in
      let current = size 8 v.current_function_id ∙ ap (λ n. n * 8) d.current_function_id in
      let label = size 4 v.instr_block_label ∙ ap (λ n. n * 4) d.instr_block_label in
      let index = size 4 v.instr_index_in_block ∙ ap (λ n. n * 4) d.instr_index_in_block in
      let qualname = size 4 v.function_qualname ∙ ap (λ n. n * 4) d.function_qualname in
      let block = size 4 v.block_label ∙ ap (λ n. n * 4) d.block_label in
      let value = size 8 v.value ∙ ap (λ n. n * 8) d.value in
      let counter = size 4 v.counter_id in
      (
        omega (arith, i.string_offsets),
        (
          omega (arith, offsets, i.string_bytes),
          (
            i.counter_id,
            (
              omega (arith, counter, i.scope),
              (
                omega (arith, scope, i.kind),
                (
                  omega (arith, kind, i.site_kind),
                  (
                    omega (arith, site_kind, i.function_id),
                    (
                      omega (arith, function_id, i.current_function_id),
                      (
                        omega (arith, current, i.instr_block_label),
                        (
                          omega (arith, label, i.instr_index_in_block),
                          (
                            omega (arith, index, i.function_qualname),
                            (
                              omega (arith, qualname, i.block_label),
                              (omega (arith, block, i.value), omega (arith, value, i.record_len)),
                            ),
                          ),
                        ),
                      ),
                    ),
                  ),
                ),
              ),
            ),
          ),
        ),
      )

  -- The sections are read where they stand.
  read_sections-StandsAt :
      (out : List ℕ) (l : Layout)
      → All (λ (p : ℕ × List ℕ). StandsAt out p.0 p.1) (sections v l)
      → read_sections (header_for v) l (length v.counter_id) out ≡ some v
  unfolding sections read_sections header_for require
  read_sections-StandsAt out l at =
      let first : (first_or_zero v.string_offsets == 0) ≡ true = (==_iff _ _).1 d.first in
      let last : (last_or_zero v.string_offsets == length v.string_bytes) ≡ true =
        (==_iff _ _).1 d.last in
      rw
        (
          words_at-StandsAt 4 v.string_offsets out l.string_offsets
              (length v.string_offsets - 1 + 1) at.0 d.some_offset d.offsets_fit,
          slice-StandsAt out l.string_bytes (l.string_bytes + length v.string_bytes) v.string_bytes
              at.1.0 refl,
          words_at-StandsAt 4 v.counter_id out l.counter_id (length v.counter_id) at.1.1.0 refl
              d.counter_id_fits,
          words_at-StandsAt 4 v.scope out l.scope (length v.counter_id) at.1.1.1.0 d.scope
              d.scope_fits,
          words_at-StandsAt 4 v.kind out l.kind (length v.counter_id) at.1.1.1.1.0 d.kind
              d.kind_fits,
          words_at-StandsAt 4 v.site_kind out l.site_kind (length v.counter_id) at.1.1.1.1.1.0
              d.site_kind d.site_kind_fits,
          words_at-StandsAt 8 v.function_id out l.function_id (length v.counter_id) at.1.1.1.1.1.1.0
              d.function_id d.function_id_fits,
          words_at-StandsAt 8 v.current_function_id out l.current_function_id (length v.counter_id)
              at.1.1.1.1.1.1.1.0 d.current_function_id d.current_function_id_fits,
          words_at-StandsAt 4 v.instr_block_label out l.instr_block_label (length v.counter_id)
              at.1.1.1.1.1.1.1.1.0 d.instr_block_label d.instr_block_label_fits,
          words_at-StandsAt 4 v.instr_index_in_block out l.instr_index_in_block
              (length v.counter_id) at.1.1.1.1.1.1.1.1.1.0 d.instr_index_in_block
              d.instr_index_in_block_fits,
          words_at-StandsAt 4 v.function_qualname out l.function_qualname (length v.counter_id)
              at.1.1.1.1.1.1.1.1.1.1.0 d.function_qualname d.function_qualname_fits,
          words_at-StandsAt 4 v.block_label out l.block_label (length v.counter_id)
              at.1.1.1.1.1.1.1.1.1.1.1.0 d.block_label d.block_label_fits,
          words_at-StandsAt 8 v.value out l.value (length v.counter_id) at.1.1.1.1.1.1.1.1.1.1.1.1.0
              d.value d.value_fits,
          first,
          last,
          read_sections,
        )
        refl

  header_for-accepted :
      (let h = header_for v in
        sections_accepted h.offsets h.string_count h.string_bytes_len h.row_count)
      ≡ true
  unfolding header_for
  header_for-accepted =
      (sections_accepted-layout (length v.string_offsets - 1) (length v.string_bytes)
        (length v.counter_id)).1

  written-parse_record :
      (out : List ℕ)
      → Fit 4 (header_words (header_for v))
      → length out ≡ (header_for v).offsets.record_len
      → StandsAt out 0 (header_bytes (header_for v))
      → All (λ (p : ℕ × List ℕ). StandsAt out p.0 p.1) (sections v (header_for v).offsets)
      → parse_record out ≡ some v
  unfolding parse_record require header_for
  written-parse_record out fit long header at =
      let h = header_for v in
      let passed : sections_accepted h.offsets h.string_count h.string_bytes_len h.row_count
          ≡ true =
        header_for-accepted in
      rw
        (
          read_header-StandsAt out h header fit,
          slice-StandsAt out 0 h.offsets.record_len out (StandsAt-whole out) (omega (arith, long)),
          passed,
        )
        (read_sections-StandsAt out h.offsets at)

All-of {ℓ κ} : {A : Type ℓ} (P : A → Type κ) (xs : List A) → ((x : A) → Memᴰ x xs → P x) → All P xs
All-of P [] each = tt
All-of P (x ∷ xs) each = (each x (Memᴰ.head refl), All-of P xs (λ y m. each y (Memᴰ.tail m)))

length-header_bytes : (h : CounterDumpRecordHeader) → length (header_bytes h) ≡ 88
unfolding header_bytes header_words
length-header_bytes h =
    let versions = bytes_of_slice 2 (version ∷ header_size ∷ []) in
    let words = bytes_of_slice 4 (header_words h) in
    length-append magic (versions ++ words)
    ∙ ap (λ i. 8 + i)
        (length-append versions words
          ∙ ap (λ i. i + length words) (length-bytes_of_slice 2 (version ∷ header_size ∷ []))
          ∙ ap (λ i. 4 + i) (length-bytes_of_slice 4 (header_words h)))

pub write_record-parsed :
    (v : CounterDumpRecordView) (bytes : List ℕ)
    → IsDumpable v
    → write_record v ≡ ok bytes
    → parse_record bytes ≡ some v
unfolding write_record header_for
write_record-parsed v bytes d w =
    let h = header_for v in
    let writes = (0, header_bytes h) ∷ sections v h.offsets in
    let n = h.offsets.record_len in
    let laid =
      (sections_accepted-layout (length v.string_offsets - 1) (length v.string_bytes)
        (length v.counter_id)).0 in
    let order : InOrder 0 writes n =
      (omega arith, rw (length-header_bytes h) (sections-InOrder v d h.offsets laid)) in
    let (out, ran, long, kept) = write_all-Kept writes [] n n (omega arith) order in
    elim (Bool-cases (all_u32 (header_words h))) [
      | inl e ↦
          let same : out ≡ bytes = cc (rw (e, ran) at w) in
          subst (λ xs. parse_record xs ≡ some v) same
            (written-parse_record v d out (all_u32-Fit (header_words h) e) long
              (kept.stands 0 (header_bytes h) (Memᴰ.head refl))
              (All-of (λ (p : ℕ × List ℕ). StandsAt out p.0 p.1) (sections v h.offsets)
                (λ p m. kept.stands p.0 p.1 (Memᴰ.tail m))))
      | inr e ↦ absurd (let bad = rw e at w in cc)
    ]

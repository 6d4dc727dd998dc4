-- ===== src/CounterDump/Strings.antt =====
-- The strings of a record are read back (soac-eval/src/counter_dump.rs,
-- soac-inspector/src/counter_dump.rs).
use diet_python.Prelude.{
  ℕ, zero, suc, ◌+◌, ◌-◌, ◌<◌, ◌≡◌, refl, sym, ap, ◌∙◌, ltb, leb, String, Option, some, List, [],
  ◌∷◌, ◌++◌, get_elem?, length, take, drop, length-append, append_assoc, arith, Bool-cases, inl,
  inr, ok, err, Result, and_then, append-nil, true, ◌^◌,
}
use diet_python.CounterDump.{DumpError, as_u32, too_many_bytes, push_strings, CounterDumpRecordView}
use diet_python.CounterDump.Read.{slice, ok_or, resolve_string_id}

pub and_then-ok {ℓ κ μ} :
    {X : Type ℓ} {A : Type κ} {B : Type μ} (r : Result X A) (f : A → Result X B) {b : B}
    → and_then r f ≡ ok b
    → (a : A) × (r ≡ ok a) × (f a ≡ ok b)
and_then-ok (ok a) f h = (a, refl, h)
and_then-ok (err x) f h = absurd (cc)

pub ok-pair {ℓ κ μ} :
    {X : Type ℓ} {A : Type κ} {B : Type μ} {a a' : A} {b b' : B}
    → (r : Result X (A × B)) → r ≡ ok (a, b)
    → r ≡ ok (a', b')
    → (a ≡ a') × (b ≡ b')
ok-pair r p q = let same = sym p ∙ q in (cc same, cc same)

pub as_u32-ok : (e : DumpError) (n : ℕ) {m : ℕ} → as_u32 e n ≡ ok m → (n ≡ m) × (n < 2 ^ 32)
as_u32-ok e n h = elim (Bool-cases (ltb n (2 ^ 32))) [
  | inl low ↦ let got : ok n ≡ ok _ = rw low at h in (cc got, ground arith)
  | inr high ↦ absurd (let bad = rw high at h in cc)
]

pub take-append : (xs ys : List ℕ) → take (length xs) (xs ++ ys) ≡ xs
take-append [] ys = refl
take-append (x ∷ xs) ys = ap (λ zs. x ∷ zs) (take-append xs ys)

pub drop-append : (xs ys : List ℕ) → drop (length xs) (xs ++ ys) ≡ ys
drop-append [] ys = refl
drop-append (x ∷ xs) ys = drop-append xs ys

-- The bytes between two others.
pub slice-append :
    (xs ys zs : List ℕ) (start stop : ℕ)
    → start ≡ length xs
    → stop ≡ length xs + length ys
    → slice start stop (xs ++ (ys ++ zs)) ≡ some ys
unfolding slice
slice-append xs ys zs start stop p q =
    let whole : length (xs ++ (ys ++ zs)) ≡ length xs + (length ys + length zs) =
      omega (arith, length-append xs (ys ++ zs), length-append ys zs) in
    let low : leb start stop ≡ true = ground arith in
    let high : leb stop (length (xs ++ (ys ++ zs))) ≡ true = ground arith in
    let width : stop - start ≡ length ys = omega arith in
    rw (low, high, width, p, drop-append xs (ys ++ zs), take-append ys zs) refl

module _ (as_bytes : String → List ℕ) where
  -- The bytes of the strings, and the offsets after each from a first one on.
  unfoldable pub all_bytes : List String → List ℕ
  all_bytes [] = []
  all_bytes (s ∷ ss) = as_bytes s ++ all_bytes ss

  unfoldable pub ends : ℕ → List String → List ℕ
  ends n [] = []
  ends n (s ∷ ss) = let m = n + length (as_bytes s) in m ∷ ends m ss

  push_strings-all :
      (ss : List String) (bytes offsets : List ℕ) {b o : List ℕ}
      → push_strings as_bytes ss bytes offsets ≡ ok (b, o)
      → (b ≡ bytes ++ all_bytes ss) × (o ≡ offsets ++ ends (length bytes) ss)
  unfolding push_strings all_bytes ends
  push_strings-all [] bytes offsets h = (cc (append-nil bytes), cc (append-nil offsets))
  push_strings-all (s ∷ ss) bytes offsets h =
      let long = bytes ++ as_bytes s in
      let (end, fits, rest) = and_then-ok (as_u32 too_many_bytes (length long)) _ h in
      let (p, q) = push_strings-all ss long (offsets ++ end ∷ []) rest in
      let (here, below) = as_u32-ok too_many_bytes (length long) fits in
      let n : length long ≡ length bytes + length (as_bytes s) = length-append bytes (as_bytes s) in
      let same : end ≡ length bytes + length (as_bytes s) = sym here ∙ n in
      (
        p ∙ append_assoc bytes (as_bytes s) (all_bytes ss),
        q
            ∙ append_assoc offsets (end ∷ []) (ends (length long) ss)
            ∙ ap (λ m. offsets ++ m ∷ ends (length long) ss) same
            ∙ ap (λ m. offsets ++ (length bytes + length (as_bytes s)) ∷ ends m ss) n,
      )

  -- Each string stands between its two offsets.
  slice-all :
      (ss : List String) (before : List ℕ) (i : ℕ) {s : String}
      → get_elem? ss i ≡ some s
      → (start : ℕ) × (stop : ℕ) × (get_elem? (length before ∷ ends (length before) ss) i
          ≡ some start)
        × (get_elem? (ends (length before) ss) i ≡ some stop)
        × (slice start stop (before ++ all_bytes ss) ≡ some (as_bytes s))
  unfolding all_bytes ends
  slice-all [] before i h = absurd (cc)
  slice-all (t ∷ ss) before zero {s} h =
      let same : t ≡ s = cc h in
      (
        length before,
        length before + length (as_bytes t),
        refl,
        refl,
        slice-append before (as_bytes t) (all_bytes ss) _ _ refl refl
            ∙ ap (λ u. some (as_bytes u)) same,
      )
  slice-all (t ∷ ss) before (suc i) {s} h =
      let further = before ++ as_bytes t in
      let n : length further ≡ length before + length (as_bytes t) =
        length-append before (as_bytes t) in
      let (start, stop, p, q, r) = slice-all ss further i h in
      (start, stop, rw n at p, rw n at q, rw (append_assoc before (as_bytes t) (all_bytes ss)) at r)

  -- The view holds these strings.
  pub record HoldsStrings (ss : List String) (view : CounterDumpRecordView) : Type 0 where
    pub bytes : view.string_bytes ≡ all_bytes ss
    pub offsets : view.string_offsets ≡ 0 ∷ ends 0 ss

  pub push_strings-HoldsStrings :
      (ss : List String) (view : CounterDumpRecordView)
      → push_strings as_bytes ss [] (0 ∷ []) ≡ ok (view.string_bytes, view.string_offsets)
      → HoldsStrings ss view
  push_strings-HoldsStrings ss view h =
      let (b, o) = push_strings-all ss [] (0 ∷ []) h in record { bytes = b; offsets = o }

  pub resolve_string_id-HoldsStrings :
      (from_utf8 : List ℕ → Option String) (ss : List String) (view : CounterDumpRecordView)
      → ((s : String) → from_utf8 (as_bytes s) ≡ some s)
      → HoldsStrings ss view
      → (id : ℕ) {s : String} → get_elem? ss id ≡ some s
      → resolve_string_id from_utf8 view id ≡ ok s
  unfolding resolve_string_id ok_or
  resolve_string_id-HoldsStrings from_utf8 ss view decodes holds id {s} h =
      let (start, stop, p, q, r) = slice-all ss [] id h in
      rw (holds.offsets, holds.bytes, p, q, r, decodes s) refl

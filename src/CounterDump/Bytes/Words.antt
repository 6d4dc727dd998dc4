-- ===== src/CounterDump/Bytes/Words.antt =====
-- Words are read back from their bytes (soac-eval/src/counter_dump.rs,
-- soac-inspector/src/counter_dump.rs).
use diet_python.Prelude.{
  ℕ, zero, suc, ◌+◌, ◌*◌, ◌/◌, ◌<◌, ◌≡◌, refl, ap, sym, ◌∙◌, List, [], ◌∷◌, ◌++◌, length, take,
  drop, length-append, arith, some, All,
}
use diet_python.CounterDump.Read.{slice}
use diet_python.CounterDump.Strings.{take-append, drop-append, slice-append}
use diet_python.CounterDump.Bytes.{to_le, from_le, bytes_of_slice, from_raw_parts, words_at}

-- How many words of a number of bytes there are.
abbrev pub limit : ℕ → ℕ
limit zero = 1
limit (suc k) = 256 * limit k

from_le-to_le : (k n : ℕ) → n < limit k → from_le (to_le k n) ≡ n
unfolding from_le to_le
from_le-to_le zero n h = omega arith
from_le-to_le (suc k) n h = omega (arith, from_le-to_le k (n / 256) (omega arith))

length-to_le : (k n : ℕ) → length (to_le k n) ≡ k
unfolding to_le
length-to_le zero n = refl
length-to_le (suc k) n = ap suc (length-to_le k (n / 256))

pub length-bytes_of_slice : (k : ℕ) (ns : List ℕ) → length (bytes_of_slice k ns) ≡ length ns * k
unfolding bytes_of_slice
length-bytes_of_slice k [] = omega arith
length-bytes_of_slice k (n ∷ ns) = omega (
  arith,
  length-append (to_le k n) (bytes_of_slice k ns),
  length-to_le k n,
  length-bytes_of_slice k ns,
)

abbrev pub Fit : ℕ → List ℕ → Type 0
Fit k ns = All (λ n. n < limit k) ns

take_le : (k n : ℕ) (bs : List ℕ) → take k (to_le k n ++ bs) ≡ to_le k n
take_le k n bs =
    ap (λ i. take i (to_le k n ++ bs)) (sym (length-to_le k n)) ∙ take-append (to_le k n) bs

drop_le : (k n : ℕ) (bs : List ℕ) → drop k (to_le k n ++ bs) ≡ bs
drop_le k n bs =
    ap (λ i. drop i (to_le k n ++ bs)) (sym (length-to_le k n)) ∙ drop-append (to_le k n) bs

pub from_raw_parts-bytes_of_slice :
    (k : ℕ) (ns : List ℕ) → Fit k ns → from_raw_parts k (length ns) (bytes_of_slice k ns) ≡ ns
unfolding from_raw_parts bytes_of_slice
from_raw_parts-bytes_of_slice k [] fit = refl
from_raw_parts-bytes_of_slice k (n ∷ ns) fit =
    let rest = bytes_of_slice k ns in
    rw (take_le k n rest, drop_le k n rest, from_le-to_le k n fit.0)
      (ap (λ ms. n ∷ ms) (from_raw_parts-bytes_of_slice k ns fit.1))

-- Bytes stand at an offset.
pub record StandsAt (out : List ℕ) (offset : ℕ) (bytes : List ℕ) : Type 0 where
  pub before : List ℕ
  pub after : List ℕ
  pub whole : out ≡ before ++ (bytes ++ after)
  pub start : length before ≡ offset

pub slice-StandsAt :
    (out : List ℕ) (offset stop : ℕ) (bytes : List ℕ)
    → StandsAt out offset bytes
    → stop ≡ offset + length bytes
    → slice offset stop out ≡ some bytes
slice-StandsAt out offset stop bytes s e =
    rw s.whole
      (slice-append s.before bytes s.after offset stop (sym s.start) (omega (arith, s.start)))

pub words_at-StandsAt :
    (k : ℕ) (ns out : List ℕ) (offset len : ℕ)
    → StandsAt out offset (bytes_of_slice k ns)
    → length ns ≡ len
    → Fit k ns
    → words_at k len offset out ≡ some ns
unfolding words_at
words_at-StandsAt k ns out offset len s n fit =
    let stop : offset + len * k ≡ offset + length (bytes_of_slice k ns) =
      ap (λ i. offset + i) (ap (λ i. i * k) (sym n) ∙ sym (length-bytes_of_slice k ns)) in
    rw (slice-StandsAt out offset (offset + len * k) (bytes_of_slice k ns) s stop) (
      ap some (
        ap (λ i. from_raw_parts k i (bytes_of_slice k ns)) (sym n)
        ∙ from_raw_parts-bytes_of_slice k ns fit))

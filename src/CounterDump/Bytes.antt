-- ===== src/CounterDump/Bytes.antt =====
-- The bytes of a dumped record: `bytes_of_slice` and `write_bytes` (soac-eval/src/counter_dump.rs),
-- and how they are cast back (soac-inspector/src/counter_dump.rs). Words are little-endian.
pub mod Words
pub mod Written
use diet_python.Prelude.{
  ℕ, zero, suc, ◌+◌, ◌*◌, ◌%◌, ◌/◌, ltb, leb, Option, none, some, List, [], ◌∷◌, ◌++◌, length, take,
  drop, if◌then◌else◌, ◌>>=◌,
}
use mathlib.Core.Option
use diet_python.CounterDump.Read.{slice}

-- The bytes of a word of a number of bytes.
unfoldable pub to_le : ℕ → ℕ → List ℕ
to_le zero n = []
to_le (suc k) n = n % 256 ∷ to_le k (n / 256)

unfoldable pub from_le : List ℕ → ℕ
from_le [] = 0
from_le (b ∷ bs) = b + 256 * from_le bs

-- `bytes_of_slice`
unfoldable pub bytes_of_slice : ℕ → List ℕ → List ℕ
bytes_of_slice k [] = []
bytes_of_slice k (n ∷ ns) = to_le k n ++ bytes_of_slice k ns

-- `slice::from_raw_parts`
unfoldable pub from_raw_parts : ℕ → ℕ → List ℕ → List ℕ
from_raw_parts k zero bs = []
from_raw_parts k (suc len) bs = from_le (take k bs) ∷ from_raw_parts k len (drop k bs)

-- `vec![0u8; record_len]`
unfoldable pub zeros : ℕ → List ℕ
zeros zero = []
zeros (suc n) = 0 ∷ zeros n

-- `write_bytes`; `none` is the error of a range out of bounds.
unfoldable pub write_bytes : ℕ → List ℕ → List ℕ → Option (List ℕ)
write_bytes offset src dst =
    if leb (offset + length src) (length dst)
    then some (take offset dst ++ (src ++ drop (offset + length src) dst))
    else none

-- The calls of `write_bytes`, one after another.
unfoldable pub write_all : List (ℕ × List ℕ) → List ℕ → Option (List ℕ)
write_all [] dst = some dst
write_all ((offset, src) ∷ rest) dst = do out ← write_bytes offset src dst; write_all rest out

-- What `cast_slice` gives after its tests.
unfoldable pub words_at : ℕ → ℕ → ℕ → List ℕ → Option (List ℕ)
words_at k len offset bytes =
    Option.map (from_raw_parts k len) (slice offset (offset + len * k) bytes)

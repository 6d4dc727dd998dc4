-- ===== src/CounterDump/Bytes/Written.antt =====
-- What is written in order stays (soac-eval/src/counter_dump.rs).
use diet_python.Prelude.{
  ℕ, zero, suc, ◌+◌, ◌-◌, ◌≤◌, ◌≡◌, refl, ap, sym, ◌∙◌, leb, true, some, List, [], ◌∷◌, ◌++◌,
  length, take, drop, length-append, append_assoc, arith, Memᴰ, inl, inr, subst,
}
use diet_python.Prelude.Memᴰ
use diet_python.CounterDump.Strings.{take-append, drop-append}
use diet_python.CounterDump.Bytes.{zeros, write_bytes, write_all}
use diet_python.CounterDump.Bytes.Words.{StandsAt}

-- The sections start at a position or later, do not overlap, and end at another or sooner.
abbrev pub InOrder : ℕ → List (ℕ × List ℕ) → ℕ → Type 0
InOrder start [] stop = start ≤ stop
InOrder start ((offset, src) ∷ rest) stop =
    (start ≤ offset) × InOrder (offset + length src) rest stop

InOrder-below :
    (start : ℕ) (ws : List (ℕ × List ℕ)) (stop : ℕ) → InOrder start ws stop → start ≤ stop
InOrder-below start [] stop h = h
InOrder-below start ((offset, src) ∷ rest) stop h =
    omega (arith, h.0, InOrder-below (offset + length src) rest stop h.1)

length-zeros : (n : ℕ) → length (zeros n) ≡ n
unfolding zeros
length-zeros zero = refl
length-zeros (suc n) = ap suc (length-zeros n)

zeros-add : (a b : ℕ) → zeros (a + b) ≡ zeros a ++ zeros b
unfolding zeros
zeros-add zero b = let e : 0 + b ≡ b = omega arith in ap zeros e
zeros-add (suc a) b =
    let e : suc a + b ≡ suc (a + b) = omega arith in ap zeros e ∙ ap (λ xs. 0 ∷ xs) (zeros-add a b)

-- One section, written after some bytes and before nothing but zeros.
write_bytes-zeros :
    (done src : List ℕ) (gap left : ℕ)
    → write_bytes (length done + gap) src (done ++ zeros (gap + (length src + left)))
      ≡ some ((done ++ zeros gap) ++ (src ++ zeros left))
unfolding write_bytes
write_bytes-zeros done src gap left =
    let front = done ++ zeros gap in
    let room = zeros (length src) in
    let n : length front ≡ length done + gap =
      length-append done (zeros gap) ∙ ap (λ i. length done + i) (length-zeros gap) in
    let split : done ++ zeros (gap + (length src + left)) ≡ front ++ (room ++ zeros left) =
      ap (λ xs. done ++ xs)
        (zeros-add gap (length src + left)
          ∙ ap (λ xs. zeros gap ++ xs) (zeros-add (length src) left))
      ∙ sym (append_assoc done (zeros gap) (room ++ zeros left)) in
    let whole : length (front ++ (room ++ zeros left)) ≡ length done + gap + (length src + left) =
      omega (
        arith,
        n,
        length-append front (room ++ zeros left),
        length-append room (zeros left),
        length-zeros (length src),
        length-zeros left,
      ) in
    let fits : leb (length done + gap + length src) (length (front ++ (room ++ zeros left)))
        ≡ true =
      ground arith in
    let taken : take (length done + gap) (front ++ (room ++ zeros left)) ≡ front =
      ap (λ i. take i (front ++ (room ++ zeros left))) (sym n)
      ∙ take-append front (room ++ zeros left) in
    let both : length (front ++ room) ≡ length done + gap + length src =
      omega (arith, n, length-append front room, length-zeros (length src)) in
    let dropped : drop (length done + gap + length src) (front ++ (room ++ zeros left))
        ≡ zeros left =
      ap (λ xs. drop (length done + gap + length src) xs)
        (sym (append_assoc front room (zeros left)))
      ∙ ap (λ i. drop i ((front ++ room) ++ zeros left)) (sym both)
      ∙ drop-append (front ++ room) (zeros left) in
    rw (split, fits, taken, dropped) refl

-- The bytes that were there before the sections stay.
pub record Kept (done : List ℕ) (ws : List (ℕ × List ℕ)) (out : List ℕ) : Type 0 where
  pub rest : List ℕ
  pub kept : out ≡ done ++ rest
  pub stands : (offset : ℕ) (src : List ℕ) → Memᴰ (offset, src) ws → StandsAt out offset src

pub write_all-Kept :
    (ws : List (ℕ × List ℕ)) (done : List ℕ) (m stop : ℕ)
    → stop ≡ length done + m
    → InOrder (length done) ws stop
    → (out : List ℕ) × (write_all ws (done ++ zeros m) ≡ some out)
      × (length out ≡ stop)
      × Kept done ws out
unfolding write_all
write_all-Kept [] done m stop e h = (
  done ++ zeros m,
  refl,
  omega (arith, length-append done (zeros m), length-zeros m),
  record { rest = zeros m; kept = refl; stands = λ offset src at. absurd (Memᴰ.not-nil at) },
)
write_all-Kept ((offset, src) ∷ ws) done m stop e h =
    let gap = offset - length done in
    let left = stop - (offset + length src) in
    let inside = InOrder-below (offset + length src) ws stop h.1 in
    let at : length done + gap ≡ offset = omega (arith, h.0) in
    let size : m ≡ gap + (length src + left) = omega (arith, h.0, inside) in
    let front = done ++ zeros gap in
    let n : length front ≡ offset =
      length-append done (zeros gap) ∙ ap (λ i. length done + i) (length-zeros gap) ∙ at in
    let done' = front ++ src in
    let n' : length done' ≡ offset + length src =
      length-append front src ∙ ap (λ i. i + length src) n in
    let wrote : write_bytes offset src (done ++ zeros m) ≡ some (done' ++ zeros left) =
      ap (λ i. write_bytes i src (done ++ zeros m)) (sym at)
      ∙ ap (λ i. write_bytes (length done + gap) src (done ++ zeros i)) size
      ∙ write_bytes-zeros done src gap left
      ∙ ap some (sym (append_assoc front src (zeros left))) in
    let (out, ran, long, k) =
      write_all-Kept ws done' left stop (omega (arith, n', inside)) (rw n' h.1) in
    let whole : out ≡ front ++ (src ++ k.rest) = k.kept ∙ append_assoc front src k.rest in
    (
      out,
      rw wrote ran,
      long,
      record {
        rest = zeros gap ++ (src ++ k.rest);
        kept = whole ∙ append_assoc done (zeros gap) (src ++ k.rest);
        stands = λ o s m. elim (Memᴰ.cases_cons m) [
          | inl here ↦
              subst (λ (p : ℕ × List ℕ). StandsAt out p.0 p.1) (sym here)
                (record { before = front; after = k.rest; whole = whole; start = n })
          | inr later ↦ k.stands o s later
        ];
      },
    )

-- ===== src/Instrument/Fragment/Runs.antt =====
-- The runs through an accepted fragment (soac-blockpy/src/passes/instrument.rs).
use diet_python.Prelude.{
  ℕ, suc, ◌≤◌, ◌<◌, ◌==◌, true, some, List, [], ◌∷◌, Memᴰ, lookup, ◌≡◌, sym, ap, ◌∙◌, inl, inr,
  Bool-cases, ==_iff, ok, err, Result, and_then, >>=-eq-some,
}
use diet_python.Ir.Label.{BlockLabel, is_fallthrough}
use diet_python.Ir.Block.{Block, successors}
use diet_python.Instrument.Fragment.{OptBlock, OptBlockError, validate_opt_block, new}
use diet_python.Instrument.Fragment.Paths.{continues, parts}

module _ {ℓ} {E : Type ℓ} where
  abbrev pub blocks_of : OptBlock E → List (Block E E)
  blocks_of o = o.entry ∷ o.dependencies

  pub lookup-parts :
      (l : BlockLabel) (bs : List (Block E E)) {b : Block E E}
      → lookup l (parts bs) ≡ some b
      → Memᴰ b bs × (b.label ≡ l)
  lookup-parts l [] h = absurd (cc)
  lookup-parts l (c ∷ bs) {b} h = elim (Bool-cases (c.label == l)) [
    | inl e ↦
        let got : some c ≡ some b = rw e at h in
        let same : c ≡ b = cc got in
        (Memᴰ.head (sym same), ap (λ (x : Block E E). x.label) (sym same) ∙ (==_iff c.label l).0 e)
    | inr e ↦ let (m, p) = lookup-parts l bs (rw e at h) in (Memᴰ.tail m, p)
  ]

  -- What `OptBlock::new` gives back is the fragment that it was given, and that was accepted.
  pub new-accepted :
      (entry : Block E E) (deps : List (Block E E)) {o : OptBlock E}
      → new entry deps ≡ some (ok o)
      → (validate_opt_block entry deps ≡ some (ok tt))
        × (o ≡ record { entry = entry; dependencies = deps })
  unfolding new
  new-accepted entry deps {o} h =
      let (c, ran, e) = >>=-eq-some (validate_opt_block entry deps) _ h in answered c ran e
    where
      answered :
          (c : Result OptBlockError (Unit {0}))
          → validate_opt_block entry deps ≡ some c
          → some (and_then c (λ _. ok (record { entry = entry; dependencies = deps })))
            ≡ some (ok o)
          → (validate_opt_block entry deps ≡ some (ok tt))
            × (o ≡ record { entry = entry; dependencies = deps })
      answered (ok u) ran e = (ran, cc)
      answered (err x) ran e = absurd (cc)

  -- The labels of a run: each is followed by a target of its block.
  abbrev pub IsRun : List (Block E E) → (ℕ → BlockLabel) → Type ℓ
  IsRun bs trace =
      (n : ℕ) (b : Block E E)
      → Memᴰ b bs
      → b.label ≡ trace n
      → Memᴰ (trace (suc n)) (successors b.term)

  -- A step of the fragment: a block that goes on.
  abbrev pub InFragment : List (Block E E) → BlockLabel → Type ℓ
  InFragment bs l = (b : Block E E) × Memᴰ b bs × (b.label ≡ l) × (continues b.term ≡ true)

  -- From position k the run is in the fragment, and then falls through.
  abbrev pub LeavesAfter : List (Block E E) → (ℕ → BlockLabel) → ℕ → Type ℓ
  LeavesAfter bs trace k =
      (n : ℕ) × (k < n)
      × (is_fallthrough (trace n) ≡ true)
      × ((m : ℕ) → k ≤ m → m < n → InFragment bs (trace m))

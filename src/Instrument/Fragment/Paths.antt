-- ===== src/Instrument/Fragment/Paths.antt =====
-- The paths of a fragment (soac-blockpy/src/passes/instrument.rs), without the walk over it.
use diet_python.Prelude.{
  List, map, sym, ◌∙◌, Bool, true, false, some, Memᴰ, Map, lookup, ◌≡◌, refl, ◌⊎◌, inl, inr, subst,
}
use diet_python.Ir.Label.{BlockLabel, is_fallthrough}
use diet_python.Ir.Block.{Block, BlockTerm, jump, if_term, branch_table, raise, return, successors}

-- Whether control stays in the function.
unfoldable pub continues {ℓ} : {E : Type ℓ} → BlockTerm E → Bool
continues (jump e) = true
continues (if_term t a b) = true
continues (branch_table i ts d) = true
continues (raise x) = false
continues (return x) = false

module _ {ℓ} {E : Type ℓ} (blocks : Map (Block E E)) where
  -- A block of the fragment goes on at a label, inside of the fragment.
  abbrev pub Edge : BlockLabel → BlockLabel → Type ℓ
  Edge l t =
      (b : Block E E) × (lookup l blocks ≡ some b)
      × Memᴰ t (successors b.term)
      × (is_fallthrough t ≡ false)

  -- Each path from the label stays in the fragment, until after finitely many blocks it falls through.
  pub data AlwaysEnds : BlockLabel → Type ℓ where
    ends :
        {l : BlockLabel} {b : Block E E}
        → lookup l blocks ≡ some b
        → continues b.term ≡ true
        → ((t : BlockLabel) → Memᴰ t (successors b.term) → is_fallthrough t ≡ false → AlwaysEnds t)
        → AlwaysEnds l

  pub data Reaches (l : BlockLabel) : BlockLabel → Type ℓ where
    here : Reaches l l
    step : {m t : BlockLabel} → Reaches l m → Edge m t → Reaches l t

  abbrev pub Leads : BlockLabel → BlockLabel → Type ℓ
  Leads l m = (t : BlockLabel) × Edge l t × Reaches t m

  pub next-AlwaysEnds : {l t : BlockLabel} → AlwaysEnds l → Edge l t → AlwaysEnds t
  next-AlwaysEnds {t = t} (ends {b = b} found goes each) (c, at, m, inside) =
      let same : c ≡ b = cc in
      each t (subst (λ (x : Block E E). Memᴰ t (successors x.term)) same m) inside

  pub Reaches-trans : {l m n : BlockLabel} → Reaches l m → Reaches m n → Reaches l n
  Reaches-trans r here = r
  Reaches-trans r (step s e) = step (Reaches-trans r s) e

  pub Reaches-Leads : {l m t : BlockLabel} → Reaches l m → Edge m t → Leads l t
  Reaches-Leads here e = (_, e, here)
  Reaches-Leads (step r d) e = let (t, first, rest) = Reaches-Leads r d in (t, first, step rest e)

  -- A path is empty, or has a first edge.
  pub Reaches-cases : {l m : BlockLabel} → Reaches l m → (l ≡ m) ⊎ Leads l m
  Reaches-cases here = inl refl
  Reaches-cases (step r e) = inr (Reaches-Leads r e)

  pub acyclic : {l : BlockLabel} → AlwaysEnds l → ¬ Leads l l
  acyclic (ends {l} {b} found goes each) (t, (c, at, m, inside), back) =
      let same : c ≡ b = cc in
      let there = subst (λ (x : Block E E). Memᴰ t (successors x.term)) same m in
      acyclic (each t there inside) (Reaches-Leads back (b, found, there, inside))

-- The blocks of a fragment, by label.
abbrev pub parts {ℓ} : {E : Type ℓ} → List (Block E E) → Map (Block E E)
parts = map (λ b. (b.label, b))

module _ {ℓ} {E : Type ℓ} {m n : Map (Block E E)}
    (same : (l : BlockLabel) → lookup l m ≡ lookup l n) where
  pub AlwaysEnds-same : {l : BlockLabel} → AlwaysEnds m l → AlwaysEnds n l
  AlwaysEnds-same (ends {l} found goes each) =
      ends (sym (same l) ∙ found) goes (λ t at inside. AlwaysEnds-same (each t at inside))

  pub Reaches-same : {l k : BlockLabel} → Reaches m l k → Reaches n l k
  Reaches-same here = here
  Reaches-same (step {m = k} r (b, found, at, inside)) =
      step (Reaches-same r) (b, sym (same k) ∙ found, at, inside)

-- ===== src/Instrument/Fragment/Splice.antt =====
-- An accepted fragment in its place (soac-blockpy/src/passes/instrument.rs).
use diet_python.Instrument.Fragment.Runs.{blocks_of, lookup-parts, new-accepted}
use diet_python.Instrument.Fragment.Accepted.{validate_opt_block_iff}
use diet_python.Prelude.{
  subst, Bool-cases, any-mem, any, Bool, true, List, [], ◌∷◌, map, Memᴰ, ◌≡◌, refl, sym, inl, inr,
  Forall₂,
}
use diet_python.Prelude.Memᴰ
use diet_python.Ir.Label.{BlockLabel, is_fallthrough, fallthrough}
use diet_python.Ir.Block.{
  Block, BlockTerm, jump, if_term, branch_table, raise, return, successors, replace_label,
  replace_fallthrough_target,
}
use diet_python.Ir.Targets.{replace_target-successors}
use diet_python.Instrument.Fragment.{ok, some, new, OptBlock, replace_fallthrough, replace_in_all}
use diet_python.Instrument.Fragment.Paths.{ends, parts, AlwaysEnds, continues}

module _ {ℓ} {E : Type ℓ} where
  -- The block with each fallthrough target replaced.
  pub record Redirected (to : BlockLabel) (b b' : Block E E) : Type ℓ where
    pub label : b'.label ≡ b.label
    pub body : b'.body ≡ b.body
    pub targets : successors b'.term ≡ map (replace_label fallthrough to) (successors b.term)

  replace_fallthrough_target-Redirected :
      (to : BlockLabel) (b : Block E E)
      → Redirected to b (replace_fallthrough_target to b).0
        × ((replace_fallthrough_target to b).1 ≡ any is_fallthrough (successors b.term))
  unfolding replace_fallthrough_target is_fallthrough
  replace_fallthrough_target-Redirected to b =
      let (targets, flag) = replace_target-successors fallthrough to b.term in
      (record { label = refl; body = refl; targets = targets }, flag)

  abbrev falls : Block E E → Bool
  falls b = any is_fallthrough (successors b.term)

  replace_in_all-Redirected :
      (to : BlockLabel) (bs : List (Block E E))
      → Forall₂ (Redirected to) bs (replace_in_all to bs).0
        × ((replace_in_all to bs).1 ≡ any falls bs)
  unfolding replace_in_all
  replace_in_all-Redirected to [] = (Forall₂.nil, refl)
  replace_in_all-Redirected to (b ∷ bs) =
      let (first, here) = replace_fallthrough_target-Redirected to b in
      let (rest, later) = replace_in_all-Redirected to bs in
      (Forall₂.cons first rest, rw (here, later) refl)

  -- A terminator that does not leave the function has a target.
  continues-target :
      (t : BlockTerm E) → continues t ≡ true → (l : BlockLabel) × Memᴰ l (successors t)
  unfolding continues successors
  continues-target (jump e) h = (e.target, Memᴰ.head refl)
  continues-target (if_term c a b) h = (a, Memᴰ.head refl)
  continues-target (branch_table i ts d) h = (d, Memᴰ.append_right ts (Memᴰ.head refl))
  continues-target (raise x) h = absurd (cc)
  continues-target (return x) h = absurd (cc)

  falls_lem :
      (bs : List (Block E E)) {l : BlockLabel} → AlwaysEnds (parts bs) l → any falls bs ≡ true
  falls_lem bs (ends {l = l} {b = b} found goes each) =
      let (t, m) = continues-target b.term goes in
      let (member, _) = lookup-parts l bs found in
      elim (Bool-cases (is_fallthrough t)) [
        | inl out ↦ any-mem falls bs member (any-mem is_fallthrough (successors b.term) m out)
        | inr inside ↦ falls_lem bs (each t m inside)
      ]

  -- Replacing the fallthrough target of an accepted fragment answers that it replaced something.
  -- Each block keeps its label and its body, and has the new target wherever it fell through.
  pub replace_fallthrough-new :
      (entry : Block E E) (deps : List (Block E E)) (o : OptBlock E) (to : BlockLabel)
      → new entry deps ≡ some (ok o)
      → ((replace_fallthrough to o).1 ≡ true)
        × Forall₂ (Redirected to) (blocks_of o) (blocks_of (replace_fallthrough to o).0)
  unfolding replace_fallthrough
  replace_fallthrough-new entry deps o to h =
      let (accepted, same) = new-accepted entry deps h in
      let (own, (ending, met)) = (validate_opt_block_iff entry deps).0 accepted in
      let (first, here) = replace_fallthrough_target-Redirected to o.entry in
      let (rest, later) = replace_in_all-Redirected to o.dependencies in
      let fell : any falls (blocks_of o) ≡ true =
        subst (λ (x : OptBlock E). any falls (blocks_of x) ≡ true) (sym same)
          (falls_lem (entry ∷ deps) ending) in
      (rw (here, later) fell, Forall₂.cons first rest)

-- ===== src/Instrument/Fragment/Accepted.antt =====
-- What the validation of a fragment accepts (soac-blockpy/src/passes/instrument.rs).
use diet_python.Prelude.{
  suc, Bool, true, false, Option, some, List, [], ◌∷◌, Memᴰ, Map, lookup, insert, ◌≡◌, ◌↔◌, ◌⊎◌,
  refl, sym, ap, ◌∙◌, inl, inr, Bool-cases, ok, err, Result, Check, check_all-Passes, unless-Passes,
  length, append-nil,
}
use diet_python.Prelude.Memᴰ
use diet_python.Ir.Label.{BlockLabel}
use diet_python.Ir.Block.{Block}
use diet_python.Cfg.Prune.{contains}
use diet_python.Cfg.Prune.Reach.{contains-mem, mem-contains}
use diet_python.Instrument.Fragment.{
  Walked, OptBlockError, insert_all, check_dependency, check_walk, check_blocks, nothing_walked,
  validate_opt_block, all_paths_end_in_fallthrough,
}
use diet_python.Instrument.Fragment.Paths.{
  AlwaysEnds, Reaches, here, parts, AlwaysEnds-same, Reaches-same,
}
use diet_python.Instrument.Fragment.Walk.{Sound, walk-Outcome}
use diet_python.Instrument.Fragment.Fuel.{walk-returns}
use diet_python.Instrument.Fragment.Labels.{
  HasOwnLabels, Inserted, insert_all-Inserted, insert_all-succeeds,
}

Result-cases {ℓ κ} :
    {X : Type ℓ} {A : Type κ} (r : Result X A) → ((a : A) × (r ≡ ok a)) ⊎ ((x : X) × (r ≡ err x))
Result-cases (ok a) = inl (a, refl)
Result-cases (err x) = inr (x, refl)

module _ {ℓ} {E : Type ℓ} (entry : Block E E) (deps : List (Block E E)) where
  check_walk_iff :
      (valid : Bool) (w : Walked)
      → (check_walk entry deps (some (valid, w)) ≡ some (ok tt))
        ↔ ((valid ≡ true) × ((b : Block E E) → Memᴰ b deps → Memᴰ b.label w.reachable))
  unfolding check_walk check_dependency
  check_walk_iff false w = (λ h. absurd (cc), λ (h, _). absurd (cc))
  check_walk_iff true w =
      let all = check_all-Passes (check_dependency w.reachable entry.label) deps in
      (
        λ h. (
          refl,
          λ b m.
              contains-mem w.reachable
                ((unless-Passes (contains w.reachable b.label) _).0 (all.0 (cc) b m)),
        ),
        λ (_, h). ap some (
            all.1 λ b m.
              (unless-Passes (contains w.reachable b.label) _).1
                (mem-contains w.reachable (h b m))),
      )

  -- All of the paths end, and all of the dependencies are met.
  abbrev Whole : Map (Block E E) → Type ℓ
  Whole blocks =
      AlwaysEnds blocks entry.label
      × ((b : Block E E) → Memᴰ b deps → Reaches blocks entry.label b.label)

  abbrev walked : Map (Block E E) → Option (Bool × Walked)
  walked blocks =
      all_paths_end_in_fallthrough blocks (suc (length blocks)) [] entry.label nothing_walked

  start-Sound : (blocks : Map (Block E E)) → Sound blocks entry.label nothing_walked
  start-Sound blocks = record {
    yes = λ l h. absurd (cc);
    no = λ l h. absurd (cc);
    seen = λ l m. absurd (Memᴰ.not-nil m);
  }

  walked-Whole :
      (blocks : Map (Block E E))
      → (check_walk entry deps (walked blocks) ≡ some (ok tt)) ↔ Whole blocks
  walked-Whole blocks =
      let ((valid, w), ran) = walk-returns blocks entry.label nothing_walked in
      let o =
        walk-Outcome blocks entry.label (suc (length blocks)) [] entry.label here
          (λ k m. absurd (Memᴰ.not-nil m)) nothing_walked (valid, w) (start-Sound blocks) ran in
      let iff = check_walk_iff valid w in
      rw ran (
        λ h.
            let (good, met) = iff.0 h in
            ((o.yes good).ending, λ b m. o.sound.seen b.label (met b m)),
        λ (ending, met). iff.1 (elim (Bool-cases valid) [
          | inl good ↦ (good, λ b m. (o.yes good).met b.label (met b m))
          | inr bad ↦ absurd (o.no bad ending)
        ]),
      )

  -- `insert_all` from the empty map.
  abbrev collected : Result OptBlockError (Map (Block E E))
  collected = insert_all deps (insert entry.label entry [])

  collected-lem : insert_all (entry ∷ deps) [] ≡ collected
  unfolding insert_all
  collected-lem = refl

  Whole-same :
      {m n : Map (Block E E)} → ((l : BlockLabel) → lookup l m ≡ lookup l n) → Whole m → Whole n
  Whole-same same (ending, met) = (AlwaysEnds-same same ending, λ b m. Reaches-same same (met b m))

  found_lem :
      {blocks : Map (Block E E)}
      → Inserted (entry ∷ deps) [] blocks
      → (l : BlockLabel) → lookup l blocks ≡ lookup l (parts (entry ∷ deps))
  found_lem i l = i.found l ∙ ap (lookup l) (append-nil (parts (entry ∷ deps)))

  pub validate_opt_block_iff :
      (validate_opt_block entry deps ≡ some (ok tt))
      ↔ (HasOwnLabels (entry ∷ deps) × Whole (parts (entry ∷ deps)))
  unfolding validate_opt_block check_blocks
  validate_opt_block_iff = (
    λ h. elim (Result-cases collected) [
      | inl (blocks, e) ↦
          let i = insert_all-Inserted (entry ∷ deps) [] blocks (collected-lem ∙ e) in
          let whole = (walked-Whole blocks).0 (rw e at h) in (i.own, Whole-same (found_lem i) whole)
      | inr (x, e) ↦ absurd (let bad = rw e at h in cc)
    ],
    λ (own, whole).
        let (blocks, e) = insert_all-succeeds (entry ∷ deps) [] own (λ b m. refl) in
        let i = insert_all-Inserted (entry ∷ deps) [] blocks e in
        rw (sym collected-lem ∙ e)
          ((walked-Whole blocks).1 (Whole-same (λ l. sym (found_lem i l)) whole)),
  )

  -- The validation returns: the depth suffices for any fragment.
  pub validate_opt_block-returns :
      (r : Check OptBlockError) × (validate_opt_block entry deps ≡ some r)
  unfolding validate_opt_block check_blocks check_walk
  validate_opt_block-returns = answered collected
    where
      decided :
          (r : Bool × Walked)
          → (c : Check OptBlockError) × (check_walk entry deps (some r) ≡ some c)
      decided (true, w) = (_, refl)
      decided (false, w) = (_, refl)

      answered :
          (c : Result OptBlockError (Map (Block E E)))
          → (r : Check OptBlockError) × (check_blocks entry deps c ≡ some r)
      answered (err x) = (err x, refl)
      answered (ok blocks) =
          let (r, ran) = walk-returns blocks entry.label nothing_walked in rw ran (decided r)

  -- The validation returns for any fragment. It accepts exactly if the labels are distinct, each path
  -- from the entry stays in the fragment until after finitely many blocks it falls through, and paths
  -- from the entry reach every dependency.
  pub validate_opt_block-decides :
      (r : Check OptBlockError) × (validate_opt_block entry deps ≡ some r)
      × ((r ≡ ok tt) ↔ (HasOwnLabels (entry ∷ deps) × Whole (parts (entry ∷ deps))))
  validate_opt_block-decides =
      let (r, ran) = validate_opt_block-returns in
      (
        r,
        ran,
        (
          λ e. validate_opt_block_iff.0 (ran ∙ ap some e),
          λ whole. let e : some r ≡ some (ok tt) = sym ran ∙ validate_opt_block_iff.1 whole in cc e,
        ),
      )

-- ===== src/Instrument/Fragment/Labels.antt =====
-- The fragment's blocks by label (soac-blockpy/src/passes/instrument.rs).
use diet_python.Prelude.{
  ◌==◌, false, none, List, [], ◌∷◌, ◌++◌, Memᴰ, Map, lookup, insert, ◌≡◌, ◌≢◌, refl, sym, ap, ◌∙◌,
  inl, inr, arith, Bool-cases, Option-cases, ==_iff, ok,
}
use diet_python.Prelude.Memᴰ
use diet_python.Ir.Label.{BlockLabel}
use diet_python.Ir.Block.{Block}
use diet_python.Instrument.Fragment.{insert_all}
use diet_python.Instrument.Fragment.Paths.{parts}

module _ {ℓ} {E : Type ℓ} where
  -- No two of the blocks share a label.
  pub data HasOwnLabels : List (Block E E) → Type ℓ where
    none_left : HasOwnLabels []
    one_more :
        {b : Block E E} {bs : List (Block E E)}
        → ((c : Block E E) → Memᴰ c bs → b.label ≢ c.label)
        → HasOwnLabels bs
        → HasOwnLabels (b ∷ bs)

  lookup-past :
      (l k : BlockLabel) (b : Block E E) (xs m : Map (Block E E))
      → (k == l) ≡ false
      → lookup l (xs ++ (k, b) ∷ m) ≡ lookup l (xs ++ m)
  lookup-past l k b [] m e = rw e refl
  lookup-past l k b ((j, c) ∷ xs) m e = ground (arith, lookup-past l k b xs m e)

  lookup-parts-below :
      (l : BlockLabel) (bs : List (Block E E)) (m : Map (Block E E))
      → ((c : Block E E) → Memᴰ c bs → l ≢ c.label)
      → lookup l (parts bs ++ m) ≡ lookup l m
  lookup-parts-below l [] m other = refl
  lookup-parts-below l (c ∷ bs) m other = elim (Bool-cases (c.label == l)) [
    | inl e ↦ absurd (other c (Memᴰ.head refl) (sym ((==_iff c.label l).0 e)))
    | inr e ↦ rw e (lookup-parts-below l bs m (λ d at. other d (Memᴰ.tail at)))
  ]

  abbrev Unused : List (Block E E) → Map (Block E E) → Type ℓ
  Unused bs m = (b : Block E E) → Memᴰ b bs → lookup b.label m ≡ none

  -- A label that is not in the map after an insertion is another label, and was not in it before.
  unused_before :
      (k l : BlockLabel) (b : Block E E) (m : Map (Block E E))
      → lookup l (insert k b m) ≡ none
      → (k ≢ l) × (lookup l m ≡ none)
  unused_before k l b m h = elim (Bool-cases (k == l)) [
    | inl e ↦ absurd (ground arith)
    | inr e ↦ (λ p. ground arith, rw e at h)
  ]

  pub record Inserted (bs : List (Block E E)) (m m' : Map (Block E E)) : Type ℓ where
    pub own : HasOwnLabels bs
    pub unused : Unused bs m
    pub found : (l : BlockLabel) → lookup l m' ≡ lookup l (parts bs ++ m)

  pub insert_all-Inserted :
      (bs : List (Block E E)) (m m' : Map (Block E E)) → insert_all bs m ≡ ok m' → Inserted bs m m'
  unfolding insert_all
  insert_all-Inserted [] m m' h = record {
    own = none_left;
    unused = λ b at. absurd (Memᴰ.not-nil at);
    found = λ l. let e : m ≡ m' = cc h in ap (lookup l) (sym e);
  }
  insert_all-Inserted (b ∷ bs) m m' h = elim (Option-cases (lookup b.label m)) [
    | inr (old, at) ↦ absurd (let bad = rw (at, insert_all) at h in cc)
    | inl new ↦
        let i = insert_all-Inserted bs (insert b.label b m) m' (rw (new, insert_all) at h) in
        let others : (c : Block E E) → Memᴰ c bs → b.label ≢ c.label =
          λ c at. (unused_before b.label c.label b m (i.unused c at)).0 in
        record {
          own = one_more others i.own;
          unused = λ c at. elim (Memᴰ.cases_cons at) [
            | inl e ↦ rw e new
            | inr later ↦ (unused_before b.label c.label b m (i.unused c later)).1
          ];
          found = λ l. i.found l ∙ (elim (Bool-cases (b.label == l)) [
            | inl e ↦
                let same : b.label ≡ l = (==_iff b.label l).0 e in
                rw e (
                  lookup-parts-below l bs (insert b.label b m) (λ c at p. others c at (same ∙ p))
                  ∙ rw e refl)
            | inr e ↦ rw e (lookup-past l b.label b (parts bs) m e)
          ]);
        }
  ]

  pub insert_all-succeeds :
      (bs : List (Block E E)) (m : Map (Block E E))
      → HasOwnLabels bs
      → Unused bs m
      → (m' : Map (Block E E)) × (insert_all bs m ≡ ok m')
  unfolding insert_all
  insert_all-succeeds [] m own unused = (m, refl)
  insert_all-succeeds (b ∷ bs) m (one_more others own) unused =
      rw (unused b (Memᴰ.head refl), insert_all)
        (insert_all-succeeds bs (insert b.label b m) own (λ c at.
          elim (Bool-cases (b.label == c.label)) [
            | inl e ↦ absurd (others c at ((==_iff b.label c.label).0 e))
            | inr e ↦ rw e (unused c (Memᴰ.tail at))
          ]))

-- ===== src/Cfg/Fold.antt =====
-- `fold_jumps_to_trivial_none_return_blockpy` (cfg.rs). `is_none` is the instruction type's
-- `is_implicit_none_expr`.
use diet_python.Ir.Label.{BlockLabel}
use diet_python.Prelude.Memᴰ
use diet_python.Prelude.{
  arith, refl, inr, ap, inl, Option-cases, lookup-from_pairs-none, lookup-from_pairs, retain-mem,
  mem-retain, ◌≡◌, Memᴰ, ℕ, Bool, true, false, ◌&&◌, none, some, List, [], ◌∷◌, map, retain, lookup,
  from_pairs, Map,
}
use diet_python.Ir.Block.{BlockEdge, Block, BlockTerm, jump, return}

unfoldable pub returns_none {ℓ} : {E : Type ℓ} → (E → Bool) → BlockTerm E → Bool
returns_none is_none (return e) = is_none e
returns_none is_none _ = false

unfoldable pub is_empty {ℓ} : {B : Type ℓ} → List B → Bool
is_empty [] = true
is_empty (_ ∷ _) = false

unfoldable pub fold_term {ℓ} : {E : Type ℓ} → Map (BlockTerm E) → BlockTerm E → BlockTerm E
fold_term table (jump e) = elim (lookup e.target table) [ none ↦ jump e | some t ↦ t ]
fold_term table t = t

module _ {ℓ κ} {B : Type ℓ} {E : Type κ} (is_none : E → Bool) where
  unfoldable pub is_trivial : Block B E → Bool
  is_trivial b = is_empty b.body && returns_none is_none b.term

  abbrev pub label_term : Block B E → ℕ × BlockTerm E
  label_term b = (b.label, b.term)

  -- `trivial_ret_none_terms`
  unfoldable pub trivial_terms : List (Block B E) → Map (BlockTerm E)
  trivial_terms bs = from_pairs (map label_term (retain is_trivial bs)) []

  unfoldable pub fold_block : Map (BlockTerm E) → Block B E → Block B E
  fold_block table b = record b { term = fold_term table b.term }

  unfoldable pub fold_jumps : List (Block B E) → List (Block B E)
  fold_jumps bs = map (fold_block (trivial_terms bs)) bs

  -- A block of the list that has no instruction and returns the implicit none.
  pub record TrivialAt (bs : List (Block B E)) (l : BlockLabel) (t : BlockTerm E)
      : Type (ℓ ⊔ κ) where
    pub block : Block B E
    pub member : Memᴰ block bs
    pub label : block.label ≡ l
    pub trivial : is_trivial block ≡ true
    pub term : block.term ≡ t

  -- What the table says of a label.
  lookup-trivial_terms :
      (bs : List (Block B E)) (l : BlockLabel) (t : BlockTerm E)
      → lookup l (trivial_terms bs) ≡ some t
      → TrivialAt bs l t
  unfolding trivial_terms
  lookup-trivial_terms bs l t h =
      elim (lookup-from_pairs l (map label_term (retain is_trivial bs)) [] t h) [
        | inl found ↦
            let (b, m, e) = Memᴰ.of_map label_term (retain is_trivial bs) found in
            let (member, trivial) = retain-mem is_trivial bs m in
            record {
              block = b;
              member = member;
              label = ap (λ q. q.0) e;
              trivial = trivial;
              term = ap (λ q. q.1) e;
            }
        | inr empty ↦ absurd (cc)
      ]

  lookup-trivial_terms-none :
      (bs : List (Block B E)) (l : BlockLabel) (t : BlockTerm E)
      → lookup l (trivial_terms bs) ≡ none
      → ¬ TrivialAt bs l t
  unfolding trivial_terms
  lookup-trivial_terms-none bs l t h at_l =
      (lookup-from_pairs-none l (map label_term (retain is_trivial bs)) [] h).1 at_l.block.term (
        rw (← at_l.label) (Memᴰ.map label_term (mem-retain is_trivial bs at_l.member at_l.trivial)))

  -- What one block becomes.
  pub data Folds (bs : List (Block B E)) (b : Block B E) : BlockTerm E → Type (ℓ ⊔ κ) where
    folded :
        {e : BlockEdge} {t : BlockTerm E} → b.term ≡ jump e → TrivialAt bs e.target t → Folds bs b t
    kept :
        ((e : BlockEdge) (t : BlockTerm E) → b.term ≡ jump e → ¬ TrivialAt bs e.target t)
        → Folds bs b b.term

  -- Block by block, with nothing but the terminator changed.
  pub data FoldsAll (bs : List (Block B E))
      : List (Block B E) → List (Block B E) → Type (ℓ ⊔ κ) where
    end : FoldsAll bs [] []
    next :
        {b : Block B E} {t : BlockTerm E} {xs ys : List (Block B E)}
        → Folds bs b t
        → FoldsAll bs xs ys
        → FoldsAll bs (b ∷ xs) (record b { term = t } ∷ ys)

  fold_term-Folds :
      (bs : List (Block B E)) (b : Block B E) (t : BlockTerm E)
      → b.term ≡ t
      → Folds bs b (fold_term (trivial_terms bs) t)
  unfolding fold_term
  fold_term-Folds bs b (jump e) p = elim (Option-cases (lookup e.target (trivial_terms bs))) [
    | inl missing ↦
        rw (missing, fold_term)
          (rw (← p)
            (kept (λ e' t q. lookup-trivial_terms-none bs _ t (rw (targets e' q) at missing))))
    | inr (t, found) ↦ rw (found, fold_term) (folded p (lookup-trivial_terms bs e.target t found))
  ]
    where
      targets : (e' : BlockEdge) → b.term ≡ jump e' → e.target ≡ e'.target
      targets e' q = ground arith
  fold_term-Folds bs b _ p = rw (← p) (kept (λ e t q. absurd (cc)))

  map-FoldsAll :
      (bs xs : List (Block B E)) → FoldsAll bs xs (map (fold_block (trivial_terms bs)) xs)
  unfolding fold_block
  map-FoldsAll bs [] = end
  map-FoldsAll bs (b ∷ xs) = next (fold_term-Folds bs b b.term refl) (map-FoldsAll bs xs)

  -- Each block keeps its label, body, parameters and exception edge. Its terminator changes exactly
  -- if it is a jump to the label of a block with no instructions that returns the implicit none: it
  -- becomes the terminator of such a block.
  pub fold_jumps-FoldsAll : (bs : List (Block B E)) → FoldsAll bs bs (fold_jumps bs)
  unfolding fold_jumps
  fold_jumps-FoldsAll bs = map-FoldsAll bs bs

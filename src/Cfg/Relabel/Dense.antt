-- ===== src/Cfg/Relabel/Dense.antt =====
-- Dense relabelling returns, and its labels are positions (cfg.rs).
use diet_python.Prelude.{
  >>=-eq-some, ℕ, suc, ◌+◌, ◌≤◌, ◌^◌, ◌≡◌, refl, inl, inr, Option, none, some, List, [], ◌∷◌,
  lookup, from_pairs, traverse_total, Forall₂-get_elem?, get_elem?, Memᴰ, lookup-from_pairs-none,
  arith, subst, length, Option-cases,
}
use diet_python.Prelude.Memᴰ
use diet_python.Ir.Label.{BlockLabel, from_index}
use diet_python.Ir.Block.{
  Block, BlockEdge, BlockTerm, jump, if_term, branch_table, raise, return, successors,
}
use diet_python.Cfg.Relabel.{
  relabel_edge, relabel_exc_edge, relabel_targets, numbered, relabel_block, relabel_dense,
}
use diet_python.Cfg.Relabel.Correct.{relabel_dense-BlockNames}

-- No two positions have the same label.
abbrev pub IsDistinct {ℓ κ} : {B : Type ℓ} {E : Type κ} → List (Block B E) → Type (ℓ ⊔ κ)
IsDistinct {B = B} {E = E} bs =
    (i j : ℕ) (b c : Block B E)
    → get_elem? bs i ≡ some b
    → get_elem? bs j ≡ some c
    → b.label ≡ c.label
    → i ≡ j

-- If the labels were distinct, then after relabelling the block at each position has that position
-- as its label.
pub relabel_dense-labels {ℓ κ} :
    {B : Type ℓ} {E : Type κ} (bs : List (Block B E)) {bs' : List (Block B E)}
    → IsDistinct bs
    → relabel_dense bs ≡ some bs'
    → (i : ℕ) {b' : Block B E} → get_elem? bs' i ≡ some b'
    → b'.label ≡ i
relabel_dense-labels bs distinct h i {b'} at =
    let (b, here, names) = Forall₂-get_elem? (relabel_dense-BlockNames bs h) i at in
    distinct b'.label i names.label.block b names.label.position here names.label.label

numbered_total {ℓ κ} :
    {B : Type ℓ} {E : Type κ} (i : ℕ) (xs : List (Block B E))
    → i + length xs ≤ 2 ^ 32
    → (pairs : List (ℕ × BlockLabel)) × (numbered i xs ≡ some pairs)
unfolding numbered from_index
numbered_total i [] h = ([], refl)
numbered_total i (b ∷ xs) h =
    let (rest, p) = numbered_total (suc i) xs (omega arith) in ((b.label, i) ∷ rest, ground arith)

-- Every label of the list is a key of the pairs.
numbered-keys {ℓ κ} :
    {B : Type ℓ} {E : Type κ} (i : ℕ) (xs : List (Block B E)) {pairs : List (ℕ × BlockLabel)}
    → numbered i xs ≡ some pairs
    → {b : Block B E} → Memᴰ b xs
    → (k : ℕ) × Memᴰ (b.label, k) pairs
unfolding numbered from_index
numbered-keys i [] h m = absurd (Memᴰ.not-nil m)
numbered-keys i (x ∷ xs) {pairs} h {b} m =
    let (lab, p, q) = >>=-eq-some (from_index i) _ h in
    let (rest, r, e) = >>=-eq-some (numbered (suc i) xs) _ q in
    elim (Memᴰ.cases_cons m) [
      | inl here ↦
          let m' : Memᴰ (b.label, lab) ((x.label, lab) ∷ rest) = Memᴰ.head (rw here refl) in
          (lab, subst (Memᴰ (b.label, lab)) (cc) m')
      | inr later ↦
          let (k, found) = numbered-keys (suc i) xs r later in
          let m' : Memᴰ (b.label, k) ((x.label, lab) ∷ rest) = Memᴰ.tail found in
          (k, subst (Memᴰ (b.label, k)) (cc) m')
    ]

module _ {ℓ κ} {B : Type ℓ} {E : Type κ} (bs : List (Block B E)) where
  -- A block of the list has the label.
  pub record IsLabel (l : BlockLabel) : Type (ℓ ⊔ κ) where
    pub block : Block B E
    pub member : Memᴰ block bs
    pub label : block.label ≡ l

  -- The terminator's targets and the target of the exception edge are labels of blocks.
  pub record IsClosed (b : Block B E) : Type (ℓ ⊔ κ) where
    pub targets : (l : BlockLabel) → Memᴰ l (successors b.term) → IsLabel l
    pub handler : (e : BlockEdge) → b.exc_edge ≡ some e → IsLabel e.target

  module _ {pairs : List (ℕ × BlockLabel)} (ran : numbered 0 bs ≡ some pairs) where
    lookup_total :
        {l : BlockLabel} → IsLabel l → (k : BlockLabel) × (lookup l (from_pairs pairs []) ≡ some k)
    lookup_total {l} known = elim (Option-cases (lookup l (from_pairs pairs []))) [
      | inl missing ↦
          let (k, m) = numbered-keys 0 bs ran known.member in
          absurd (
            (lookup-from_pairs-none l pairs [] missing).1 k
              (subst (λ x. Memᴰ (x, k) pairs) known.label m))
      | inr found ↦ found
    ]

    edge_total :
        (e : BlockEdge)
        → IsLabel e.target
        → (e' : BlockEdge) × (relabel_edge (from_pairs pairs []) e ≡ some e')
    unfolding relabel_edge
    edge_total e known = let (l, p) = lookup_total known in (record e { target = l }, rw p refl)

    exc_total :
        (e : Option BlockEdge)
        → ((x : BlockEdge) → e ≡ some x → IsLabel x.target)
        → (e' : Option BlockEdge) × (relabel_exc_edge (from_pairs pairs []) e ≡ some e')
    unfolding relabel_exc_edge
    exc_total none known = (none, refl)
    exc_total (some e) known = let (x, p) = edge_total e (known e refl) in (some x, rw p refl)

    term_total :
        (t : BlockTerm E)
        → ((l : BlockLabel) → Memᴰ l (successors t) → IsLabel l)
        → (t' : BlockTerm E) × (relabel_targets (from_pairs pairs []) t ≡ some t')
    unfolding relabel_targets successors
    term_total (jump e) known =
        let (x, p) = edge_total e (known e.target (Memᴰ.head refl)) in (jump x, rw p refl)
    term_total (if_term t a b) known =
        let (a', p) = lookup_total (known a (Memᴰ.head refl)) in
        let (b', q) = lookup_total (known b (Memᴰ.tail (Memᴰ.head refl))) in
        (if_term t a' b', rw p (rw q refl))
    term_total (branch_table i ts d) known =
        let (ts', p) =
          traverse_total (λ t. lookup t (from_pairs pairs [])) ts
            (λ t m. lookup_total (known t (Memᴰ.append_left (d ∷ []) m))) in
        let (d', q) = lookup_total (known d (Memᴰ.append_right ts (Memᴰ.head refl))) in
        (branch_table i ts' d', rw p (rw q refl))
    term_total (raise x) known = (raise x, refl)
    term_total (return x) known = (return x, refl)

    block_total :
        (b : Block B E)
        → Memᴰ b bs
        → IsClosed b
        → (b' : Block B E) × (relabel_block (from_pairs pairs []) b ≡ some b')
    unfolding relabel_block
    block_total b m closed =
        let (l, p) = lookup_total (record { block = b; member = m; label = refl }) in
        let (t, q) = term_total b.term closed.targets in
        let (e, r) = exc_total b.exc_edge closed.handler in
        (record b { label = l; term = t; exc_edge = e }, rw p (rw q (rw r refl)))

  -- Relabelling panics on no list of at most 2 ^ 32 blocks in which every target of a terminator or
  -- of an exception edge is the label of a block.
  pub relabel_dense_total :
      length bs ≤ 2 ^ 32
      → ((b : Block B E) → Memᴰ b bs → IsClosed b)
      → (bs' : List (Block B E)) × (relabel_dense bs ≡ some bs')
  unfolding relabel_dense
  relabel_dense_total fits closed =
      let (pairs, p) = numbered_total 0 bs (omega arith) in
      let (bs', q) =
        traverse_total (relabel_block (from_pairs pairs [])) bs
          (λ b m. block_total p b m (closed b m)) in
      (bs', rw p q)

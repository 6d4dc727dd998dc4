-- ===== src/Cfg/Relabel/Correct.antt =====
-- What dense relabelling does to labels and targets (cfg.rs).
use diet_python.Prelude.{
  ℕ, suc, ◌+◌, ◌≡◌, refl, sym, ap, inl, inr, Option, none, some, List, [], ◌∷◌, lookup, from_pairs,
  traverse, traverse-Forall₂, Forall₂, >>=-eq-some, get_elem?, Memᴰ, lookup-from_pairs, arith,
  subst,
}
use diet_python.Prelude.Memᴰ
use diet_python.Ir.Label.{BlockLabel, from_index}
use diet_python.Ir.Block.{Block, BlockEdge, BlockTerm, jump, if_term, branch_table, raise, return}
use diet_python.Cfg.Relabel.{
  relabel_edge, relabel_exc_edge, relabel_targets, numbered, relabel_block, relabel_dense,
}

module _ {ℓ κ} {B : Type ℓ} {E : Type κ} (bs : List (Block B E)) where
  -- The new label is the position of a block that had the old one.
  pub record Names (old new : BlockLabel) : Type (ℓ ⊔ κ) where
    pub block : Block B E
    pub position : get_elem? bs new ≡ some block
    pub label : block.label ≡ old

  pub record EdgeNames (e e' : BlockEdge) : Type (ℓ ⊔ κ) where
    pub target : Names e.target e'.target
    pub args : e'.args ≡ e.args

  -- Terminators of one shape, target by target.
  pub data TermNames : BlockTerm E → BlockTerm E → Type (ℓ ⊔ κ) where
    jumps : {e e' : BlockEdge} → EdgeNames e e' → TermNames (jump e) (jump e')
    ifs :
        {t : E} {a a' b b' : BlockLabel}
        → Names a a'
        → Names b b'
        → TermNames (if_term t a b) (if_term t a' b')
    tables :
        {i : E} {ts ts' : List BlockLabel} {d d' : BlockLabel}
        → Forall₂ Names ts ts'
        → Names d d'
        → TermNames (branch_table i ts d) (branch_table i ts' d')
    raises : {x : Option E} → TermNames (raise x) (raise x)
    returns : {x : E} → TermNames (return x) (return x)

  pub data ExcNames : Option BlockEdge → Option BlockEdge → Type (ℓ ⊔ κ) where
    no_edge : ExcNames none none
    edge : {e e' : BlockEdge} → EdgeNames e e' → ExcNames (some e) (some e')

  pub record BlockNames (b b' : Block B E) : Type (ℓ ⊔ κ) where
    pub label : Names b.label b'.label
    pub body : b'.body ≡ b.body
    pub params : b'.params ≡ b.params
    pub term : TermNames b.term b'.term
    pub exc_edge : ExcNames b.exc_edge b'.exc_edge

-- The pairs name blocks of the list that stands before them and theirs.
numbered-mem {ℓ κ} :
    {B : Type ℓ} {E : Type κ} (i : ℕ) (xs : List (Block B E)) {pairs : List (ℕ × BlockLabel)}
    → numbered i xs ≡ some pairs
    → {l k : ℕ} → Memᴰ (l, k) pairs
    → (j : ℕ) × (b : Block B E) × (k ≡ i + j) × (get_elem? xs j ≡ some b) × (b.label ≡ l)
unfolding numbered from_index
numbered-mem i [] h m = absurd (Memᴰ.not-nil (subst (Memᴰ _) (sym (cc)) m))
numbered-mem i (b ∷ xs) {pairs} h {l} {k} m =
    let (lab, p, q) = >>=-eq-some (from_index i) _ h in
    let (rest, r, e) = >>=-eq-some (numbered (suc i) xs) _ q in
    let m' : Memᴰ (l, k) ((b.label, lab) ∷ rest) = subst (Memᴰ (l, k)) (cc) m in
    elim (Memᴰ.cases_cons m') [
      | inl here ↦
          let value : lab ≡ i = ground arith in
          (0, b, omega (arith, ap (λ x. x.1) here), refl, ap (λ x. x.0) (sym here))
      | inr later ↦
          let (j, c, at, get, name) = numbered-mem (suc i) xs r later in
          (suc j, c, omega arith, get, name)
    ]

module _ {ℓ κ} {B : Type ℓ} {E : Type κ} (bs : List (Block B E)) where
  module _ {pairs : List (ℕ × BlockLabel)} (ran : numbered 0 bs ≡ some pairs) where
    lookup-Names :
        (old : BlockLabel) {new : BlockLabel}
        → lookup old (from_pairs pairs []) ≡ some new
        → Names bs old new
    lookup-Names old {new} h = elim (lookup-from_pairs old pairs [] new h) [
      | inl m ↦
          let (j, b, at, get, name) = numbered-mem 0 bs ran m in
          let same : new ≡ j = omega (arith, at) in
          record { block = b; position = rw same get; label = name }
      | inr empty ↦ absurd (cc)
    ]

    edge-Names :
        (e : BlockEdge) {e' : BlockEdge}
        → relabel_edge (from_pairs pairs []) e ≡ some e'
        → EdgeNames bs e e'
    unfolding relabel_edge
    edge-Names e h =
        let (l, p, q) = >>=-eq-some (lookup e.target (from_pairs pairs [])) _ h in
        subst (EdgeNames bs e) (cc) (record { target = lookup-Names e.target p; args = refl })

    exc-Names :
        (e : Option BlockEdge) {e' : Option BlockEdge}
        → relabel_exc_edge (from_pairs pairs []) e ≡ some e'
        → ExcNames bs e e'
    unfolding relabel_exc_edge
    exc-Names none h = subst (ExcNames bs none) (cc) no_edge
    exc-Names (some e) h =
        let (x, p, q) = >>=-eq-some (relabel_edge (from_pairs pairs []) e) _ h in
        subst (ExcNames bs (some e)) (cc) (edge (edge-Names e p))

    term-Names :
        (t : BlockTerm E) {t' : BlockTerm E}
        → relabel_targets (from_pairs pairs []) t ≡ some t'
        → TermNames bs t t'
    unfolding relabel_targets
    term-Names (jump e) h =
        let (x, p, q) = >>=-eq-some (relabel_edge (from_pairs pairs []) e) _ h in
        subst (TermNames bs (jump e)) (cc) (jumps (edge-Names e p))
    term-Names (if_term t a b) h =
        let (a', p, q) = >>=-eq-some (lookup a (from_pairs pairs [])) _ h in
        let (b', r, s) = >>=-eq-some (lookup b (from_pairs pairs [])) _ q in
        subst (TermNames bs (if_term t a b)) (cc) (ifs (lookup-Names a p) (lookup-Names b r))
    term-Names (branch_table i ts d) h =
        let (ts', p, q) = >>=-eq-some (traverse (λ t. lookup t (from_pairs pairs [])) ts) _ h in
        let (d', r, s) = >>=-eq-some (lookup d (from_pairs pairs [])) _ q in
        subst (TermNames bs (branch_table i ts d)) (cc)
          (tables (traverse-Forall₂ _ (λ x y. lookup-Names x) ts p) (lookup-Names d r))
    term-Names (raise x) h = subst (TermNames bs (raise x)) (cc) raises
    term-Names (return x) h = subst (TermNames bs (return x)) (cc) returns

    block-Names :
        (b b' : Block B E) → relabel_block (from_pairs pairs []) b ≡ some b' → BlockNames bs b b'
    unfolding relabel_block
    block-Names b b' h =
        let (l, p, h1) = >>=-eq-some (lookup b.label (from_pairs pairs [])) _ h in
        let (t, q, h2) = >>=-eq-some (relabel_targets (from_pairs pairs []) b.term) _ h1 in
        let (e, r, h3) = >>=-eq-some (relabel_exc_edge (from_pairs pairs []) b.exc_edge) _ h2 in
        subst (BlockNames bs b) (cc) (record {
          label = lookup-Names b.label p;
          body = refl;
          params = refl;
          term = term-Names b.term q;
          exc_edge = exc-Names b.exc_edge r;
        })

  -- If relabelling returns, then, block by block, body, parameters, arguments and the shape of the
  -- terminator are kept, and each label and target is the position of a block that had the old one.
  pub relabel_dense-BlockNames :
      {bs' : List (Block B E)} → relabel_dense bs ≡ some bs' → Forall₂ (BlockNames bs) bs bs'
  unfolding relabel_dense
  relabel_dense-BlockNames h =
      let (pairs, p, q) = >>=-eq-some (numbered 0 bs) _ h in
      traverse-Forall₂ (relabel_block (from_pairs pairs [])) (block-Names p) bs q

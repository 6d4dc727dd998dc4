-- ===== src/Exceptions/Lower/Total.antt =====
-- Lowering to basic blocks meets no if (bb_shape.rs, cfg.rs).
use diet_python.Prelude.{
  lookup, arith, ℕ, ◌≡◌, refl, ap, Option, none, some, List, [], ◌∷◌, ◌++◌, map, inl, inr, Map,
  String, Memᴰ, Forall₂, traverse, traverse_total, traverse-Forall₂, >>=-eq-some, subst,
}
use diet_python.Prelude.Memᴰ
use diet_python.Ir.Label.{BlockLabel}
use diet_python.Ir.Block.{Block, BlockTerm, bb_params}
use diet_python.Ir.Structured.{
  StructuredInstr, expr, if_stmt, Stmts, nil, cons, BlockBuilder, builder, of_list,
}
use diet_python.Cfg.Linearize.{
  Output, Site, emit, allocate, if_sequence, fragment, linearize_block, linearize_from,
  linearize_structured_ifs,
}
use diet_python.Exceptions.Populate.{populate_block, populate_exception_edge_args}
use diet_python.Exceptions.Lower.{
  edge_of, lowered_exception_edges, lower_stmt, lower_block, lower_structured_blocks,
}

module _ {ℓ} {E : Type ℓ} where
  -- A body without ifs.
  abbrev Plain : Block (StructuredInstr E) E → Type ℓ
  Plain b = (es : List E) × (b.body ≡ map expr es)

  abbrev AllPlain : Output E → Type ℓ
  AllPlain out = (b : Block (StructuredInstr E) E) → Memᴰ b out.blocks → Plain b

  emit-AllPlain :
      (site : Site) (label : BlockLabel) (body : List E) (t : BlockTerm E) (out : Output E)
      → AllPlain out
      → AllPlain (emit site label body t out)
  unfolding emit
  emit-AllPlain site label body t out all b m = elim (Memᴰ.append_cases out.blocks m) [
    | inl old ↦ all b old
    | inr new ↦ elim (Memᴰ.cases_cons new) [
      | inl e ↦ (body, ap (λ (x : Block (StructuredInstr E) E). x.body) e)
      | inr never ↦ absurd (Memᴰ.not-nil never)
    ]
  ]

  mutual
    unfolding if_sequence allocate

    if_sequence-AllPlain :
        (site : Site) (label : BlockLabel) (before : List E) (stmts : Stmts E) (t : BlockTerm E)
        (out : Output E)
        → AllPlain out
        → AllPlain (if_sequence site label before stmts t out)
    if_sequence-AllPlain site label before nil t out all = emit-AllPlain site label before t out all
    if_sequence-AllPlain site label before (cons (expr e) rest) t out all =
        if_sequence-AllPlain site label (before ++ e ∷ []) rest t out all
    if_sequence-AllPlain site label before (cons (if_stmt test body orelse) nil) t out all =
        fragment-AllPlain site _ orelse _ _
          (fragment-AllPlain site _ body _ _ (emit-AllPlain site label before _ _ all))
    if_sequence-AllPlain site label before (cons (if_stmt test body orelse) (cons next rest)) t out
          all =
        if_sequence-AllPlain site _ [] (cons next rest) t _ (
          fragment-AllPlain site _ orelse _ _
            (fragment-AllPlain site _ body _ _ (emit-AllPlain site label before _ _ all)))

    fragment-AllPlain :
        (site : Site) (label : BlockLabel) (b : BlockBuilder E) (t : BlockTerm E) (out : Output E)
        → AllPlain out
        → AllPlain (fragment site label b t out)
    fragment-AllPlain site label (builder body none) t out =
        if_sequence-AllPlain site label [] body t out
    fragment-AllPlain site label (builder body (some own)) t out =
        if_sequence-AllPlain site label [] body own out

  linearize_from-AllPlain :
      (bp : Map (List String)) (ee : Map (Option BlockLabel))
      (bs : List (Block (StructuredInstr E) E)) (out : Output E)
      → AllPlain out
      → AllPlain (linearize_from bp ee bs out)
  unfolding linearize_from linearize_block
  linearize_from-AllPlain bp ee [] out all = all
  linearize_from-AllPlain bp ee (b ∷ bs) out all =
      linearize_from-AllPlain bp ee bs _
        (if_sequence-AllPlain _ b.label [] (of_list b.body) b.term out all)

  -- A basic block has the label, the instructions and the terminator of the linearized block.
  pub record IsLowered (b : Block (StructuredInstr E) E) (b' : Block E E) : Type ℓ where
    pub label : b'.label ≡ b.label
    pub body : b.body ≡ map expr b'.body
    pub term : b'.term ≡ b.term
    pub params : b'.params ≡ bb_params b.params

  lower_stmts-exprs : (es : List E) → traverse lower_stmt (map expr es) ≡ some es
  unfolding lower_stmt
  lower_stmts-exprs [] = refl
  lower_stmts-exprs (e ∷ es) = rw (lower_stmts-exprs es) refl

  lower_block_total :
      (edges : Map (Option BlockLabel)) (b : Block (StructuredInstr E) E)
      → Plain b
      → (b' : Block E E) × (lower_block edges b ≡ some b')
  unfolding lower_block
  lower_block_total edges b (es, e) =
      let b' : Block E E = record {
        label = b.label;
        body = es;
        term = b.term;
        params = bb_params b.params;
        exc_edge = edge_of (lookup b.label edges);
      } in
      (b', rw e (rw (lower_stmts-exprs es) refl))

  stmts-IsLowered :
      (stmts : List (StructuredInstr E)) {es : List E}
      → traverse lower_stmt stmts ≡ some es
      → stmts ≡ map expr es
  unfolding lower_stmt
  stmts-IsLowered [] {es} h = let same : [] ≡ es = cc h in subst (λ es. [] ≡ map expr es) same refl
  stmts-IsLowered (x ∷ stmts) {es} h =
      let (e, p, q) = >>=-eq-some (lower_stmt x) _ h in
      let (rest, r, s) = >>=-eq-some (traverse lower_stmt stmts) _ q in
      let same : e ∷ rest ≡ es = cc s in
      subst (λ es. x ∷ stmts ≡ map expr es) same (ap2 x e (stmt-is x p) (stmts-IsLowered stmts r))
    where
      stmt-is : (x : StructuredInstr E) {e : E} → lower_stmt x ≡ some e → x ≡ expr e
      stmt-is (expr e) h = let same : some e ≡ some _ = h in cc
      stmt-is (if_stmt t b o) h = absurd (ground arith)

      ap2 :
          (x : StructuredInstr E) (e : E) {xs ys : List (StructuredInstr E)}
          → x ≡ expr e
          → xs ≡ ys
          → x ∷ xs ≡ expr e ∷ ys
      ap2 x e p q = cc

  block-IsLowered :
      (edges : Map (Option BlockLabel)) (b : Block (StructuredInstr E) E) (b' : Block E E)
      → lower_block edges b ≡ some b'
      → IsLowered b b'
  unfolding lower_block
  block-IsLowered edges b b' h =
      let (es, p, q) = >>=-eq-some (traverse lower_stmt b.body) _ h in
      let made : Block E E = record {
        label = b.label;
        body = es;
        term = b.term;
        params = bb_params b.params;
        exc_edge = edge_of (lookup b.label edges);
      } in
      let same : made ≡ b' = cc q in
      subst (IsLowered b) same
        (record { label = refl; body = stmts-IsLowered b.body p; term = refl; params = refl })

  populate-IsLowered :
      (all : List (Block E E)) {bs : List (Block (StructuredInstr E) E)} {bs' : List (Block E E)}
      → Forall₂ IsLowered bs bs'
      → Forall₂ IsLowered bs (map (populate_block all) bs')
  unfolding populate_block
  populate-IsLowered all Forall₂.nil = Forall₂.nil
  populate-IsLowered all (Forall₂.cons h rest) =
      Forall₂.cons (record { label = h.label; body = h.body; term = h.term; params = h.params })
        (populate-IsLowered all rest)

  -- Lowering never meets an if: it gives one basic block for each linearized block, in their order,
  -- with the label, the instructions, the terminator and the grouped parameters of that block.
  pub lower_structured_blocks-IsLowered :
      (next : ℕ) (bs : List (Block (StructuredInstr E) E))
      → (bbs : List (Block E E)) × (lower_structured_blocks next bs ≡ some bbs)
        × Forall₂ IsLowered
            (linearize_structured_ifs next bs [] (lowered_exception_edges bs)).blocks
            bbs
  unfolding lower_structured_blocks linearize_structured_ifs populate_exception_edge_args
  lower_structured_blocks-IsLowered next bs =
      let linear = linearize_structured_ifs next bs [] (lowered_exception_edges bs) in
      let plain =
        linearize_from-AllPlain [] (lowered_exception_edges bs) bs _
          (λ b m. absurd (Memᴰ.not-nil m)) in
      let (bbs, p) =
        traverse_total (lower_block linear.exception_edges) linear.blocks
          (λ b m. lower_block_total linear.exception_edges b (plain b m)) in
      (
        populate_exception_edge_args bbs,
        rw (p, lower_structured_blocks) refl,
        populate-IsLowered bbs (
            traverse-Forall₂ (lower_block linear.exception_edges)
              (block-IsLowered linear.exception_edges) linear.blocks p),
      )

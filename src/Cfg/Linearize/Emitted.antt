-- ===== src/Cfg/Linearize/Emitted.antt =====
-- The blocks that linearization emits, and that it keeps those it emitted (cfg.rs).
use diet_python.Prelude.{◌≡◌, refl, none, some, List, [], ◌∷◌, ◌++◌, inl, inr, Memᴰ, ⊎-cases, arith}
use diet_python.Prelude.Memᴰ
use diet_python.Ir.Label.{BlockLabel}
use diet_python.Ir.Block.{Block, BlockTerm, if_term}
use diet_python.Ir.Structured.{
  StructuredInstr, expr, if_stmt, Stmts, nil, cons, BlockBuilder, builder,
}
use diet_python.Cfg.Linearize.{
  of_list, Option, String, Map, linearize_block, linearize_from, suc, Output, Site, emit, allocate,
  if_sequence, fragment,
}
use diet_python.Cfg.Linearize.Run.{Machine, raises, run_list, Holds, Reaches, fail}

module _ {ℓ} {E : Type ℓ} where
  -- Every block of the first output is a block of the second.
  abbrev pub Keeps : Output E → Output E → Type ℓ
  Keeps out out' = (b : Block (StructuredInstr E) E) → Memᴰ b out.blocks → Memᴰ b out'.blocks

  pub emit-Keeps :
      (site : Site) (label : BlockLabel) (body : List E) (t : BlockTerm E) (out : Output E)
      → Keeps out (emit site label body t out)
  unfolding emit
  emit-Keeps site label body t out b h = Memᴰ.append_left _ h

  mutual
    unfolding if_sequence allocate

    pub if_sequence-Keeps :
        (site : Site) (label : BlockLabel) (before : List E) (stmts : Stmts E) (t : BlockTerm E)
        (out : Output E)
        → Keeps out (if_sequence site label before stmts t out)
    if_sequence-Keeps site label before nil t out b h = emit-Keeps site label before t out b h
    if_sequence-Keeps site label before (cons (expr e) rest) t out b h =
        if_sequence-Keeps site label (before ++ e ∷ []) rest t out b h
    if_sequence-Keeps site label before (cons (if_stmt test body orelse) nil) t out b h =
        fragment-Keeps site _ orelse _ _ b
          (fragment-Keeps site _ body _ _ b (emit-Keeps site label before _ _ b h))
    if_sequence-Keeps site label before (cons (if_stmt test body orelse) (cons next rest)) t out b
          h =
        if_sequence-Keeps site _ [] (cons next rest) t _ b (
          fragment-Keeps site _ orelse _ _ b
            (fragment-Keeps site _ body _ _ b (emit-Keeps site label before _ _ b h)))

    pub fragment-Keeps :
        (site : Site) (label : BlockLabel) (b : BlockBuilder E) (t : BlockTerm E) (out : Output E)
        → Keeps out (fragment site label b t out)
    fragment-Keeps site label (builder body none) t out = if_sequence-Keeps site label [] body t out
    fragment-Keeps site label (builder body (some own)) t out =
        if_sequence-Keeps site label [] body own out

  pub linearize_from-Keeps :
      (bp : Map (List String)) (ee : Map (Option BlockLabel))
      (bs : List (Block (StructuredInstr E) E)) (out : Output E)
      → Keeps out (linearize_from bp ee bs out)
  unfolding linearize_from linearize_block
  linearize_from-Keeps bp ee [] out b h = h
  linearize_from-Keeps bp ee (x ∷ xs) out b h =
      linearize_from-Keeps bp ee xs _ b
        (if_sequence-Keeps _ x.label [] (of_list x.body) x.term out b h)

module _ {ℓ} {E : Type ℓ} (m : Machine E) where
  open m use {State, exec}

  pub run_list-snoc :
      (es : List E) (e : E) (s0 s : State)
      → run_list m es s0 ≡ inr s
      → run_list m (es ++ e ∷ []) s0 ≡ exec e s
  unfolding run_list
  run_list-snoc [] e s0 s h = ground arith
  run_list-snoc (x ∷ es) e s0 s h = elim (⊎-cases (exec x s0)) [
    | inl (s1, p) ↦ ground arith
    | inr (s1, p) ↦ rw p (run_list-snoc es e s1 s (rw (p, run_list) at h))
  ]

  pub run_list-raised :
      (es : List E) (e : E) (s0 s : State)
      → run_list m es s0 ≡ inl s
      → run_list m (es ++ e ∷ []) s0 ≡ inl s
  unfolding run_list
  run_list-raised [] e s0 s h = cc
  run_list-raised (x ∷ es) e s0 s h = elim (⊎-cases (exec x s0)) [
    | inl (s1, p) ↦ ground arith
    | inr (s1, p) ↦ rw p (run_list-raised es e s1 s (rw (p, run_list) at h))
  ]

module _ {ℓ} {E : Type ℓ} (m : Machine E) (bs : List (Block (StructuredInstr E) E)) where
  open m use {State, exec, ask}

  abbrev pub Within : Output E → Type ℓ
  Within out = (b : Block (StructuredInstr E) E) → Memᴰ b out.blocks → Memᴰ b bs

  pub emit-Holds :
      (site : Site) (label : BlockLabel) (body : List E) (t : BlockTerm E) (out : Output E)
      → Within (emit site label body t out)
      → Holds m bs label body t
  unfolding emit
  emit-Holds site label body t out inside = record {
    block = _;
    member = inside _ (Memᴰ.append_right out.blocks (Memᴰ.head refl));
    label = refl;
    body = refl;
    term = refl;
  }

  -- The block of the last if, and of an if that a join block follows.
  pub last_if-Holds :
      (site : Site) (label : BlockLabel) (before : List E) (test : E) (body orelse : BlockBuilder E)
      (t : BlockTerm E) (out : Output E)
      → Within (if_sequence site label before (cons (if_stmt test body orelse) nil) t out)
      → Holds m bs label before (if_term test out.next_block_id (suc out.next_block_id))
  unfolding if_sequence allocate
  last_if-Holds site label before test body orelse t out inside =
      emit-Holds site label before _ _
        (λ b h. inside b (fragment-Keeps site _ orelse _ _ b (fragment-Keeps site _ body _ _ b h)))

  pub join_if-Holds :
      (site : Site) (label : BlockLabel) (before : List E) (test : E) (body orelse : BlockBuilder E)
      (next : StructuredInstr E) (rest : Stmts E) (t : BlockTerm E) (out : Output E)
      → Within
          (if_sequence site label before (cons (if_stmt test body orelse) (cons next rest)) t out)
      → Holds m bs label before (if_term test out.next_block_id (suc out.next_block_id))
  unfolding if_sequence allocate
  join_if-Holds site label before test body orelse next rest t out inside =
      emit-Holds site label before _ _ (λ b h. inside b (
        if_sequence-Keeps site _ [] (cons next rest) t _ b
          (fragment-Keeps site _ orelse _ _ b (fragment-Keeps site _ body _ _ b h))))

  -- An exception before the instructions that are still to be read.
  pub raised-Reaches :
      (site : Site) (label : BlockLabel) (before : List E) (stmts : Stmts E) (t : BlockTerm E)
      (out : Output E)
      → Within (if_sequence site label before stmts t out)
      → (s0 s : State) → run_list m before s0 ≡ inl s
      → Reaches m bs label s0 (raises s)
  unfolding if_sequence
  raised-Reaches site label before nil t out inside s0 s h =
      fail (emit-Holds site label before t out inside) h
  raised-Reaches site label before (cons (expr e) rest) t out inside s0 s h =
      raised-Reaches site label (before ++ e ∷ []) rest t out inside s0 s
        (run_list-raised m before e s0 s h)
  raised-Reaches site label before (cons (if_stmt test body orelse) nil) t out inside s0 s h =
      fail (last_if-Holds site label before test body orelse t out inside) h
  raised-Reaches site label before (cons (if_stmt test body orelse) (cons next rest)) t out inside
        s0 s h =
      fail (join_if-Holds site label before test body orelse next rest t out inside) h

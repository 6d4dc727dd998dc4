-- ===== src/Cfg/Linearize/Simulation.antt =====
-- Linearization keeps what a body does (cfg.rs).
use diet_python.Prelude.{
  ◌≡◌, refl, true, false, none, some, List, [], ◌∷◌, ◌++◌, inl, inr, Memᴰ, ⊎-cases, ◌∙◌,
}
use diet_python.Prelude.Memᴰ
use diet_python.Ir.Label.{BlockLabel}
use diet_python.Ir.Block.{Block, BlockTerm, jump, if_term, edge_to}
use diet_python.Ir.Structured.{
  StructuredInstr, expr, if_stmt, Stmts, nil, cons, BlockBuilder, builder,
}
use diet_python.Cfg.Linearize.{
  of_list, Option, String, Map, ℕ, linearize_block, linearize_structured_ifs, linearize_from, suc,
  Output, Site, allocate, if_sequence, fragment,
}
use diet_python.Cfg.Linearize.Run.{
  Machine, Exit, leaves, run_stmts, run_builder, run_list, Holds, Reaches, stop, fail_test, branch,
  go,
}
use diet_python.Cfg.Linearize.Emitted.{
  Within, if_sequence-Keeps, fragment-Keeps, linearize_from-Keeps, run_list-snoc, emit-Holds,
  last_if-Holds, join_if-Holds, raised-Reaches,
}

module _ {ℓ} {E : Type ℓ} (m : Machine E) (bs : List (Block (StructuredInstr E) E)) where
  open m use {State, exec, ask}

  -- What the terminator `t` leads to is what the body goes on with.
  abbrev Continues : BlockTerm E → (State → Exit State E) → Type ℓ
  Continues t k =
      (l : BlockLabel) (es : List E) (s0 s : State)
      → Holds m bs l es t
      → run_list m es s0 ≡ inr s
      → Reaches m bs l s0 (k s)

  leaves-Continues : (t : BlockTerm E) → Continues t (leaves t)
  leaves-Continues t l es s0 s holds ran = stop holds ran

  -- From an if block, by what the test answers.
  if-Reaches :
      (label a b : BlockLabel) (before : List E) (test : E) (body orelse : BlockBuilder E)
      (rest : Stmts E) (k : State → Exit State E) (s0 s : State)
      → Holds m bs label before (if_term test a b)
      → run_list m before s0 ≡ inr s
      → ((s' : State) → Reaches m bs a s' (run_builder m body (run_stmts m rest k) s'))
      → ((s' : State) → Reaches m bs b s' (run_builder m orelse (run_stmts m rest k) s'))
      → Reaches m bs label s0 (run_stmts m (cons (if_stmt test body orelse) rest) k s)
  unfolding run_stmts
  if-Reaches label a b before test body orelse rest k s0 s holds ran then_runs else_runs =
      elim (⊎-cases (ask test s)) [
        | inl (s', p) ↦ rw (p, run_stmts) (fail_test holds ran p)
        | inr ((s', true), p) ↦ rw (p, run_stmts) (branch holds ran p (then_runs s'))
        | inr ((s', false), p) ↦ rw (p, run_stmts) (branch holds ran p (else_runs s'))
      ]

  mutual
    unfolding if_sequence run_stmts allocate run_list

    if_sequence-Reaches :
        (site : Site) (label : BlockLabel) (before : List E) (stmts : Stmts E) (t : BlockTerm E)
        (out : Output E)
        → Within m bs (if_sequence site label before stmts t out)
        → (k : State → Exit State E) → Continues t k
        → (s0 s : State) → run_list m before s0 ≡ inr s
        → Reaches m bs label s0 (run_stmts m stmts k s)
    if_sequence-Reaches site label before nil t out inside k ends s0 s ran =
        ends label before s0 s (emit-Holds m bs site label before t out inside) ran
    if_sequence-Reaches site label before (cons (expr e) rest) t out inside k ends s0 s ran =
        elim (⊎-cases (exec e s)) [
          | inl (s', p) ↦
              rw (p, run_stmts)
                (raised-Reaches m bs site label (before ++ e ∷ []) rest t out inside s0 s'
                  (run_list-snoc m before e s0 s ran ∙ p))
          | inr (s', p) ↦
              rw (p, run_stmts)
                (if_sequence-Reaches site label (before ++ e ∷ []) rest t out inside k ends s0 s'
                  (run_list-snoc m before e s0 s ran ∙ p))
        ]
    if_sequence-Reaches site label before (cons (if_stmt test body orelse) nil) t out inside k ends
          s0 s ran =
        if-Reaches label _ _ before test body orelse nil k s0 s
          (last_if-Holds m bs site label before test body orelse t out inside) ran
          (fragment-Reaches site _ body t _ (λ b h. inside b (fragment-Keeps site _ orelse t _ b h))
            k ends)
          (fragment-Reaches site _ orelse t _ inside k ends)
    if_sequence-Reaches site label before (cons (if_stmt test body orelse) (cons next rest)) t out
          inside k ends s0 s ran =
        let to_join =
          λ (l : BlockLabel) (es : List E) (s1 s2 : State)
              (holds : Holds m bs l es (jump (edge_to (suc (suc out.next_block_id)))))
              (done : run_list m es s1 ≡ inr s2).
            go holds done
              (if_sequence-Reaches site _ [] (cons next rest) t _ inside k ends s2 s2 refl) in
        if-Reaches label _ _ before test body orelse (cons next rest) k s0 s
          (join_if-Holds m bs site label before test body orelse next rest t out inside) ran
          (fragment-Reaches site _ body _ _
            (λ b h. inside b (
              if_sequence-Keeps site _ [] (cons next rest) t _ b
                (fragment-Keeps site _ orelse _ _ b h)))
            (run_stmts m (cons next rest) k) to_join)
          (fragment-Reaches site _ orelse _ _
            (λ b h. inside b (if_sequence-Keeps site _ [] (cons next rest) t _ b h))
            (run_stmts m (cons next rest) k) to_join)

    fragment-Reaches :
        (site : Site) (label : BlockLabel) (b : BlockBuilder E) (t : BlockTerm E) (out : Output E)
        → Within m bs (fragment site label b t out)
        → (k : State → Exit State E) → Continues t k
        → (s : State) → Reaches m bs label s (run_builder m b k s)
    fragment-Reaches site label (builder body none) t out inside k ends s =
        if_sequence-Reaches site label [] body t out inside k ends s s refl
    fragment-Reaches site label (builder body (some own)) t out inside k ends s =
        if_sequence-Reaches site label [] body own out inside (leaves own) (leaves-Continues own) s
          s refl

module _ {ℓ} {E : Type ℓ} (m : Machine E) where
  open m use {State}

  linearize_from-Reaches :
      (bp : Map (List String)) (ee : Map (Option BlockLabel))
      (bs : List (Block (StructuredInstr E) E)) (out : Output E) {b : Block (StructuredInstr E) E}
      → Memᴰ b bs
      → (s : State)
      → Reaches m
          (linearize_from bp ee bs out).blocks
          b.label
          s
          (run_stmts m (of_list b.body) (leaves b.term) s)
  unfolding linearize_from linearize_block run_list
  linearize_from-Reaches bp ee [] out h s = absurd (Memᴰ.not-nil h)
  linearize_from-Reaches bp ee (x ∷ xs) out {b} h s = elim (Memᴰ.cases_cons h) [
    | inl e ↦ rw e (
        if_sequence-Reaches m (linearize_from bp ee (x ∷ xs) out).blocks _ x.label []
          (of_list x.body) x.term out (linearize_from-Keeps bp ee xs _) (leaves x.term)
          (leaves-Continues m _ x.term) s s refl)
    | inr later ↦ linearize_from-Reaches bp ee xs _ later s
  ]

  -- From the label of an input block, the blocks of the result run to the exit at which the
  -- structured block is left, in the same state: the same terminator, or an exception.
  pub linearize_simulates :
      (next : ℕ) (bs : List (Block (StructuredInstr E) E)) (bp : Map (List String))
      (ee : Map (Option BlockLabel)) {b : Block (StructuredInstr E) E}
      → Memᴰ b bs
      → (s : State)
      → Reaches m
          (linearize_structured_ifs next bs bp ee).blocks
          b.label
          s
          (run_stmts m (of_list b.body) (leaves b.term) s)
  unfolding linearize_structured_ifs
  linearize_simulates next bs bp ee h s = linearize_from-Reaches bp ee bs _ h s

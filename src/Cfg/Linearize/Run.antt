-- ===== src/Cfg/Linearize/Run.antt =====
-- What running means, for structured bodies and for blocks, on a machine that is left open: the
-- state, what an instruction does and what a test answers. Each may raise an exception.
use diet_python.Prelude.{
  ◌≡◌, Bool, true, false, none, some, List, [], ◌∷◌, ◌⊎◌, inl, inr, Memᴰ, map, if◌then◌else◌,
}
use diet_python.Ir.Label.{BlockLabel}
use diet_python.Ir.Block.{Block, BlockTerm, jump, if_term, edge_to}
use diet_python.Ir.Structured.{
  StructuredInstr, expr, if_stmt, Stmts, nil, cons, BlockBuilder, builder,
}

-- `inl s` is an exception in the state `s`.
pub record Machine {ℓ} (E : Type ℓ) : Type (ℓ ⊔ 1) where
  pub State : Type 0
  pub exec : E → State → State ⊎ State
  pub ask : E → State → State ⊎ (State × Bool)

-- How a body is left: at a terminator, or by an exception.
pub data Exit {ℓ} (S : Type 0) (E : Type ℓ) : Type ℓ where
  leaves : BlockTerm E → S → Exit S E
  raises : S → Exit S E

module _ {ℓ} {E : Type ℓ} (m : Machine E) where
  open m use {State, exec, ask}

  unfoldable mutual
    -- A structured body, with what follows it.
    pub run_stmts : Stmts E → (State → Exit State E) → State → Exit State E
    run_stmts nil k s = k s
    run_stmts (cons (expr e) rest) k s = elim (exec e s) [
      | inl s' ↦ raises s'
      | inr s' ↦ run_stmts rest k s'
    ]
    run_stmts (cons (if_stmt test body orelse) rest) k s = elim (ask test s) [
      | inl s' ↦ raises s'
      | inr (s', true) ↦ run_builder body (run_stmts rest k) s'
      | inr (s', false) ↦ run_builder orelse (run_stmts rest k) s'
    ]

    -- A branch with a terminator of its own does not go on to what follows.
    pub run_builder : BlockBuilder E → (State → Exit State E) → State → Exit State E
    run_builder (builder body none) k s = run_stmts body k s
    run_builder (builder body (some t)) k s = run_stmts body (leaves t) s

  -- The instructions of one block.
  unfoldable pub run_list : List E → State → State ⊎ State
  run_list [] s = inr s
  run_list (e ∷ es) s = elim (exec e s) [ inl s' ↦ inl s' | inr s' ↦ run_list es s' ]

  -- A block with that label, those instructions and that terminator, and no if in its body.
  pub record Holds (bs : List (Block (StructuredInstr E) E)) (l : BlockLabel) (es : List E)
      (t : BlockTerm E) : Type ℓ where
    pub block : Block (StructuredInstr E) E
    pub member : Memᴰ block bs
    pub label : block.label ≡ l
    pub body : block.body ≡ map expr es
    pub term : block.term ≡ t

  -- Runs of the blocks from a label, through ifs and plain jumps, to an exit.
  pub data Reaches (bs : List (Block (StructuredInstr E) E))
      : BlockLabel → State → Exit State E → Type ℓ where
    stop :
        {l : BlockLabel} {es : List E} {t : BlockTerm E} {s s' : State}
        → Holds bs l es t
        → run_list es s ≡ inr s'
        → Reaches bs l s (leaves t s')
    fail :
        {l : BlockLabel} {es : List E} {t : BlockTerm E} {s s' : State}
        → Holds bs l es t
        → run_list es s ≡ inl s'
        → Reaches bs l s (raises s')
    fail_test :
        {l a b : BlockLabel} {es : List E} {c : E} {s s' s'' : State}
        → Holds bs l es (if_term c a b)
        → run_list es s ≡ inr s'
        → ask c s' ≡ inl s''
        → Reaches bs l s (raises s'')
    branch :
        {l a b : BlockLabel} {es : List E} {c : E} {s s' s'' : State} {answer : Bool}
        {x : Exit State E}
        → Holds bs l es (if_term c a b)
        → run_list es s ≡ inr s'
        → ask c s' ≡ inr (s'', answer)
        → Reaches bs (if answer then a else b) s'' x
        → Reaches bs l s x
    go :
        {l a : BlockLabel} {es : List E} {s s' : State} {x : Exit State E}
        → Holds bs l es (jump (edge_to a))
        → run_list es s ≡ inr s'
        → Reaches bs a s' x
        → Reaches bs l s x

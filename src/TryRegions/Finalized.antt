-- ===== src/TryRegions/Finalized.antt =====
-- What becomes of the blocks of a try statement
-- (soac-blockpy/src/passes/ruff_to_blockpy/try_regions.rs).
use diet_python.Prelude.{
  ◌≡◌, refl, String, str_eq, Bool, true, false, Option, none, some, [], ◌∷◌, ◌++◌, Bool-cases, inl,
  inr,
}
use diet_python.Ir.Label.{BlockLabel}
use diet_python.Ir.Block.{
  Block, BlockArg, AbruptKind, BlockTerm, jump, if_term, branch_table, raise, return,
  exception_param, set_exception_param, successors,
}
use diet_python.Ir.ExceptionParam.{exception_param-set_exception_param}
use diet_python.Ir.Structured.{StructuredInstr, expr}
use diet_python.TryRegions.Finalize.{
  rename_arg, rewrite_edge_args, rename_term_args, rename_exception_edge_args, rename_old,
  set_block_exc_param,
}

module _ {ℓ} {E : Type ℓ} where
  unfoldable pub is_return : BlockTerm E → Bool
  is_return (return v) = true
  is_return (jump e) = false
  is_return (if_term c a b) = false
  is_return (branch_table i ts d) = false
  is_return (raise x) = false

  -- A block that returned stores its value and goes to the finally clause, of which it says that it
  -- returns. Another block goes on where it did.
  pub data Diverted (store : String → E → E) (target : BlockLabel) (payload : String)
      (b b' : Block (StructuredInstr E) E) : Type ℓ where
    returned :
        (v : E) (arg : BlockArg)
        → b.term ≡ return v
        → b'.body ≡ b.body ++ expr (store payload v) ∷ []
        → b'.term
          ≡ jump
              (record { target = target; args = BlockArg.abrupt_kind AbruptKind.return ∷ arg ∷ [] })
        → Diverted store target payload b b'
    stayed :
        is_return b.term ≡ false
        → is_return b'.term ≡ false
        → b'.body ≡ b.body
        → successors b'.term ≡ successors b.term
        → Diverted store target payload b b'

  rename_term_args-successors :
      (old new : String) (t : BlockTerm E)
      → (successors (rename_term_args old new t) ≡ successors t)
        × (is_return (rename_term_args old new t) ≡ is_return t)
  unfolding rename_term_args rewrite_edge_args successors is_return
  rename_term_args-successors old new (jump e) = (refl, refl)
  rename_term_args-successors old new (if_term c a b) = (refl, refl)
  rename_term_args-successors old new (branch_table i ts d) = (refl, refl)
  rename_term_args-successors old new (raise x) = (refl, refl)
  rename_term_args-successors old new (return x) = (refl, refl)

  -- What setting the exception parameter keeps of a block.
  pub record SameButParams (b b' : Block (StructuredInstr E) E) : Type ℓ where
    pub label : b'.label ≡ b.label
    pub body : b'.body ≡ b.body
    pub targets : successors b'.term ≡ successors b.term
    pub returns : is_return b'.term ≡ is_return b.term
    -- of a jump with two arguments, the first of which is no name
    pub kind :
        (l : BlockLabel) (k : AbruptKind) (arg : BlockArg)
        → b.term ≡ jump (record { target = l; args = BlockArg.abrupt_kind k ∷ arg ∷ [] })
        → (arg' : BlockArg) × (b'.term
            ≡ jump (record { target = l; args = BlockArg.abrupt_kind k ∷ arg' ∷ [] }))

  rename_old-SameButParams :
      (old : Option String) (new : String) (b : Block (StructuredInstr E) E)
      → SameButParams b (rename_old old new b) × ((rename_old old new b).params ≡ b.params)
  unfolding rename_old rename_exception_edge_args rename_term_args rewrite_edge_args rename_arg
  rename_old-SameButParams none new b = (
    record {
      label = refl;
      body = refl;
      targets = refl;
      returns = refl;
      kind = λ l k arg h. (arg, h);
    },
    refl,
  )
  rename_old-SameButParams (some old) new b = elim (Bool-cases (str_eq old new)) [
    | inl e ↦
        rw (e, rename_old)
          (
            record {
              label = refl;
              body = refl;
              targets = refl;
              returns = refl;
              kind = λ l k arg h. (arg, h);
            },
            refl,
          )
    | inr e ↦
        let (targets, returns) = rename_term_args-successors old new b.term in
        rw (e, rename_old)
          (
            record {
              label = refl;
              body = refl;
              targets = targets;
              returns = returns;
              kind = λ l k arg h. (rename_arg old new arg, rw h refl);
            },
            refl,
          )
  ]

  pub set_block_exc_param-SameButParams :
      (new : String) (b : Block (StructuredInstr E) E)
      → SameButParams b (set_block_exc_param new b)
        × (exception_param (set_block_exc_param new b).params ≡ some new)
  unfolding set_block_exc_param
  set_block_exc_param-SameButParams new b =
      let made : Block (StructuredInstr E) E = record b {
        params = set_exception_param new b.params;
      } in
      let (same, params) = rename_old-SameButParams (exception_param b.params) new made in
      (
        record {
          label = same.label;
          body = same.body;
          targets = same.targets;
          returns = same.returns;
          kind = same.kind;
        },
        rw params (exception_param-set_exception_param new b.params),
      )

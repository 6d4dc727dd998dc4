-- ===== src/Ir/Structured.antt =====
-- Structured bodies: instructions and nested ifs, before they are made blocks
-- (`StructuredInstr`, `StructuredIf` and `BlockBuilder` of soac-blockpy/src/block_py/mod.rs).
use mathlib.Core.Option
use diet_python.Prelude.{Option, none, some, List, [], ◌∷◌}
use diet_python.Ir.Block.{BlockTerm}

mutual
  pub data StructuredInstr {ℓ} (E : Type ℓ) : Type ℓ where
    expr : E → StructuredInstr E
    -- test, body, orelse
    if_stmt : E → BlockBuilder E → BlockBuilder E → StructuredInstr E

  -- `Vec<StructuredInstr<E>>`
  pub data Stmts {ℓ} (E : Type ℓ) : Type ℓ where
    nil : Stmts E
    cons : StructuredInstr E → Stmts E → Stmts E

  pub data BlockBuilder {ℓ} (E : Type ℓ) : Type ℓ where
    -- body and term
    builder : Stmts E → Option (BlockTerm E) → BlockBuilder E

module _ {ℓ} {E : Type ℓ} where
  unfoldable pub of_list : List (StructuredInstr E) → Stmts E
  of_list [] = nil
  of_list (x ∷ xs) = cons x (of_list xs)

  unfoldable pub append : Stmts E → Stmts E → Stmts E
  append nil ys = ys
  append (cons x xs) ys = cons x (append xs ys)

  -- `push_stmt`; `none` is the panic on a finished builder.
  unfoldable pub push_stmt : BlockBuilder E → StructuredInstr E → Option (BlockBuilder E)
  push_stmt (builder body none) s = some (builder (append body (cons s nil)) none)
  push_stmt (builder body (some t)) s = none

  -- `extend`
  unfoldable pub extend : BlockBuilder E → List (StructuredInstr E) → Option (BlockBuilder E)
  extend b [] = some b
  extend b (s ∷ ss) = Option.bind (push_stmt b s) (λ b'. extend b' ss)

  -- `set_term`; `none` is the panic on a finished builder.
  unfoldable pub set_term : BlockBuilder E → BlockTerm E → Option (BlockBuilder E)
  set_term (builder body none) t = some (builder body (some t))
  set_term (builder body (some t')) t = none

-- ===== src/Ir/Builders.antt =====
-- Building a body and finishing it (soac-blockpy/src/block_py/mod.rs).
use mathlib.Core.Option
use diet_python.Prelude.{◌≡◌, refl, ap, ◌∙◌, none, some, List, [], ◌∷◌}
use diet_python.Ir.Block.{BlockTerm}
use diet_python.Ir.Structured.{
  StructuredInstr, Stmts, nil, cons, BlockBuilder, builder, of_list, append, push_stmt, extend,
  set_term,
}

module _ {ℓ} {E : Type ℓ} where
  append_one :
      (body : Stmts E) (s : StructuredInstr E) (rest : Stmts E)
      → append (append body (cons s nil)) rest ≡ append body (cons s rest)
  unfolding append
  append_one nil s rest = refl
  append_one (cons x body) s rest = ap (cons x) (append_one body s rest)

  append_nil : (body : Stmts E) → append body nil ≡ body
  unfolding append
  append_nil nil = refl
  append_nil (cons x body) = ap (cons x) (append_nil body)

  extend-open :
      (body : Stmts E) (ss : List (StructuredInstr E))
      → extend (builder body none) ss ≡ some (builder (append body (of_list ss)) none)
  unfolding extend push_stmt of_list append Option.bind
  extend-open body [] = rw (append_nil body) refl
  extend-open body (s ∷ ss) =
      extend-open (append body (cons s nil)) ss
      ∙ ap (λ b. some (builder b none)) (append_one body s (of_list ss))

  -- An open builder takes instructions after those it has, and then a terminator; after that it
  -- panics on one more instruction and on one more terminator.
  pub extend-set_term :
      (body : Stmts E) (ss : List (StructuredInstr E)) (t : BlockTerm E) (s : StructuredInstr E)
      (t' : BlockTerm E)
      → (done : BlockBuilder E) × (Option.bind (extend (builder body none) ss) (λ b. set_term b t)
          ≡ some done)
        × (done ≡ builder (append body (of_list ss)) (some t))
        × (push_stmt done s ≡ none)
        × (set_term done t' ≡ none)
  unfolding set_term push_stmt Option.bind
  extend-set_term body ss t s t' =
      (builder (append body (of_list ss)) (some t), rw (extend-open body ss) refl, refl, refl, refl)

-- ===== src/Cfg/Linearize.antt =====
-- `linearize_structured_ifs`: nested ifs become blocks (cfg.rs). `next_block_id` is the counter of
-- the function's name generator; a label is its value, and `Label.from_index` says which values
-- `next_block_name` accepts.
pub mod Labels
pub mod Fresh
pub mod Run
pub mod Emitted
pub mod Simulation
use diet_python.Prelude.{
  lookup, if◌then◌else◌, ℕ, suc, Option, none, some, List, [], ◌∷◌, ◌++◌, map, any, retain, str_eq,
  String, Map, insert,
}
use diet_python.Ir.Label.{BlockLabel}
use diet_python.Ir.Block.{
  bb_param_names, Block, BlockEdge, BlockParam, BlockTerm, jump, if_term, edge_to,
}
use diet_python.Ir.Structured.{
  of_list, StructuredInstr, expr, if_stmt, Stmts, nil, cons, BlockBuilder, builder,
}

-- `params_for_linearized_names`
unfoldable pub params_for_linearized_names : List String → List BlockParam → List BlockParam
params_for_linearized_names names = retain (λ p. any (λ n. str_eq n p.name) names)

-- The names of the parameters that are not in the table yet are added to those that are.
unfoldable pub add_missing : List String → List String → List String
add_missing params [] = params
add_missing params (n ∷ ns) =
    add_missing (if any (str_eq n) params then params else params ++ n ∷ []) ns

-- The name generator's counter and the three output collections.
pub record Output {ℓ} (E : Type ℓ) : Type ℓ where
  pub next_block_id : ℕ
  pub blocks : List (Block (StructuredInstr E) E)
  pub block_params : Map (List String)
  pub exception_edges : Map (Option BlockLabel)

-- The arguments that the recursion hands on unchanged.
pub record Site : Type 0 where
  pub exc_edge : Option BlockEdge
  pub block_params : List String
  pub declared_params : List BlockParam
  pub exc_target : Option BlockLabel

module _ {ℓ} {E : Type ℓ} where
  -- Both branches of the function record the label and push one block.
  unfoldable pub emit : Site → BlockLabel → List E → BlockTerm E → Output E → Output E
  emit site label body term out = record {
    next_block_id = out.next_block_id;
    blocks =
        out.blocks
        ++ record {
          label = label;
          body = map expr body;
          term = term;
          params = params_for_linearized_names site.block_params site.declared_params;
          exc_edge = site.exc_edge;
        }
          ∷ [];
    block_params = insert label site.block_params out.block_params;
    exception_edges = insert label site.exc_target out.exception_edges;
  }

  -- `next_block_name`
  unfoldable pub allocate : Output E → Output E
  allocate out = record out { next_block_id = suc out.next_block_id }

  abbrev pub unwrap_or : Option (BlockTerm E) → BlockTerm E → BlockTerm E
  unwrap_or none t = t
  unwrap_or (some t) _ = t

  -- `linearize_blockpy_if_sequence`. `before` holds the instructions read so far, none of them an
  -- if: the search for the first if and the split there are one pass over the body.
  unfoldable mutual
    pub if_sequence : Site → BlockLabel → List E → Stmts E → BlockTerm E → Output E → Output E
    if_sequence site label before nil final_term out = emit site label before final_term out
    if_sequence site label before (cons (expr e) rest) final_term out =
        if_sequence site label (before ++ e ∷ []) rest final_term out
    -- No join block after a last if.
    if_sequence site label before (cons (if_stmt test body orelse) nil) final_term out =
        let then_label = out.next_block_id in
        let else_label = suc then_label in
        let out1 =
          emit site label before (if_term test then_label else_label) (allocate (allocate out)) in
        fragment site else_label orelse final_term (fragment site then_label body final_term out1)
    if_sequence site label before (cons (if_stmt test body orelse) (cons next rest)) final_term
          out =
        let then_label = out.next_block_id in
        let else_label = suc then_label in
        let join_label = suc else_label in
        let to_join = jump (edge_to join_label) in
        let out1 =
          emit site label before (if_term test then_label else_label)
            (allocate (allocate (allocate out))) in
        if_sequence site join_label [] (cons next rest) final_term
          (fragment site else_label orelse to_join (fragment site then_label body to_join out1))

    -- `linearize_blockpy_fragment`
    pub fragment : Site → BlockLabel → BlockBuilder E → BlockTerm E → Output E → Output E
    fragment site label (builder body term) fallthrough out =
        if_sequence site label [] body (unwrap_or term fallthrough) out

  -- One round of the loop of `linearize_structured_ifs`.
  unfoldable pub linearize_block :
      Map (List String)
      → Map (Option BlockLabel)
      → Output E
      → Block (StructuredInstr E) E
      → Output E
  linearize_block block_params exception_edges out block =
      let known : List String = elim (lookup block.label block_params) [
        | none ↦ []
        | some names ↦ names
      ] in
      let target : Option BlockLabel = elim (lookup block.label exception_edges) [
        | none ↦ none
        | some l ↦ l
      ] in
      let site : Site = record {
        exc_edge = block.exc_edge;
        block_params = add_missing known (bb_param_names block.params);
        declared_params = block.params;
        exc_target = target;
      } in
      if_sequence site block.label [] (of_list block.body) block.term out

  unfoldable pub linearize_from :
      Map (List String)
      → Map (Option BlockLabel)
      → List (Block (StructuredInstr E) E)
      → Output E
      → Output E
  linearize_from bp ee [] out = out
  linearize_from bp ee (b ∷ bs) out = linearize_from bp ee bs (linearize_block bp ee out b)

  -- `linearize_structured_ifs`, from the value of the name generator's counter.
  unfoldable pub linearize_structured_ifs :
      ℕ
      → List (Block (StructuredInstr E) E)
      → Map (List String)
      → Map (Option BlockLabel)
      → Output E
  linearize_structured_ifs next bs bp ee =
      linearize_from bp ee bs
        (record { next_block_id = next; blocks = []; block_params = []; exception_edges = [] })

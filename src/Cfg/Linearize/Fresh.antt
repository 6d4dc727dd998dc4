-- ===== src/Cfg/Linearize/Fresh.antt =====
-- How many labels linearization asks the name generator for (cfg.rs, name_gen.rs).
use diet_python.Prelude.{
  ℕ, suc, ◌+◌, ◌*◌, ◌-◌, ◌^◌, ◌≤◌, ◌≡◌, Map, String, Option, none, some, List, [], ◌∷◌, ◌++◌, arith,
}
use diet_python.Ir.Label.{BlockLabel, from_index}
use diet_python.Ir.Block.{Block, BlockTerm}
use diet_python.Ir.Structured.{
  StructuredInstr, expr, if_stmt, Stmts, nil, cons, BlockBuilder, builder, of_list,
}
use diet_python.Cfg.Linearize.{
  Output, Site, emit, allocate, if_sequence, fragment, linearize_block, linearize_from,
  linearize_structured_ifs,
}
use diet_python.Cfg.Linearize.Labels.{count_label, linearize-labels}

module _ {ℓ} {E : Type ℓ} where
  unfoldable mutual
    pub ifs_of : Stmts E → ℕ
    ifs_of nil = 0
    ifs_of (cons (expr e) rest) = ifs_of rest
    ifs_of (cons (if_stmt test body orelse) rest) = suc (ifs_in body + ifs_in orelse + ifs_of rest)

    pub ifs_in : BlockBuilder E → ℕ
    ifs_in (builder body term) = ifs_of body

  unfoldable pub all_ifs : List (Block (StructuredInstr E) E) → ℕ
  all_ifs [] = 0
  all_ifs (b ∷ bs) = ifs_of (of_list b.body) + all_ifs bs

  mutual
    unfolding if_sequence allocate emit ifs_of ifs_in

    if_sequence-next :
        (site : Site) (label : BlockLabel) (before : List E) (stmts : Stmts E) (t : BlockTerm E)
        (out : Output E)
        → (if_sequence site label before stmts t out).next_block_id
          ≤ out.next_block_id + 3 * ifs_of stmts
    if_sequence-next site label before nil t out = omega arith
    if_sequence-next site label before (cons (expr e) rest) t out =
        if_sequence-next site label (before ++ e ∷ []) rest t out
    if_sequence-next site label before (cons (if_stmt test body orelse) nil) t out =
        omega (arith, fragment-next site _ orelse t _, fragment-next site _ body t _)
    if_sequence-next site label before (cons (if_stmt test body orelse) (cons next rest)) t out =
        omega (
          arith,
          if_sequence-next site _ [] (cons next rest) t _,
          fragment-next site _ orelse _ _,
          fragment-next site _ body _ _,
        )

    fragment-next :
        (site : Site) (label : BlockLabel) (b : BlockBuilder E) (t : BlockTerm E) (out : Output E)
        → (fragment site label b t out).next_block_id ≤ out.next_block_id + 3 * ifs_in b
    fragment-next site label (builder body none) t out = if_sequence-next site label [] body t out
    fragment-next site label (builder body (some own)) t out =
        if_sequence-next site label [] body own out

  linearize_from-next :
      (bp : Map (List String)) (ee : Map (Option BlockLabel))
      (bs : List (Block (StructuredInstr E) E)) (out : Output E)
      → (linearize_from bp ee bs out).next_block_id ≤ out.next_block_id + 3 * all_ifs bs
  unfolding linearize_from linearize_block all_ifs
  linearize_from-next bp ee [] out = omega arith
  linearize_from-next bp ee (b ∷ bs) out = omega (
    arith,
    linearize_from-next bp ee bs (linearize_block bp ee out b),
    if_sequence-next _ b.label [] (of_list b.body) b.term out,
  )

  -- If the counter of the name generator and three times the number of ifs are together at most
  -- 2 ^ 32, then each label of the result that is not one of the input is a u32, so that asking for
  -- it does not panic.
  pub linearize-fits :
      (next : ℕ) (bs : List (Block (StructuredInstr E) E)) (bp : Map (List String))
      (ee : Map (Option BlockLabel))
      → next + 3 * all_ifs bs ≤ 2 ^ 32
      → (l : BlockLabel) → count_label l bs ≡ 0
      → 1 ≤ count_label l (linearize_structured_ifs next bs bp ee).blocks
      → from_index l ≡ some l
  unfolding linearize_structured_ifs from_index
  linearize-fits next bs bp ee small l new there =
      let start : Output E = record {
        next_block_id = next;
        blocks = [];
        block_params = [];
        exception_edges = [];
      } in
      let below : l ≤ next + 3 * all_ifs bs - 1 =
        ground (arith, linearize-labels next bs bp ee l, linearize_from-next bp ee bs start) in
      ground (arith, below)

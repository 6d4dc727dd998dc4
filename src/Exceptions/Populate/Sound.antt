-- ===== src/Exceptions/Populate/Sound.antt =====
-- Populated exception edges are sound after dense relabelling (bb_shape.rs, cfg.rs, validate.rs).
use diet_python.Prelude.{
  ℕ, ◌≡◌, sym, ap, ◌∙◌, Option, some, List, length, get_elem?, Memᴰ, Forall₂-get_elem?_right,
  Forall₂-mem, get_elem?-map, get_elem?-mem, mem-get_elem?, subst,
}
use diet_python.Prelude.Memᴰ
use diet_python.Ir.Table.{block_at, block_at-mem, block_at_total}
use diet_python.Ir.Block.{Block, BlockEdge}
use diet_python.Cfg.Relabel.{relabel_dense}
use diet_python.Cfg.Relabel.Correct.{ExcNames, no_edge, edge, relabel_dense-BlockNames}
use diet_python.Cfg.Relabel.Dense.{IsDistinct, relabel_dense-labels}
use diet_python.Exceptions.Populate.{populate_block, populate_exception_edge_args}
use diet_python.Exceptions.Populate.Args.{populate_block-Carries}
use diet_python.Validate.Exact.{ExcIsSound}

module _ {ℓ} {E : Type ℓ} (bs : List (Block E E)) (distinct : IsDistinct bs) where
  populated-IsDistinct : IsDistinct (populate_exception_edge_args bs)
  unfolding populate_exception_edge_args populate_block
  populated-IsDistinct i j b c at_i at_j same =
      let (b0, at_b, e) = get_elem?-map (populate_block bs) bs i at_i in
      let (c0, at_c, f) = get_elem?-map (populate_block bs) bs j at_j in
      distinct i j b0 c0 at_b at_c
        (sym (ap (λ (x : Block E E). x.label) e) ∙ same ∙ ap (λ (x : Block E E). x.label) f)

  -- The block that a label names is the one at its position.
  block_at-position :
      (i : ℕ) (c : Block E E) → get_elem? bs i ≡ some c → block_at bs c.label ≡ some c
  block_at-position i c at =
      let (t, found) = block_at_total bs (get_elem?-mem bs i at) in
      let (member, label) = block_at-mem bs c.label found in
      let (j, at_j) = mem-get_elem? bs member in
      let same : j ≡ i = distinct j i t c at_j at label in
      found ∙ (sym at_j ∙ ap (get_elem? bs) same ∙ at)

  module _ {bs' : List (Block E E)}
      (ran : relabel_dense (populate_exception_edge_args bs) ≡ some bs') where
    exc_sound :
        (b : Block E E) (o o' : Option BlockEdge)
        → (populate_block bs b).exc_edge ≡ o
        → ExcNames (populate_exception_edge_args bs) o o'
        → ExcIsSound bs' o'
    unfolding populate_exception_edge_args populate_block
    exc_sound b o o' h no_edge = tt
    exc_sound b o o' h (edge {e} {e'} names) =
        let (c0, at_c, same_c) =
          get_elem?-map (populate_block bs) bs e'.target names.target.position in
        let label_c : c0.label ≡ e.target =
          sym (ap (λ (x : Block E E). x.label) same_c) ∙ names.target.label in
        let found : block_at bs e.target ≡ some c0 =
          subst (λ l. block_at bs l ≡ some c0) label_c (block_at-position e'.target c0 at_c) in
        let carried = populate_block-Carries bs b h found in
        let (c', at', names_c) =
          Forall₂-get_elem?_right (relabel_dense-BlockNames (populate_exception_edge_args bs) ran)
            e'.target names.target.position in
        let params : c'.params ≡ c0.params =
          names_c.params ∙ ap (λ (x : Block E E). x.params) same_c in
        record {
          target = c';
          known = record {
            position = at';
            label =
                relabel_dense-labels (populate_exception_edge_args bs) populated-IsDistinct ran
                  e'.target at';
          };
          count = ap length names.args ∙ carried.count ∙ ap length (sym params);
          plain = λ k m. carried.plain k (subst (Memᴰ _) names.args m);
        }

  -- With distinct labels, the exception edge of each block, populated and then relabelled, is one
  -- that validation accepts: its target is a block of the list with an argument for each parameter,
  -- and no argument is an abrupt kind.
  pub populate-relabel-ExcIsSound :
      {bs' : List (Block E E)}
      → relabel_dense (populate_exception_edge_args bs) ≡ some bs'
      → {b' : Block E E} → Memᴰ b' bs'
      → ExcIsSound bs' b'.exc_edge
  unfolding populate_exception_edge_args
  populate-relabel-ExcIsSound ran m =
      let (b, at, names) =
        Forall₂-mem (relabel_dense-BlockNames (populate_exception_edge_args bs) ran) m in
      let (b0, at0, same) = Memᴰ.of_map (populate_block bs) bs at in
      exc_sound ran b0 b.exc_edge _ (ap (λ (x : Block E E). x.exc_edge) same) names.exc_edge

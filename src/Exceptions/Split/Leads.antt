-- ===== src/Exceptions/Split/Leads.antt =====
-- The labels of the segments of split blocks are distinct (exception_pass/mod.rs).
use diet_python.Prelude.{
  ℕ, ◌+◌, ◌≤◌, ◌≡◌, Option, none, some, List, [], ◌∷◌, ◌++◌, inl, inr, Memᴰ, Bool, Bool-cases,
  arith,
}
use diet_python.Ir.Label.{BlockLabel}
use diet_python.Ir.Block.{Block, BlockEdge, jump, edge_to, bb_params}
use diet_python.Cfg.Linearize.Labels.{
  hit, within, within-append, within-suc, within-empty, count_label, count_label-snoc,
}
use diet_python.Exceptions.Split.{
  SplitOutput, push_segment, next_block, split_ops, split_guarded, split_block, split_blocks,
  split_exception_blocks,
}
use diet_python.Exceptions.Split.Chains.{Chain, split_exception_blocks-Chain}

module _ {ℓ} {E : Type ℓ} (updates : E → Bool) where
  -- Blocks are added: some with given labels, and one for each label that was made.
  record Adds (given : BlockLabel → ℕ) (so so' : SplitOutput E) : Type ℓ where
    grows : so.next_block_id ≤ so'.next_block_id
    labels :
        (l : BlockLabel)
        → count_label l so'.out
          ≡ count_label l so.out + given l + within so.next_block_id so'.next_block_id l

  split_ops-Adds :
      (b : Block E E) (label : BlockLabel) (pending : List E) (op : E) (ops : List E)
      (so : SplitOutput E)
      → Adds (λ l. hit l label) so (split_ops updates b label pending (op ∷ ops) so)
  unfolding split_ops push_segment next_block
  split_ops-Adds b label pending op [] so = record {
    grows = omega arith;
    labels = λ l. omega (
      arith,
      count_label-snoc l so.out (record {
        label = label;
        body = pending ++ op ∷ [];
        term = b.term;
        params = bb_params b.params;
        exc_edge = b.exc_edge;
      }),
      within-empty so.next_block_id l,
    );
  }
  split_ops-Adds b label pending op (next ∷ ops) so = elim (Bool-cases (updates op)) [
    | inl h ↦
        let pushed =
          push_segment b label (pending ++ op ∷ []) (jump (edge_to so.next_block_id))
            (next_block so) in
        let rest = split_ops-Adds b so.next_block_id [] next ops pushed in
        rw (h, split_ops)
          (record {
            grows = omega (arith, rest.grows);
            labels = λ l. omega (
              arith,
              rest.labels l,
              rest.grows,
              count_label-snoc l so.out (record {
                label = label;
                body = pending ++ op ∷ [];
                term = jump (edge_to so.next_block_id);
                params = bb_params b.params;
                exc_edge = b.exc_edge;
              }),
              within-suc so.next_block_id
                  (split_ops updates b so.next_block_id [] (next ∷ ops) pushed).next_block_id l
                  rest.grows,
            );
          })
    | inr h ↦ rw (h, split_ops) (split_ops-Adds b label (pending ++ op ∷ []) next ops so)
  ]

  split_guarded-Adds :
      (b : Block E E) (edge : Option BlockEdge) (ops : List E) (so : SplitOutput E)
      → Adds (λ l. hit l b.label) so (split_guarded updates b edge ops so)
  unfolding split_guarded
  split_guarded-Adds b none ops so = record {
    grows = omega arith;
    labels = λ l. omega (arith, count_label-snoc l so.out b, within-empty so.next_block_id l);
  }
  split_guarded-Adds b (some e) [] so = record {
    grows = omega arith;
    labels = λ l. omega (arith, count_label-snoc l so.out b, within-empty so.next_block_id l);
  }
  split_guarded-Adds b (some e) (op ∷ ops) so = split_ops-Adds b b.label [] op ops so

  split_blocks-Adds :
      (bs : List (Block E E)) (so : SplitOutput E)
      → Adds (λ l. count_label l bs) so (split_blocks updates bs so)
  unfolding split_blocks split_block count_label
  split_blocks-Adds [] so = record {
    grows = omega arith;
    labels = λ l. omega (arith, within-empty so.next_block_id l);
  }
  split_blocks-Adds (b ∷ bs) so =
      let first = split_guarded-Adds b b.exc_edge b.body so in
      let middle = split_guarded updates b b.exc_edge b.body so in
      let rest = split_blocks-Adds bs middle in
      record {
        grows = omega (arith, first.grows, rest.grows);
        labels = λ l. omega (
          arith,
          first.labels l,
          rest.labels l,
          within-append so.next_block_id middle.next_block_id
              (split_blocks updates bs middle).next_block_id l first.grows rest.grows,
        );
      }

  -- If the labels of the blocks are distinct and the name generator gave all of them out, then the
  -- labels of the result are distinct, and the label of each block leads, through plain jumps, to
  -- all its instructions in their order and to its terminator, under its own handler. If there is a
  -- handler, then no instruction but the last one of a block on the way updates the exception state.
  pub split_exception_blocks-leads :
      (next : ℕ) (bs : List (Block E E))
      → ((l : BlockLabel) → count_label l bs ≤ 1)
      → ((l : BlockLabel) → next ≤ l → count_label l bs ≡ 0)
      → let out = (split_exception_blocks updates next bs).out in
        ((l : BlockLabel) → count_label l out ≤ 1)
        × ((b : Block E E) → Memᴰ b bs → Chain updates out b b.label b.body)
  unfolding split_exception_blocks count_label
  split_exception_blocks-leads next bs once used = (
    λ l. ground (
      arith,
      once l,
      used l,
      (split_blocks-Adds bs (record { next_block_id = next; out = [] })).labels l,
    ),
    λ b m. split_exception_blocks-Chain updates next bs m,
  )

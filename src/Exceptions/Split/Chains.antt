-- ===== src/Exceptions/Split/Chains.antt =====
-- What the segments of a split block are (exception_pass/mod.rs).
use diet_python.Prelude.{
  ℕ, ◌≡◌, refl, sym, ap, Bool, false, Option, none, some, List, [], ◌∷◌, ◌++◌, inl, inr, Memᴰ,
  Bool-cases, subst, arith,
}
use diet_python.Prelude.Memᴰ
use diet_python.Ir.Label.{BlockLabel}
use diet_python.Ir.Block.{Block, BlockEdge, BlockTerm, jump, edge_to}
use diet_python.Exceptions.Split.{
  SplitOutput, push_segment, next_block, split_ops, split_guarded, split_block, split_blocks,
  split_exception_blocks,
}

module _ {ℓ} {E : Type ℓ} (updates : E → Bool) where
  -- No instruction but the last one updates the exception state.
  abbrev pub IsSegment : List E → Type 0
  IsSegment [] = Unit
  IsSegment (e ∷ []) = Unit
  IsSegment (e ∷ f ∷ es) = (updates e ≡ false) × IsSegment (f ∷ es)

  -- No instruction does.
  abbrev pub IsQuiet : List E → Type 0
  IsQuiet [] = Unit
  IsQuiet (e ∷ es) = (updates e ≡ false) × IsQuiet es

  IsQuiet-snoc : (es : List E) (e : E) → IsQuiet es → updates e ≡ false → IsQuiet (es ++ e ∷ [])
  IsQuiet-snoc [] e q h = (h, tt)
  IsQuiet-snoc (x ∷ es) e q h = (q.0, IsQuiet-snoc es e q.1 h)

  IsQuiet-IsSegment : (es : List E) (e : E) → IsQuiet es → IsSegment (es ++ e ∷ [])
  IsQuiet-IsSegment [] e q = tt
  IsQuiet-IsSegment (x ∷ []) e q = (q.0, tt)
  IsQuiet-IsSegment (x ∷ y ∷ es) e q = (q.0, IsQuiet-IsSegment (y ∷ es) e q.1)

  module _ (bs : List (Block E E)) (b : Block E E) where
    -- A block of the list with the handler of `b`, and if that has one, a segment for a body.
    pub record Piece (l : BlockLabel) (es : List E) (t : BlockTerm E) : Type ℓ where
      pub block : Block E E
      pub member : Memᴰ block bs
      pub label : block.label ≡ l
      pub body : block.body ≡ es
      pub term : block.term ≡ t
      pub exc_edge : block.exc_edge ≡ b.exc_edge
      pub segment : (e : BlockEdge) → b.exc_edge ≡ some e → IsSegment es

    -- From a label, blocks that jump to one another carry out the instructions and end like `b`.
    pub data Chain : BlockLabel → List E → Type ℓ where
      last : {l : BlockLabel} {es : List E} → Piece l es b.term → Chain l es
      link :
          {l next : BlockLabel} {es rest : List E}
          → Piece l es (jump (edge_to next))
          → Chain next rest
          → Chain l (es ++ rest)

  abbrev Within : SplitOutput E → List (Block E E) → Type ℓ
  Within so bs = (c : Block E E) → Memᴰ c so.out → Memᴰ c bs

  split_ops-keeps :
      (b : Block E E) (label : BlockLabel) (pending ops : List E) (so : SplitOutput E)
      → Within so (split_ops updates b label pending ops so).out
  unfolding split_ops push_segment next_block
  split_ops-keeps b label pending [] so c m = m
  split_ops-keeps b label pending (op ∷ []) so c m = Memᴰ.append_left _ m
  split_ops-keeps b label pending (op ∷ next ∷ ops) so c m = elim (Bool-cases (updates op)) [
    | inl h ↦
        rw (h, split_ops)
          (split_ops-keeps b so.next_block_id [] (next ∷ ops) _ c (Memᴰ.append_left _ m))
    | inr h ↦ rw (h, split_ops) (split_ops-keeps b label (pending ++ op ∷ []) (next ∷ ops) so c m)
  ]

  split_guarded-keeps :
      (b : Block E E) (edge : Option BlockEdge) (ops : List E) (so : SplitOutput E)
      → Within so (split_guarded updates b edge ops so).out
  unfolding split_guarded
  split_guarded-keeps b none ops so c m = Memᴰ.append_left _ m
  split_guarded-keeps b (some e) [] so c m = Memᴰ.append_left _ m
  split_guarded-keeps b (some e) (op ∷ ops) so c m = split_ops-keeps b b.label [] (op ∷ ops) so c m

  split_block-keeps :
      (b : Block E E) (so : SplitOutput E) → Within so (split_block updates b so).out
  unfolding split_block
  split_block-keeps b so = split_guarded-keeps b b.exc_edge b.body so

  split_blocks-keeps :
      (xs : List (Block E E)) (so : SplitOutput E) → Within so (split_blocks updates xs so).out
  unfolding split_blocks
  split_blocks-keeps [] so c m = m
  split_blocks-keeps (b ∷ xs) so c m = split_blocks-keeps xs _ c (split_block-keeps b so c m)

  pushed :
      (b : Block E E) (label : BlockLabel) (es : List E) (t : BlockTerm E) (so : SplitOutput E)
      (bs : List (Block E E))
      → Within (push_segment b label es t so) bs
      → IsSegment es
      → Piece bs b label es t
  unfolding push_segment
  pushed b label es t so bs inside seg = record {
    block = _;
    member = inside _ (Memᴰ.append_right so.out (Memᴰ.head refl));
    label = refl;
    body = refl;
    term = refl;
    exc_edge = refl;
    segment = λ e h. seg;
  }

  split_ops-Chain :
      (b : Block E E) (label : BlockLabel) (pending : List E) (op : E) (ops : List E)
      (so : SplitOutput E) (bs : List (Block E E))
      → IsQuiet pending
      → Within (split_ops updates b label pending (op ∷ ops) so) bs
      → Chain bs b label (pending ++ op ∷ ops)
  unfolding split_ops
  split_ops-Chain b label pending op [] so bs quiet inside =
      last (
        pushed b label (pending ++ op ∷ []) b.term so bs inside
          (IsQuiet-IsSegment pending op quiet))
  split_ops-Chain b label pending op (next ∷ ops) so bs quiet inside =
      elim (Bool-cases (updates op)) [
        | inl h ↦
            let inside' = rw (h, split_ops) at inside in
            subst (Chain bs b label) (sym (append_snoc pending op (next ∷ ops))) (
              link
                (pushed b label (pending ++ op ∷ []) _ _ bs
                  (λ c m. inside' c (split_ops-keeps b so.next_block_id [] (next ∷ ops) _ c m))
                  (IsQuiet-IsSegment pending op quiet))
                (split_ops-Chain b so.next_block_id [] next ops _ bs tt inside'))
        | inr h ↦
            let inside' = rw (h, split_ops) at inside in
            subst (Chain bs b label) (sym (append_snoc pending op (next ∷ ops))) (
              split_ops-Chain b label (pending ++ op ∷ []) next ops so bs
                (IsQuiet-snoc pending op quiet h) inside')
      ]
    where
      append_snoc : (xs : List E) (x : E) (ys : List E) → xs ++ x ∷ ys ≡ (xs ++ x ∷ []) ++ ys
      append_snoc [] x ys = refl
      append_snoc (y ∷ xs) x ys = ap (λ zs. y ∷ zs) (append_snoc xs x ys)

  split_guarded-Chain :
      (b : Block E E) (edge : Option BlockEdge) (ops : List E) (so : SplitOutput E)
      (bs : List (Block E E))
      → b.exc_edge ≡ edge
      → b.body ≡ ops
      → Within (split_guarded updates b edge ops so) bs
      → Chain bs b b.label ops
  unfolding split_guarded
  split_guarded-Chain b none ops so bs e f inside = last (record {
    block = b;
    member = inside b (Memᴰ.append_right so.out (Memᴰ.head refl));
    label = refl;
    body = f;
    term = refl;
    exc_edge = refl;
    segment = λ x h. absurd (ground (arith, e, h));
  })
  split_guarded-Chain b (some x) [] so bs e f inside = last (record {
    block = b;
    member = inside b (Memᴰ.append_right so.out (Memᴰ.head refl));
    label = refl;
    body = f;
    term = refl;
    exc_edge = refl;
    segment = λ x h. tt;
  })
  split_guarded-Chain b (some x) (op ∷ ops) so bs e f inside =
      split_ops-Chain b b.label [] op ops so bs tt inside

  split_blocks-Chain :
      (xs : List (Block E E)) (so : SplitOutput E) {b : Block E E}
      → Memᴰ b xs
      → Chain (split_blocks updates xs so).out b b.label b.body
  unfolding split_blocks split_block
  split_blocks-Chain [] so m = absurd (Memᴰ.not-nil m)
  split_blocks-Chain (x ∷ xs) so {b} m = elim (Memᴰ.cases_cons m) [
    | inl e ↦ rw e (
        split_guarded-Chain x x.exc_edge x.body so _ refl refl
          (split_blocks-keeps xs (split_block updates x so)))
    | inr later ↦ split_blocks-Chain xs _ later
  ]

  -- The label of each block leads, through plain jumps, to all its instructions in their order and
  -- to its terminator, under its own handler. If there is a handler, then no instruction but the
  -- last one of a block on the way updates the exception state.
  pub split_exception_blocks-Chain :
      (next : ℕ) (bs : List (Block E E)) {b : Block E E}
      → Memᴰ b bs
      → Chain (split_exception_blocks updates next bs).out b b.label b.body
  unfolding split_exception_blocks
  split_exception_blocks-Chain next bs m = split_blocks-Chain bs _ m

-- ===== src/Cfg/Linearize/Labels.antt =====
-- The labels that linearization gives to blocks (cfg.rs).
use diet_python.Prelude.{
  ap, ℕ, suc, ◌+◌, ◌≤◌, ◌≡◌, refl, ◌==◌, ltb, leb, ◌&&◌, List, [], ◌∷◌, ◌++◌, none, some,
  if◌then◌else◌, arith,
}
use diet_python.Ir.Label.{BlockLabel}
use diet_python.Ir.Block.{Block, BlockTerm}
use diet_python.Ir.Structured.{expr, if_stmt, Stmts, nil, cons, BlockBuilder, builder}
use diet_python.Cfg.Linearize.{
  of_list, Option, String, Map, linearize_structured_ifs, linearize_from, StructuredInstr,
  linearize_block, Output, Site, emit, allocate, if_sequence, fragment,
}

-- 1 where the labels are the same.
abbrev pub hit : BlockLabel → BlockLabel → ℕ
hit l k = if l == k then 1 else 0

-- 1 where the label lies in the range.
abbrev pub within : ℕ → ℕ → BlockLabel → ℕ
within lo hi l = if leb lo l && ltb l hi then 1 else 0

pub within-append :
    (lo mid hi l : ℕ) → lo ≤ mid → mid ≤ hi → within lo hi l ≡ within lo mid l + within mid hi l
within-append lo mid hi l p q = ground arith

pub within-suc : (n hi l : ℕ) → suc n ≤ hi → within n hi l ≡ hit l n + within (suc n) hi l
within-suc n hi l p = ground arith

pub within-empty : (n l : ℕ) → within n n l ≡ 0
within-empty n l = ground arith

module _ {ℓ} {E : Type ℓ} where
  -- How many blocks have the label.
  unfoldable pub count_label {κ} : {B : Type κ} → BlockLabel → List (Block B E) → ℕ
  count_label l [] = 0
  count_label l (b ∷ bs) = hit l b.label + count_label l bs

  pub count_label-append {κ} :
      {B : Type κ} (l : BlockLabel) (xs ys : List (Block B E))
      → count_label l (xs ++ ys) ≡ count_label l xs + count_label l ys
  unfolding count_label
  count_label-append l [] ys = omega arith
  count_label-append l (x ∷ xs) ys = omega (arith, count_label-append l xs ys)

  pub count_label-snoc {κ} :
      {B : Type κ} (l : BlockLabel) (xs : List (Block B E)) (x : Block B E)
      → count_label l (xs ++ x ∷ []) ≡ count_label l xs + hit l x.label
  unfolding count_label
  count_label-snoc l xs x = omega (arith, count_label-append l xs (x ∷ []))

  pub next-emit :
      (site : Site) (label : BlockLabel) (body : List E) (t : BlockTerm E) (out : Output E)
      → (emit site label body t out).next_block_id ≡ out.next_block_id
  unfolding emit
  next-emit site label body t out = refl

  pub count_label-emit :
      (site : Site) (label : BlockLabel) (body : List E) (t : BlockTerm E) (out : Output E) (l : ℕ)
      → count_label l (emit site label body t out).blocks ≡ count_label l out.blocks + hit l label
  unfolding emit count_label
  count_label-emit site label body t out l = count_label-snoc l out.blocks _

  -- The blocks with the label `l` among those that a call adds.
  record Adds (label : BlockLabel) (out out' : Output E) : Type ℓ where
    grows : out.next_block_id ≤ out'.next_block_id
    labels :
        (l : BlockLabel)
        → count_label l out'.blocks
          ≡ count_label l out.blocks + hit l label + within out.next_block_id out'.next_block_id l

  Adds-emit :
      (site : Site) (label : BlockLabel) (body : List E) (t : BlockTerm E) (out : Output E)
      → Adds label out (emit site label body t out)
  Adds-emit site label body t out = record {
    grows = omega (arith, next-emit site label body t out);
    labels = λ l.
        rw (next-emit site label body t out)
          (ground (arith, count_label-emit site label body t out l));
  }

  -- An if with no join block: two labels, then what the branches add.
  Adds-branches :
      (label : BlockLabel) (out o1 o2 o3 : Output E)
      → o1.next_block_id ≡ suc (suc out.next_block_id)
      → ((l : BlockLabel) → count_label l o1.blocks ≡ count_label l out.blocks + hit l label)
      → Adds out.next_block_id o1 o2
      → Adds (suc out.next_block_id) o2 o3
      → Adds label out o3
  Adds-branches label out o1 o2 o3 n c a b = record {
    grows = omega (arith, a.grows, b.grows);
    labels = λ l. omega (
      arith,
      c l,
      a.labels l,
      b.labels l,
      within-suc out.next_block_id o3.next_block_id l,
      within-suc (suc out.next_block_id) o3.next_block_id l,
      within-append o1.next_block_id o2.next_block_id o3.next_block_id l,
      ap (λ k. within k o3.next_block_id l) n,
    );
  }

  -- An if with a join block: three labels, then what the branches and the rest add.
  Adds-join :
      (label : BlockLabel) (out o1 o2 o3 o4 : Output E)
      → o1.next_block_id ≡ suc (suc (suc out.next_block_id))
      → ((l : BlockLabel) → count_label l o1.blocks ≡ count_label l out.blocks + hit l label)
      → Adds out.next_block_id o1 o2
      → Adds (suc out.next_block_id) o2 o3
      → Adds (suc (suc out.next_block_id)) o3 o4
      → Adds label out o4
  Adds-join label out o1 o2 o3 o4 n h a b c = record {
    grows = omega (arith, a.grows, b.grows, c.grows);
    labels = λ l. omega (
      arith,
      h l,
      a.labels l,
      b.labels l,
      c.labels l,
      within-suc out.next_block_id o4.next_block_id l,
      within-suc (suc out.next_block_id) o4.next_block_id l,
      within-suc (suc (suc out.next_block_id)) o4.next_block_id l,
      within-append o1.next_block_id o2.next_block_id o4.next_block_id l,
      within-append o2.next_block_id o3.next_block_id o4.next_block_id l,
      ap (λ k. within k o4.next_block_id l) n,
    );
  }

  mutual
    unfolding if_sequence allocate

    if_sequence-Adds :
        (site : Site) (label : BlockLabel) (before : List E) (stmts : Stmts E) (t : BlockTerm E)
        (out : Output E)
        → Adds label out (if_sequence site label before stmts t out)
    if_sequence-Adds site label before nil t out = Adds-emit site label before t out
    if_sequence-Adds site label before (cons (expr e) rest) t out =
        if_sequence-Adds site label (before ++ e ∷ []) rest t out
    if_sequence-Adds site label before (cons (if_stmt test body orelse) nil) t out =
        Adds-branches label out _ _ _ (next-emit site label before _ _)
          (count_label-emit site label before _ _) (fragment-Adds site _ body _ _)
          (fragment-Adds site _ orelse _ _)
    if_sequence-Adds site label before (cons (if_stmt test body orelse) (cons next rest)) t out =
        Adds-join label out _ _ _ _ (next-emit site label before _ _)
          (count_label-emit site label before _ _) (fragment-Adds site _ body _ _)
          (fragment-Adds site _ orelse _ _) (if_sequence-Adds site _ [] (cons next rest) t _)

    fragment-Adds :
        (site : Site) (label : BlockLabel) (b : BlockBuilder E) (t : BlockTerm E) (out : Output E)
        → Adds label out (fragment site label b t out)
    fragment-Adds site label (builder body none) t out = if_sequence-Adds site label [] body t out
    fragment-Adds site label (builder body (some own)) t out =
        if_sequence-Adds site label [] body own out

  linearize_block-labels :
      (bp : Map (List String)) (ee : Map (Option BlockLabel)) (out : Output E)
      (b : Block (StructuredInstr E) E)
      → Adds b.label out (linearize_block bp ee out b)
  unfolding linearize_block
  linearize_block-labels bp ee out b = if_sequence-Adds _ b.label [] (of_list b.body) b.term out

  record AddsAll (bs : List (Block (StructuredInstr E) E)) (out out' : Output E) : Type ℓ where
    grows : out.next_block_id ≤ out'.next_block_id
    labels :
        (l : BlockLabel)
        → count_label l out'.blocks
          ≡ count_label l out.blocks
            + count_label l bs
            + within out.next_block_id out'.next_block_id l

  linearize_from-AddsAll :
      (bp : Map (List String)) (ee : Map (Option BlockLabel))
      (bs : List (Block (StructuredInstr E) E)) (out : Output E)
      → AddsAll bs out (linearize_from bp ee bs out)
  unfolding linearize_from count_label
  linearize_from-AddsAll bp ee [] out = record {
    grows = omega arith;
    labels = λ l. omega (arith, within-empty out.next_block_id l);
  }
  linearize_from-AddsAll bp ee (b ∷ bs) out =
      let out1 = linearize_block bp ee out b in
      let first = linearize_block-labels bp ee out b in
      let others = linearize_from-AddsAll bp ee bs out1 in
      let last = (linearize_from bp ee bs out1).next_block_id in
      record {
        grows = omega (arith, first.grows, others.grows);
        labels = λ l. omega (
          arith,
          first.labels l,
          others.labels l,
          first.grows,
          others.grows,
          within-append out.next_block_id out1.next_block_id last l,
        );
      }

-- The labels of the result are those of the input and, once each, those that the name generator
-- gave out in between.
pub linearize-labels {ℓ} :
    {E : Type ℓ} (next : ℕ) (bs : List (Block (StructuredInstr E) E)) (bp : Map (List String))
    (ee : Map (Option BlockLabel)) (l : BlockLabel)
    → count_label l (linearize_structured_ifs next bs bp ee).blocks
      ≡ count_label l bs + within next (linearize_structured_ifs next bs bp ee).next_block_id l
unfolding linearize_structured_ifs count_label
linearize-labels next bs bp ee l = omega (arith, (linearize_from-AddsAll bp ee bs _).labels l)

-- If the labels of the input are distinct and the name generator gave all of them out, then the
-- labels of the result are distinct.
pub linearize-distinct {ℓ} :
    {E : Type ℓ} (next : ℕ) (bs : List (Block (StructuredInstr E) E)) (bp : Map (List String))
    (ee : Map (Option BlockLabel))
    → ((l : BlockLabel) → count_label l bs ≤ 1)
    → ((l : BlockLabel) → next ≤ l → count_label l bs ≡ 0)
    → (l : BlockLabel) → count_label l (linearize_structured_ifs next bs bp ee).blocks ≤ 1
linearize-distinct next bs bp ee once used l =
    ground (arith, once l, used l, linearize-labels next bs bp ee l)

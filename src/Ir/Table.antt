-- ===== src/Ir/Table.antt =====
-- Tables from labels to blocks: several passes collect one first.
use diet_python.Prelude.{
  lookup-from_pairs-none, Option-cases, ℕ, Option, some, List, [], map, lookup, from_pairs,
  lookup-from_pairs, Memᴰ, ◌≡◌, subst, ap, inl, inr,
}
use diet_python.Prelude.Memᴰ
use diet_python.Ir.Label.{BlockLabel}
use diet_python.Ir.Block.{Block}

module _ {ℓ κ} {B : Type ℓ} {E : Type κ} where
  abbrev pub labelled : List (Block B E) → List (ℕ × Block B E)
  labelled = map (λ b. (b.label, b))

  -- The table from labels to indices (`index_by_label`, `label_to_index`), with the block in place
  -- of its index.
  unfoldable pub block_at : List (Block B E) → BlockLabel → Option (Block B E)
  block_at bs l = lookup l (from_pairs (labelled bs) [])

module _ {ℓ κ} {B : Type ℓ} {E : Type κ} (bs : List (Block B E)) where
  pub block_at-mem :
      (l : BlockLabel) {b : Block B E} → block_at bs l ≡ some b → Memᴰ b bs × (b.label ≡ l)
  unfolding block_at
  block_at-mem l {b} h = elim (lookup-from_pairs l (labelled bs) [] b h) [
    | inl found ↦
        let (c, m, e) = Memᴰ.of_map (λ (x : Block B E). (x.label, x)) bs found in
        let same : c ≡ b = ap (λ q. q.1) e in
        (subst (λ x. Memᴰ x bs) same m, rw (← same) (ap (λ q. q.0) e))
    | inr empty ↦ absurd (cc)
  ]

  -- A label of a block is in the table.
  pub block_at_total :
      {b : Block B E} → Memᴰ b bs → (found : Block B E) × (block_at bs b.label ≡ some found)
  unfolding block_at
  block_at_total {b} m = elim (Option-cases (lookup b.label (from_pairs (labelled bs) []))) [
    | inl missing ↦ absurd (
        (lookup-from_pairs-none b.label (labelled bs) [] missing).1 b
          (Memᴰ.map (λ (x : Block B E). (x.label, x)) m))
    | inr found ↦ found
  ]

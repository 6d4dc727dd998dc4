-- ===== src/Cfg/Prune/Correct.antt =====
-- Pruning returns, and returns the reachable blocks (cfg.rs).
use diet_python.Ir.Table.{block_at, block_at-mem}
use diet_python.Prelude.{
  ◌∙◌, ℕ, zero, suc, ◌+◌, ◌≤◌, ◌≡◌, refl, sym, ap, inl, inr, ⊎_elim, ◌↔◌, false, some, List, [],
  ◌∷◌, retain, length, Memᴰ, Bool-cases, Option-cases, retain-mem, mem-retain, if◌then◌else◌, arith,
}
use diet_python.Prelude.Memᴰ
use diet_python.Ir.Label.{BlockLabel}
use diet_python.Ir.Block.{Block, successors}
use diet_python.Cfg.Prune.{
  contains, push_all, expand, visit, all_successors, reachable_labels, prune_unreachable,
}
use diet_python.Cfg.Prune.Reach.{
  contains-mem, mem-contains, length-push_all, push_all-cases, push_all-pushed, Reachable, root,
  follow, Inv, visit-Inv,
}

module _ {ℓ κ} {B : Type ℓ} {E : Type κ} where
  -- The successors of the blocks whose label has not been seen.
  pending : List (Block B E) → List BlockLabel → ℕ
  pending [] seen = 0
  pending (b ∷ bs) seen =
      (if contains seen b.label then 0 else length (successors b.term)) + pending bs seen

  pending-nil : (bs : List (Block B E)) → pending bs [] ≡ all_successors bs
  unfolding pending all_successors
  pending-nil [] = refl
  pending-nil (b ∷ bs) = omega (arith, pending-nil bs)

  pending_mono :
      (bs : List (Block B E)) (l : BlockLabel) (seen : List BlockLabel)
      → pending bs (l ∷ seen) ≤ pending bs seen
  unfolding pending
  pending_mono [] l seen = omega arith
  pending_mono (b ∷ bs) l seen = ground (arith, pending_mono bs l seen)

  pending-drop :
      (bs : List (Block B E)) (l : BlockLabel) (seen : List BlockLabel) {b : Block B E}
      → Memᴰ b bs
      → b.label ≡ l
      → contains seen l ≡ false
      → pending bs (l ∷ seen) + length (successors b.term) ≤ pending bs seen
  unfolding pending
  pending-drop [] l seen h e new = absurd (Memᴰ.not-nil h)
  pending-drop (x ∷ xs) l seen {b} h e new = elim (Memᴰ.cases_cons h) [
    | inl here ↦
        let same : x.label ≡ l = ap (λ (y : Block B E). y.label) (sym here) ∙ e in
        rw (here, same, new) (ground (arith, pending_mono xs l seen))
    | inr later ↦ ground (arith, pending_mono xs l seen, pending-drop xs l seen later e new)
  ]

  expand-cost :
      (bs : List (Block B E)) (l : BlockLabel) (rest seen : List BlockLabel)
      → contains seen l ≡ false
      → length (expand (block_at bs l) rest) + pending bs (l ∷ seen) ≤ length rest + pending bs seen
  unfolding expand
  expand-cost bs l rest seen new = elim (Option-cases (block_at bs l)) [
    | inl missing ↦ rw (missing, expand) (omega (arith, pending_mono bs l seen))
    | inr (b, at) ↦
        let (member, label) = block_at-mem bs l at in
        rw (at, expand)
          (omega (
            arith,
            pending-drop bs l seen member label new,
            length-push_all (successors b.term) rest,
          ))
  ]

  visit_total :
      (bs : List (Block B E)) (n : ℕ) (stack seen : List BlockLabel)
      → length stack + pending bs seen ≤ n
      → (final : List BlockLabel) × (visit bs n stack seen ≡ some final)
  unfolding visit
  visit_total bs zero [] seen h = (seen, refl)
  visit_total bs zero (l ∷ rest) seen h = absurd (omega arith)
  visit_total bs (suc n) [] seen h = (seen, refl)
  visit_total bs (suc n) (l ∷ rest) seen h = elim (Bool-cases (contains seen l)) [
    | inl old ↦ rw (old, visit) (visit_total bs n rest seen (omega arith))
    | inr new ↦
        rw (new, visit)
          (visit_total bs n (expand (block_at bs l) rest) (l ∷ seen)
            (omega (arith, expand-cost bs l rest seen new)))
  ]

  reachable_labels_lem :
      (entry : BlockLabel) (extra_roots : List BlockLabel) (bs : List (Block B E))
      → (final : List BlockLabel) × (reachable_labels entry extra_roots bs ≡ some final)
        × ((l : BlockLabel) → Memᴰ l final ↔ Reachable bs (entry ∷ extra_roots) l)
  unfolding reachable_labels
  reachable_labels_lem entry extra_roots bs =
      let roots = entry ∷ extra_roots in
      let (final, ran) =
        visit_total bs (suc (length extra_roots) + all_successors bs) (push_all roots []) []
          (omega (arith, length-push_all roots [], pending-nil bs)) in
      let inv =
        visit-Inv bs roots (suc (length extra_roots) + all_successors bs) (push_all roots []) []
          final ran
          (record {
            waiting = λ l h. ⊎_elim root (λ e. absurd (Memᴰ.not-nil e)) (push_all-cases roots [] h);
            sound = λ l h. absurd (Memᴰ.not-nil h);
            start = λ l h. inl (push_all-pushed roots [] h);
            closed = λ l k b h. absurd (Memᴰ.not-nil h);
          }) in
      (final, ran, λ l. (inv.sound l, complete final inv))
    where
      complete :
          (final : List BlockLabel)
          → Inv bs (entry ∷ extra_roots) [] final
          → {l : BlockLabel} → Reachable bs (entry ∷ extra_roots) l
          → Memᴰ l final
      complete final inv (root h) = ⊎_elim (λ e. absurd (Memᴰ.not-nil e)) (λ m. m) (inv.start _ h)
      complete final inv (follow {l} {k} {b} r at h) =
          ⊎_elim (λ e. absurd (Memᴰ.not-nil e)) (λ m. m)
            (inv.closed l k b (complete final inv r) at h)

  -- The loop ends, and the blocks that are kept are exactly those whose label control can reach
  -- from the entry or an extra root, through the successors of terminators.
  pub prune_decides :
      (entry : BlockLabel) (extra_roots : List BlockLabel) (bs : List (Block B E))
      → (kept : List (Block B E)) × (prune_unreachable entry extra_roots bs ≡ some kept)
        × ((b : Block B E) → Memᴰ b kept ↔ (Memᴰ b bs × Reachable bs (entry ∷ extra_roots) b.label))
  unfolding prune_unreachable
  prune_decides entry extra_roots bs =
      let (final, ran, reached) = reachable_labels_lem entry extra_roots bs in
      (
        retain (λ b. contains final b.label) bs,
        rw (ran, prune_unreachable),
        λ b. (
          λ m.
              let (member, c) = retain-mem (λ (x : Block B E). contains final x.label) bs m in
              (member, (reached b.label).0 (contains-mem final c)),
          λ (member, r).
              mem-retain (λ (x : Block B E). contains final x.label) bs member
                (mem-contains final ((reached b.label).1 r)),
        ),
      )

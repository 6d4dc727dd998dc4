-- ===== src/Cfg/Prune/Reach.antt =====
-- Pruning keeps the reachable blocks, and its loop ends (cfg.rs).
use diet_python.Ir.Table.{block_at}
use diet_python.Prelude.{
  ℕ, zero, suc, ◌+◌, ◌≡◌, refl, ◌⊎◌, inl, inr, ⊎_elim, ◌==◌, true, Option, none, some, List, [],
  ◌∷◌, length, Memᴰ, Bool-cases, arith, subst,
}
use diet_python.Prelude.Memᴰ
use diet_python.Ir.Label.{BlockLabel}
use diet_python.Ir.Block.{Block, successors}
use diet_python.Cfg.Prune.{contains, push_all, expand, visit}

pub contains-mem : (ls : List BlockLabel) {l : BlockLabel} → contains ls l ≡ true → Memᴰ l ls
contains-mem [] h = absurd (ground arith)
contains-mem (k ∷ ls) {l} h = elim (Bool-cases (k == l)) [
  | inl e ↦ Memᴰ.head (ground arith)
  | inr e ↦ Memᴰ.tail (contains-mem ls (rw e at h))
]

pub mem-contains : (ls : List BlockLabel) {l : BlockLabel} → Memᴰ l ls → contains ls l ≡ true
mem-contains [] h = absurd (Memᴰ.not-nil h)
mem-contains (k ∷ ls) {l} h = elim (Memᴰ.cases_cons h) [
  | inl e ↦ ground arith
  | inr later ↦ ground (arith, mem-contains ls later)
]

pub push_all-cases :
    (ls stack : List BlockLabel) {l : BlockLabel}
    → Memᴰ l (push_all ls stack)
    → Memᴰ l ls ⊎ Memᴰ l stack
unfolding push_all
push_all-cases [] stack h = inr h
push_all-cases (k ∷ ls) stack h = elim (push_all-cases ls (k ∷ stack) h) [
  | inl later ↦ inl (Memᴰ.tail later)
  | inr below ↦ ⊎_elim (λ e. inl (Memᴰ.head e)) inr (Memᴰ.cases_cons below)
]

push_all-stack :
    (ls stack : List BlockLabel) {l : BlockLabel} → Memᴰ l stack → Memᴰ l (push_all ls stack)
unfolding push_all
push_all-stack [] stack h = h
push_all-stack (k ∷ ls) stack h = push_all-stack ls (k ∷ stack) (Memᴰ.tail h)

pub push_all-pushed :
    (ls stack : List BlockLabel) {l : BlockLabel} → Memᴰ l ls → Memᴰ l (push_all ls stack)
unfolding push_all
push_all-pushed [] stack h = absurd (Memᴰ.not-nil h)
push_all-pushed (k ∷ ls) stack h = elim (Memᴰ.cases_cons h) [
  | inl e ↦ push_all-stack ls (k ∷ stack) (Memᴰ.head e)
  | inr later ↦ push_all-pushed ls (k ∷ stack) later
]

pub length-push_all :
    (ls stack : List BlockLabel) → length (push_all ls stack) ≡ length ls + length stack
unfolding push_all
length-push_all [] stack = omega arith
length-push_all (k ∷ ls) stack = omega (arith, length-push_all ls (k ∷ stack))

module _ {ℓ κ} {B : Type ℓ} {E : Type κ} (bs : List (Block B E)) where
  -- The labels to which control can pass from the roots. Exception edges are no successors.
  pub data Reachable (roots : List BlockLabel) : BlockLabel → Type (ℓ ⊔ κ) where
    root : {l : BlockLabel} → Memᴰ l roots → Reachable roots l
    follow :
        {l k : BlockLabel} {b : Block B E}
        → Reachable roots l
        → block_at bs l ≡ some b
        → Memᴰ k (successors b.term)
        → Reachable roots k

  expand-cases :
      (found : Option (Block B E)) (rest : List BlockLabel) {k : BlockLabel}
      → Memᴰ k (expand found rest)
      → Memᴰ k rest ⊎ ((b : Block B E) × (found ≡ some b) × Memᴰ k (successors b.term))
  unfolding expand
  expand-cases none rest h = inl h
  expand-cases (some b) rest h =
      ⊎_elim (λ new. inr (b, refl, new)) inl (push_all-cases (successors b.term) rest h)

  expand-rest :
      (found : Option (Block B E)) (rest : List BlockLabel) {k : BlockLabel}
      → Memᴰ k rest
      → Memᴰ k (expand found rest)
  unfolding expand
  expand-rest none rest h = h
  expand-rest (some b) rest h = push_all-stack (successors b.term) rest h

  expand-successor :
      {found : Option (Block B E)} {b : Block B E} (rest : List BlockLabel) {k : BlockLabel}
      → found ≡ some b
      → Memᴰ k (successors b.term)
      → Memᴰ k (expand found rest)
  unfolding expand
  expand-successor {b = b} rest e h = rw e (push_all-pushed (successors b.term) rest h)

  module _ (roots : List BlockLabel) where
    pub record Inv (stack seen : List BlockLabel) : Type (ℓ ⊔ κ) where
      pub waiting : (l : BlockLabel) → Memᴰ l stack → Reachable roots l
      pub sound : (l : BlockLabel) → Memᴰ l seen → Reachable roots l
      pub start : (l : BlockLabel) → Memᴰ l roots → Memᴰ l stack ⊎ Memᴰ l seen
      pub closed :
          (l k : BlockLabel) (b : Block B E)
          → Memᴰ l seen
          → block_at bs l ≡ some b
          → Memᴰ k (successors b.term)
          → Memᴰ k stack ⊎ Memᴰ k seen

    -- What was on the stack stays on it, or is the label that was taken off.
    popped :
        {l k : BlockLabel} {rest seen : List BlockLabel}
        → Memᴰ l seen
        → Memᴰ k (l ∷ rest) ⊎ Memᴰ k seen
        → Memᴰ k rest ⊎ Memᴰ k seen
    popped {seen = seen} old (inl here) =
        ⊎_elim (λ e. inr (Memᴰ.cast e old)) inl (Memᴰ.cases_cons here)
    popped old (inr s) = inr s

    Inv-old :
        (l : BlockLabel) (rest seen : List BlockLabel)
        → Memᴰ l seen
        → Inv (l ∷ rest) seen
        → Inv rest seen
    Inv-old l rest seen old inv = record {
      waiting = λ k h. inv.waiting k (Memᴰ.tail h);
      sound = inv.sound;
      start = λ k h. popped old (inv.start k h);
      closed = λ j k b s at h. popped old (inv.closed j k b s at h);
    }

    moved :
        {l k : BlockLabel} (rest seen : List BlockLabel)
        → Memᴰ k (l ∷ rest) ⊎ Memᴰ k seen
        → Memᴰ k (expand (block_at bs l) rest) ⊎ Memᴰ k (l ∷ seen)
    moved {l} rest seen (inl here) =
        ⊎_elim (λ e. inr (Memᴰ.head e)) (λ m. inl (expand-rest (block_at bs l) rest m))
          (Memᴰ.cases_cons here)
    moved rest seen (inr s) = inr (Memᴰ.tail s)

    Inv-new :
        (l : BlockLabel) (rest seen : List BlockLabel)
        → Inv (l ∷ rest) seen
        → Inv (expand (block_at bs l) rest) (l ∷ seen)
    Inv-new l rest seen inv = record {
      waiting = λ k h.
          ⊎_elim (λ m. inv.waiting k (Memᴰ.tail m))
            (λ (b, at, m). follow (inv.waiting l (Memᴰ.head refl)) at m)
            (expand-cases (block_at bs l) rest h);
      sound = λ k h. ⊎_elim (λ e. inv.waiting k (Memᴰ.head e)) (inv.sound k) (Memᴰ.cases_cons h);
      start = λ k h. moved rest seen (inv.start k h);
      closed = λ j k b s at h.
          ⊎_elim (λ e. inl (expand-successor rest (rw e at at) h))
            (λ m. moved rest seen (inv.closed j k b m at h)) (Memᴰ.cases_cons s);
    }

    pub visit-Inv :
        (n : ℕ) (stack seen final : List BlockLabel)
        → visit bs n stack seen ≡ some final
        → Inv stack seen
        → Inv [] final
    unfolding visit
    visit-Inv zero [] seen final h inv = subst (Inv []) (ground arith) inv
    visit-Inv zero (l ∷ rest) seen final h inv = absurd (cc)
    visit-Inv (suc n) [] seen final h inv = subst (Inv []) (ground arith) inv
    visit-Inv (suc n) (l ∷ rest) seen final h inv = elim (Bool-cases (contains seen l)) [
      | inl old ↦
          visit-Inv n rest seen final (rw (old, visit) at h)
            (Inv-old l rest seen (contains-mem seen old) inv)
      | inr new ↦
          visit-Inv n (expand (block_at bs l) rest) (l ∷ seen) final (rw (new, visit) at h)
            (Inv-new l rest seen inv)
    ]

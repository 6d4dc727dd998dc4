-- ===== src/Instrument/Fragment/Walk.antt =====
-- The walk over a fragment is right (soac-blockpy/src/passes/instrument.rs).
use diet_python.Prelude.{
  ◌++◌, ==_iff, ℕ, zero, suc, ◌==◌, Bool, true, false, none, some, List, [], ◌∷◌, Memᴰ, Map, lookup,
  insert, ◌≡◌, refl, ◌⊎◌, inl, inr, arith, Bool-cases, Option-cases, subst, sym, >>=-eq-some,
}
use diet_python.Prelude.Memᴰ
use diet_python.Ir.Label.{BlockLabel, is_fallthrough}
use diet_python.Ir.Block.{Block, BlockTerm, jump, if_term, branch_table, raise, return, successors}
use diet_python.Cfg.Prune.{contains}
use diet_python.Cfg.Prune.Reach.{contains-mem}
use diet_python.Instrument.Fragment.{
  Walked, Visit, all_targets, term_ends, enter, remember, all_paths_end_in_fallthrough,
}
use diet_python.Instrument.Fragment.Paths.{
  continues, Edge, AlwaysEnds, ends, Reaches, here, step, Leads, Reaches-cases, acyclic,
}

module _ {ℓ} {E : Type ℓ} (blocks : Map (Block E E)) (root : BlockLabel) where
  -- The paths from the label end, and the walk has met what they meet.
  pub record Closed (l : BlockLabel) (w : Walked) : Type ℓ where
    pub ending : AlwaysEnds blocks l
    pub met : (m : BlockLabel) → Reaches blocks l m → Memᴰ m w.reachable

  pub record Sound (w : Walked) : Type ℓ where
    pub yes : (l : BlockLabel) → lookup l w.memo ≡ some true → Closed l w
    pub no : (l : BlockLabel) → lookup l w.memo ≡ some false → ¬ AlwaysEnds blocks l
    pub seen : (l : BlockLabel) → Memᴰ l w.reachable → Reaches blocks root l

  abbrev Grows : Walked → Walked → Type 0
  Grows w w' = (l : BlockLabel) → Memᴰ l w.reachable → Memᴰ l w'.reachable

  Closed-Grows : {l : BlockLabel} {w w' : Walked} → Grows w w' → Closed l w → Closed l w'
  Closed-Grows g c = record { ending = c.ending; met = λ m r. g m (c.met m r) }

  -- What is true of an answer: `yes` and `no` say what the two answers mean.
  pub record Outcome (Yes : Walked → Type ℓ) (No : Type ℓ) (w : Walked) (r : Bool × Walked)
      : Type ℓ where
    pub sound : Sound r.1
    pub grows : Grows w r.1
    pub yes : r.0 ≡ true → Yes r.1
    pub no : r.0 ≡ false → No

  abbrev VisitOk : Visit → BlockLabel → Type ℓ
  VisitOk visit l =
      (w : Walked) (r : Bool × Walked)
      → Sound w
      → visit l w ≡ some r
      → Outcome (Closed l) (¬ AlwaysEnds blocks l) w r

  abbrev Inside : List BlockLabel → BlockLabel → Type 0
  Inside ts t = Memᴰ t ts × (is_fallthrough t ≡ false)

  abbrev TargetsOutcome : List BlockLabel → Walked → Bool × Walked → Type ℓ
  TargetsOutcome ts =
      Outcome (λ w. (t : BlockLabel) → Inside ts t → Closed t w)
        ((t : BlockLabel) × Inside ts t × (¬ AlwaysEnds blocks t))

  all_targets-Outcome :
      (visit : Visit) (ts : List BlockLabel)
      → ((t : BlockLabel) → Inside ts t → VisitOk visit t)
      → (w : Walked) (r : Bool × Walked) → Sound w
      → all_targets visit ts w ≡ some r
      → TargetsOutcome ts w r
  unfolding all_targets
  all_targets-Outcome visit [] ok w r s h =
      let e : (true, w) ≡ r = cc in
      subst (TargetsOutcome [] w) e (record {
        sound = s;
        grows = λ l m. m;
        yes = λ _ t (m, _). absurd (Memᴰ.not-nil m);
        no = λ p. absurd (ground arith);
      })
  all_targets-Outcome visit (t ∷ ts) ok w r s h = elim (Bool-cases (is_fallthrough t)) [
    | inl out ↦
        let o =
          all_targets-Outcome visit ts (λ u (m, i). ok u (Memᴰ.tail m, i)) w r s (rw out at h) in
        record {
          sound = o.sound;
          grows = o.grows;
          yes = λ p u (m, i). elim (Memᴰ.cases_cons m) [
            | inl e ↦ absurd (ground arith)
            | inr later ↦ o.yes p u (later, i)
          ];
          no = λ p. let (u, (m, i), bad) = o.no p in (u, (Memᴰ.tail m, i), bad);
        }
    | inr inside ↦
        let ((valid, w'), ran, rest) = >>=-eq-some (visit t w) _ (rw inside at h) in
        let first = ok t (Memᴰ.head refl, inside) w (valid, w') s ran in
        elim (Bool-cases valid) [
          | inl good ↦
              let o =
                all_targets-Outcome visit ts (λ u (m, i). ok u (Memᴰ.tail m, i)) w' r first.sound
                  (rw good at rest) in
              record {
                sound = o.sound;
                grows = λ l m. o.grows l (first.grows l m);
                yes = λ p u (m, i). elim (Memᴰ.cases_cons m) [
                  | inl e ↦ rw e (Closed-Grows o.grows (first.yes good))
                  | inr later ↦ o.yes p u (later, i)
                ];
                no = λ p. let (u, (m, i), bad) = o.no p in (u, (Memᴰ.tail m, i), bad);
              }
          | inr stopped ↦
              let e : (false, w') ≡ r = cc (rw stopped at rest) in
              subst (TargetsOutcome (t ∷ ts) w) e (record {
                sound = first.sound;
                grows = first.grows;
                yes = λ p. absurd (ground arith);
                no = λ _. (t, (Memᴰ.head refl, inside), first.no stopped);
              })
        ]
  ]

  abbrev TermOutcome : BlockTerm E → Walked → Bool × Walked → Type ℓ
  TermOutcome t =
      Outcome
        (λ w. (continues t ≡ true) × ((u : BlockLabel) → Inside (successors t) u → Closed u w))
        ((continues t ≡ false)
          ⊎ ((u : BlockLabel) × Inside (successors t) u × (¬ AlwaysEnds blocks u)))

  targets :
      (t : BlockTerm E) {w : Walked} {r : Bool × Walked}
      → continues t ≡ true
      → TargetsOutcome (successors t) w r
      → TermOutcome t w r
  targets t goes o = record {
    sound = o.sound;
    grows = o.grows;
    yes = λ p. (goes, o.yes p);
    no = λ p. inr (o.no p);
  }

  leaves :
      (t : BlockTerm E) {w : Walked} {r : Bool × Walked}
      → continues t ≡ false
      → Sound w
      → some (false, w) ≡ some r
      → TermOutcome t w r
  leaves t {w} {r} stops s h =
      let e : (false, w) ≡ r = cc h in
      subst (TermOutcome t w) e (record {
        sound = s;
        grows = λ l m. m;
        yes = λ p. absurd (ground arith);
        no = λ _. inl stops;
      })

  term_ends-Outcome :
      (visit : Visit) (t : BlockTerm E)
      → ((u : BlockLabel) → Inside (successors t) u → VisitOk visit u)
      → (w : Walked) (r : Bool × Walked) → Sound w
      → term_ends visit t w ≡ some r
      → TermOutcome t w r
  unfolding term_ends successors continues
  term_ends-Outcome visit (jump e) ok w r s h =
      targets (jump e) refl (all_targets-Outcome visit (e.target ∷ []) ok w r s h)
  term_ends-Outcome visit (if_term c a b) ok w r s h =
      targets (if_term c a b) refl (all_targets-Outcome visit (a ∷ b ∷ []) ok w r s h)
  term_ends-Outcome visit (branch_table i ts d) ok w r s h =
      targets (branch_table i ts d) refl (all_targets-Outcome visit (ts ++ d ∷ []) ok w r s h)
  term_ends-Outcome visit (raise x) ok w r s h = leaves (raise x) refl s h
  term_ends-Outcome visit (return x) ok w r s h = leaves (return x) refl s h

  enter-Sound : {l : BlockLabel} {w : Walked} → Reaches blocks root l → Sound w → Sound (enter l w)
  unfolding enter
  enter-Sound {l} {w} reached s = record {
    yes = λ k p. Closed-Grows (λ m. Memᴰ.tail) (s.yes k p);
    no = s.no;
    seen = λ k m. elim (Memᴰ.cases_cons m) [ inl e ↦ rw e reached | inr old ↦ s.seen k old ];
  }

  -- The answer for a block, from the answer for its terminator.
  block-Outcome :
      {l : BlockLabel} {b : Block E E} {w : Walked} (done : Bool × Walked)
      → lookup l blocks ≡ some b
      → TermOutcome b.term (enter l w) done
      → Outcome (Closed l) (¬ AlwaysEnds blocks l) w (remember l done)
  unfolding enter remember
  block-Outcome {l} {b} {w} (valid, w') found o = record {
    sound = record {
      yes = λ k p. elim (Bool-cases (l == k)) [
        | inl e ↦
            let v : valid ≡ true = cc (rw e at p) in
            let same : l ≡ k = (==_iff l k).0 e in rw (sym same) (again (closed v))
        | inr e ↦ again (o.sound.yes k (rw e at p))
      ];
      no = λ k p. elim (Bool-cases (l == k)) [
        | inl e ↦
            let v : valid ≡ false = cc (rw e at p) in
            let same : l ≡ k = (==_iff l k).0 e in rw (sym same) (refused v)
        | inr e ↦ o.sound.no k (rw e at p)
      ];
      seen = o.sound.seen;
    };
    grows = λ k m. o.grows k (Memᴰ.tail m);
    yes = λ v. again (closed v);
    no = refused;
  }
    where
      kept : Walked
      kept = record w' { memo = insert l valid w'.memo }

      again : {k : BlockLabel} → Closed k w' → Closed k kept
      again c = record { ending = c.ending; met = c.met }

      closed : valid ≡ true → Closed l w'
      closed v =
          let (goes, each) = o.yes v in
          record {
            ending = ends found goes (λ t m inside. (each t (m, inside)).ending);
            met = λ m r. elim (Reaches-cases blocks r) [
              | inl e ↦ o.grows m (Memᴰ.head (sym e))
              | inr (t, (c, at, m', inside), rest) ↦
                  let same : c ≡ b = cc in
                  let there = subst (λ (x : Block E E). Memᴰ t (successors x.term)) same m' in
                  (each t (there, inside)).met m rest
            ];
          }

      refused : valid ≡ false → ¬ AlwaysEnds blocks l
      refused v (ends {b = c} at goes each) =
          let same : c ≡ b = cc in
          elim (o.no v) [
            | inl stops ↦ absurd (cc)
            | inr (u, (m, inside), bad) ↦
                bad (
                  each u (subst (λ (x : Block E E). Memᴰ u (successors x.term)) (sym same) m)
                    inside)
          ]

  outside : {l : BlockLabel} → lookup l blocks ≡ none → ¬ AlwaysEnds blocks l
  outside missing (ends at goes each) = absurd (cc)

  -- Asked for a label that the root reaches and that the stack's labels lead to, the walk says
  -- whether its paths end.
  pub walk-Outcome :
      (depth : ℕ) (stack : List BlockLabel) (l : BlockLabel)
      → Reaches blocks root l
      → ((k : BlockLabel) → Memᴰ k stack → Leads blocks k l)
      → VisitOk (all_paths_end_in_fallthrough blocks depth stack) l
  unfolding all_paths_end_in_fallthrough enter
  walk-Outcome zero stack l reached back w r s h = absurd (cc)
  walk-Outcome (suc depth) stack l reached back w r s h = elim (Option-cases (lookup l w.memo)) [
    | inr (valid, known) ↦ known_lem valid known (rw (known, all_paths_end_in_fallthrough) at h)
    | inl new ↦ elim (Bool-cases (contains stack l)) [
      | inl below ↦
          refused_lem (λ e. acyclic blocks e (back l (contains-mem stack below)))
            (rw (new, below, all_paths_end_in_fallthrough) at h)
      | inr fresh ↦ elim (Option-cases (lookup l blocks)) [
        | inl missing ↦
            refused_lem (outside missing)
              (rw (new, fresh, missing, all_paths_end_in_fallthrough) at h)
        | inr (b, found) ↦
            let (done, ran, e) =
              >>=-eq-some
                (term_ends (all_paths_end_in_fallthrough blocks depth (l ∷ stack)) b.term
                  (enter l w))
                _ (rw (new, fresh, found, all_paths_end_in_fallthrough) at h) in
            let same : remember l done ≡ r = cc in
            subst (Outcome (Closed l) (¬ AlwaysEnds blocks l) w) same (
              block-Outcome done found (
                term_ends-Outcome _ b.term
                  (λ u (m, inside).
                    walk-Outcome depth (l ∷ stack) u (step reached (b, found, m, inside))
                      (below_lem (b, found, m, inside)))
                  (enter l w) done (enter-Sound reached s) ran))
      ]
    ]
  ]
    where
      refused_lem :
          ¬ AlwaysEnds blocks l
          → some (false, w) ≡ some r
          → Outcome (Closed l) (¬ AlwaysEnds blocks l) w r
      refused_lem bad h =
          let e : (false, w) ≡ r = cc h in
          subst (Outcome (Closed l) (¬ AlwaysEnds blocks l) w) e (record {
            sound = s;
            grows = λ l m. m;
            yes = λ p. absurd (ground arith);
            no = λ _. bad;
          })

      known_lem :
          (valid : Bool)
          → lookup l w.memo ≡ some valid
          → some (valid, enter l w) ≡ some r
          → Outcome (Closed l) (¬ AlwaysEnds blocks l) w r
      known_lem valid known h =
          let e : (valid, enter l w) ≡ r = cc h in
          subst (Outcome (Closed l) (¬ AlwaysEnds blocks l) w) e (record {
            sound = enter-Sound reached s;
            grows = λ k m. Memᴰ.tail m;
            yes = λ p. Closed-Grows (λ k m. Memᴰ.tail m) (s.yes l (rw p at known));
            no = λ p. s.no l (rw p at known);
          })

      below_lem :
          {u : BlockLabel}
          → Edge blocks l u
          → (k : BlockLabel) → Memᴰ k (l ∷ stack)
          → Leads blocks k u
      below_lem edge k m = elim (Memᴰ.cases_cons m) [
        | inl e ↦ rw e (_, edge, here)
        | inr old ↦ let (t, first, rest) = back k old in (t, first, step rest edge)
      ]

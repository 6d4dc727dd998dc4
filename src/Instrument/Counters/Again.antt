-- ===== src/Instrument/Counters/Again.antt =====
-- A counter that was asked for is found again (soac-blockpy/src/passes/instrument.rs).
use diet_python.Prelude.{
  ℕ, ◌≡◌, refl, sym, ap, ◌∙◌, str_eq_iff, Bool, true, none, some, List, [], ◌∷◌, ◌++◌, find, inl,
  inr, Bool-cases, Option-cases, ==_refl, append-nil, append_assoc,
}
use diet_python.Instrument.Counters.{
  CounterScope, this, function, global, scope_eq, CounterSite, block_entry, runtime, function_id_eq,
  instr_id_eq, site_eq, CounterSpec, CounterDef, CounterBuilder, define, has_spec,
  define_if_missing, CounterCall, define_call, define_if_missing_call, call, calls,
}

scope_eq_refl : (s : CounterScope) → scope_eq s s ≡ true
unfolding scope_eq
scope_eq_refl this = refl
scope_eq_refl function = refl
scope_eq_refl global = refl

site_eq_refl : (s : CounterSite) → site_eq s s ≡ true
unfolding site_eq function_id_eq instr_id_eq
site_eq_refl (block_entry f l) = rw (==_refl f.packed, ==_refl l) refl
site_eq_refl (runtime none none) = refl
site_eq_refl (runtime (some f) none) = rw (==_refl f.packed) refl
site_eq_refl (runtime none (some i)) =
    rw (==_refl i.block_label, ==_refl i.instr_index_in_block) refl
site_eq_refl (runtime (some f) (some i)) =
    rw (==_refl f.packed, ==_refl i.block_label, ==_refl i.instr_index_in_block) refl

has_spec_refl : (i : ℕ) (s : CounterSpec) → has_spec s (record { id = i; spec = s }) ≡ true
unfolding has_spec
has_spec_refl i s =
    rw (scope_eq_refl s.scope, (str_eq_iff s.kind s.kind).1 refl, site_eq_refl s.site) refl

module _ {ℓ} {A : Type ℓ} (p : A → Bool) where
  find-append_some : (xs ys : List A) {x : A} → find p xs ≡ some x → find p (xs ++ ys) ≡ some x
  find-append_some [] ys h = absurd (cc)
  find-append_some (y ∷ xs) ys h = elim (Bool-cases (p y)) [
    | inl e ↦ rw e (rw e at h)
    | inr e ↦ rw e (find-append_some xs ys (rw e at h))
  ]

  find-append_none :
      (xs : List A) (x : A) → find p xs ≡ none → p x ≡ true → find p (xs ++ x ∷ []) ≡ some x
  find-append_none [] x h e = rw e refl
  find-append_none (y ∷ xs) x h e = elim (Bool-cases (p y)) [
    | inl q ↦ absurd (let bad = rw q at h in cc)
    | inr q ↦ rw q (find-append_none xs x (rw q at h) e)
  ]

-- The builder's definitions are kept by a call.
abbrev Longer : CounterBuilder → CounterBuilder → Type 0
Longer b b' = (added : List CounterDef) × (b'.defs ≡ b.defs ++ added)

call-Longer : (c : CounterCall) (b : CounterBuilder) → Longer b (call c b)
unfolding call define define_if_missing
call-Longer (define_call s) b = (_, refl)
call-Longer (define_if_missing_call s) b = elim (Option-cases (find (has_spec s) b.defs)) [
  | inl missing ↦ rw (missing, call) (_, refl)
  | inr (d, found) ↦ rw (found, call) ([], sym (append-nil b.defs))
]

calls-Longer : (cs : List CounterCall) (b : CounterBuilder) → Longer b (calls cs b)
unfolding calls
calls-Longer [] b = ([], sym (append-nil b.defs))
calls-Longer (c ∷ cs) b =
    let (first, p) = call-Longer c b in
    let (rest, q) = calls-Longer cs (call c b) in
    (first ++ rest, q ∙ ap (λ ds. ds ++ rest) p ∙ append_assoc b.defs first rest)

define_if_missing-found :
    (s : CounterSpec) (b : CounterBuilder) {d : CounterDef}
    → find (has_spec s) b.defs ≡ some d
    → define_if_missing s b ≡ (d.id, b)
unfolding define_if_missing
define_if_missing-found s b found = rw (found, define_if_missing) refl

-- The definition that the call's handle is the id of.
define_if_missing-finds :
    (s : CounterSpec) (b : CounterBuilder)
    → (d : CounterDef) × (find (has_spec s) (define_if_missing s b).1.defs ≡ some d)
      × (d.id ≡ (define_if_missing s b).0)
unfolding define_if_missing define
define_if_missing-finds s b = elim (Option-cases (find (has_spec s) b.defs)) [
  | inl missing ↦
      rw (missing, define_if_missing)
        (
          record { id = b.next_id; spec = s },
          find-append_none (has_spec s) b.defs _ missing (has_spec_refl b.next_id s),
          refl,
        )
  | inr (d, found) ↦ rw (found, define_if_missing) (d, found, refl)
]

-- After `define_if_missing`, and after any further calls, asking for the same counter gives the same
-- handle and changes nothing.
pub define_if_missing-again :
    (s : CounterSpec) (cs : List CounterCall) (b : CounterBuilder)
    → define_if_missing s (calls cs (define_if_missing s b).1)
      ≡ ((define_if_missing s b).0, calls cs (define_if_missing s b).1)
define_if_missing-again s cs b =
    let (d, found, id) = define_if_missing-finds s b in
    let after = calls cs (define_if_missing s b).1 in
    let (added, kept) = calls-Longer cs (define_if_missing s b).1 in
    let still : find (has_spec s) after.defs ≡ some d =
      rw kept (find-append_some (has_spec s) _ added found) in
    define_if_missing-found s after still ∙ ap (λ i. (i, after)) id

-- ===== src/Instrument/Counters/Laws.antt =====
-- Ids of counters are not used twice, and a counter is found again
-- (soac-blockpy/src/passes/instrument.rs).
use diet_python.Prelude.{
  mem-append_last, Bool-cases, ◌≤◌, ◌^◌, length, if◌then◌else◌, ℕ, ◌+◌, ◌<◌, ◌≡◌, ◌≢◌, refl, sym,
  ap, ◌∙◌, none, some, List, [], ◌∷◌, ◌++◌, find, Memᴰ, inl, inr, Option-cases, arith, append-nil,
  append_assoc, ltb,
}
use diet_python.Prelude.Memᴰ
use diet_python.Instrument.Counters.{
  CounterSpec, CounterDef, CounterBuilder, max_id, new, define, has_spec, define_if_missing,
  CounterCall, define_call, define_if_missing_call, call, calls,
}

-- No two definitions share an id.
pub data HasOwnIds : List CounterDef → Type 0 where
  none_left : HasOwnIds []
  one_more :
      {d : CounterDef} {ds : List CounterDef}
      → ((e : CounterDef) → Memᴰ e ds → d.id ≢ e.id)
      → HasOwnIds ds
      → HasOwnIds (d ∷ ds)

abbrev pub AllBelow : ℕ → List CounterDef → Type 0
AllBelow n ds = (d : CounterDef) → Memᴰ d ds → d.id < n

HasOwnIds-append :
    (ds : List CounterDef) (e : CounterDef)
    → AllBelow e.id ds
    → HasOwnIds ds
    → HasOwnIds (ds ++ e ∷ [])
HasOwnIds-append [] e below own = one_more (λ d m. absurd (Memᴰ.not-nil m)) none_left
HasOwnIds-append (d ∷ ds) e below (one_more others own) =
    one_more
      (λ c m. elim (mem-append_last ds e m) [
        | inl old ↦ others c old
        | inr at ↦ λ same.
            let id : c.id ≡ e.id = ap (λ (x : CounterDef). x.id) at in
            omega (arith, below d (Memᴰ.head refl))
      ])
      (HasOwnIds-append ds e (λ c m. below c (Memᴰ.tail m)) own)

-- What the calls keep, from a list of definitions on.
pub record Extends (defs : List CounterDef) (b : CounterBuilder) : Type 0 where
  pub added : List CounterDef
  pub kept : b.defs ≡ defs ++ added
  pub below : AllBelow b.next_id b.defs
  pub own : HasOwnIds b.defs

-- A list with an element has a largest id.
no_max : (ds : List CounterDef) {e : CounterDef} → max_id ds ≡ none → ¬ Memᴰ e ds
unfolding max_id
no_max [] h = Memᴰ.not-nil
no_max (d ∷ ds) h = elim (Option-cases (max_id ds)) [
  | inl empty ↦ absurd (let bad = rw empty at h in cc)
  | inr (k, top) ↦ absurd (let bad = rw top at h in cc)
]

AllBelow-max : (ds : List CounterDef) (m : ℕ) → max_id ds ≡ some m → AllBelow (m + 1) ds
unfolding max_id
AllBelow-max [] m h e at = absurd (Memᴰ.not-nil at)
AllBelow-max (d ∷ ds) m h e at = elim (Option-cases (max_id ds)) [
  | inl empty ↦ elim (Memᴰ.cases_cons at) [
    | inl here ↦
        let first : e.id ≡ d.id = ap (λ (x : CounterDef). x.id) here in
        let top : some d.id ≡ some m = rw empty at h in let only : d.id ≡ m = cc top in omega arith
    | inr later ↦ absurd (no_max ds empty later)
  ]
  | inr (k, top) ↦
      let largest : some (if ltb d.id k then k else d.id) ≡ some m = rw top at h in
      let same : (if ltb d.id k then k else d.id) ≡ m = cc largest in
      elim (Memᴰ.cases_cons at) [
        | inl here ↦ let first : e.id ≡ d.id = ap (λ (x : CounterDef). x.id) here in ground arith
        | inr later ↦ let lower = AllBelow-max ds k top e later in ground arith
      ]
]

max_id-mem :
    (ds : List CounterDef) (m : ℕ) → max_id ds ≡ some m → (d : CounterDef) × Memᴰ d ds × (d.id ≡ m)
unfolding max_id
max_id-mem [] m h = absurd (cc)
max_id-mem (d ∷ ds) m h = elim (Option-cases (max_id ds)) [
  | inl empty ↦ let top : some d.id ≡ some m = rw empty at h in (d, Memᴰ.head refl, cc top)
  | inr (k, top) ↦
      let largest : some (if ltb d.id k then k else d.id) ≡ some m = rw top at h in
      let same : (if ltb d.id k then k else d.id) ≡ m = cc largest in
      elim (Bool-cases (ltb d.id k)) [
        | inl e ↦ let (x, at, id) = max_id-mem ds k top in (x, Memᴰ.tail at, id ∙ (rw e at same))
        | inr e ↦ (d, Memᴰ.head refl, rw e at same)
      ]
]

-- A bound on the ids bounds the next one.
new_below : (defs : List CounterDef) (n : ℕ) → AllBelow n defs → n < 2 ^ 64 → (new defs).next_id ≤ n
unfolding new
new_below defs n low fits = elim (Option-cases (max_id defs)) [
  | inl empty ↦ rw (empty, new) (omega arith)
  | inr (m, top) ↦
      let (d, at, id) = max_id-mem defs m top in rw (top, new) (omega (arith, low d at))
]

new-Extends :
    (defs : List CounterDef) (n : ℕ)
    → AllBelow n defs
    → n < 2 ^ 64
    → HasOwnIds defs
    → Extends defs (new defs)
unfolding new
new-Extends defs n low fits own = elim (Option-cases (max_id defs)) [
  | inl empty ↦
      rw (empty, new)
        (record {
          added = [];
          kept = sym (append-nil defs);
          below = λ d m. absurd (no_max defs empty m);
          own = own;
        })
  | inr (m, top) ↦
      rw (top, new)
        (record {
          added = [];
          kept = sym (append-nil defs);
          below = λ d at.
              let (e, has, id) = max_id-mem defs m top in
              omega (arith, low e has, AllBelow-max defs m top d at);
          own = own;
        })
]

define-Extends :
    (defs : List CounterDef) (s : CounterSpec) (b : CounterBuilder)
    → b.next_id + 1 < 2 ^ 64
    → Extends defs b
    → Extends defs (define s b).1
unfolding define
define-Extends defs s b fits x = record {
  added = x.added ++ made ∷ [];
  kept = ap (λ ds. ds ++ made ∷ []) x.kept ∙ append_assoc defs x.added (made ∷ []);
  below = λ d m. elim (mem-append_last b.defs made m) [
    | inl old ↦ omega (arith, x.below d old)
    | inr at ↦ let id : d.id ≡ b.next_id = ap (λ (y : CounterDef). y.id) at in omega arith
  ];
  own = HasOwnIds-append b.defs made x.below x.own;
}
  where
    made : CounterDef
    made = record { id = b.next_id; spec = s }

call-Extends :
    (defs : List CounterDef) (c : CounterCall) (b : CounterBuilder)
    → b.next_id + 1 < 2 ^ 64
    → Extends defs b
    → Extends defs (call c b) × ((call c b).next_id ≤ b.next_id + 1)
unfolding call define_if_missing define
call-Extends defs (define_call s) b fits x = (define-Extends defs s b fits x, omega arith)
call-Extends defs (define_if_missing_call s) b fits x =
    elim (Option-cases (find (has_spec s) b.defs)) [
      | inl missing ↦ rw (missing, call) (define-Extends defs s b fits x, omega arith)
      | inr (d, found) ↦ rw (found, call) (x, omega arith)
    ]

calls-Extends :
    (defs : List CounterDef) (cs : List CounterCall) (b : CounterBuilder)
    → b.next_id + length cs < 2 ^ 64
    → Extends defs b
    → Extends defs (calls cs b)
unfolding calls
calls-Extends defs [] b fits x = x
calls-Extends defs (c ∷ cs) b fits x =
    let (first, more) = call-Extends defs c b (omega arith) x in
    calls-Extends defs cs (call c b) (omega arith) first

-- If the ids of some definitions are distinct and below a number, and that number and the number of
-- calls add up to less than 2 ^ 64, then after the calls the list is kept, with definitions added
-- after it; every id is below the next one; and no two definitions share an id.
pub calls-new :
    (defs : List CounterDef) (cs : List CounterCall) (n : ℕ)
    → AllBelow n defs
    → n + length cs < 2 ^ 64
    → HasOwnIds defs
    → Extends defs (calls cs (new defs))
calls-new defs cs n low fits own =
    calls-Extends defs cs (new defs) (omega (arith, new_below defs n low (omega arith)))
      (new-Extends defs n low (omega arith) own)

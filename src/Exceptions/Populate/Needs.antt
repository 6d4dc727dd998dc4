-- ===== src/Exceptions/Populate/Needs.antt =====
-- Which argument an exception edge passes for each parameter (bb_shape.rs).
use text.Mathlib.Text.{starts_with}
use diet_python.Prelude.{
  Forall₂, ◌≡◌, refl, sym, ap, String, str_eq, str_eq_iff, ◌||◌, Bool, true, Option, none, some,
  List, [], ◌∷◌, any-mem, ◌⊎◌, inl, inr, Memᴰ, Bool-cases, arith, ◌↔◌,
}
use diet_python.Prelude.Memᴰ
use diet_python.Ir.Block.{
  Block, BlockArg, BlockEdge, BlockTerm, jump, if_term, branch_table, raise, return,
  exception_param, param_name_vec, current_exception, none_arg,
}
use diet_python.Exceptions.Populate.{
  block_at, edge_args, map, populate_block, edge_arg, mentions, has_owner, exception_aliases,
  term_aliases, is_exc_name,
}
use diet_python.Exceptions.Populate.Args.{populated_edge-args, mentions-mem}

module _ {ℓ κ} {B : Type ℓ} {E : Type κ} where
  -- The parameter of the target stands for the exception: it is the exception parameter, or the
  -- target passes it on in a jump and its name says so.
  abbrev pub TakesException : Block B E → String → Type κ
  TakesException target n =
      (exception_param target.params ≡ some n)
      ⊎ ((starts_with n "_dp_try_exc_" ≡ true)
          × ((e : BlockEdge) × (target.term ≡ jump e) × Memᴰ (BlockArg.name n) e.args))

  -- The source can pass the name: it is one of its parameters, or it has the owner of all names.
  abbrev pub CanPass : Block B E → String → Type 0
  CanPass source n =
      Memᴰ n (param_name_vec source.params)
      ⊎ (Memᴰ "_dp_self" (param_name_vec source.params)
          ⊎ Memᴰ "_dp_state" (param_name_vec source.params))

  pub record IsArgFor (source target : Block B E) (n : String) (a : BlockArg) : Type κ where
    pub exception : TakesException target n → a ≡ current_exception
    pub passed : ¬ TakesException target n → CanPass source n → a ≡ BlockArg.name n
    pub missing : ¬ TakesException target n → ¬ CanPass source n → a ≡ none_arg

mem-mentions : (names : List String) (n : String) → Memᴰ n names → mentions names n ≡ true
mem-mentions names n m = any-mem (λ x. str_eq x n) names m ((str_eq_iff n n).1 refl)

is_exc_name_iff : (exc : Option String) (n : String) → (is_exc_name exc n ≡ true) ↔ (exc ≡ some n)
unfolding is_exc_name
is_exc_name_iff none n = (λ h. absurd (cc), λ h. absurd (cc))
is_exc_name_iff (some x) n =
    (λ h. ap some ((str_eq_iff x n).0 h), λ h. let same : x ≡ n = cc h in (str_eq_iff x n).1 same)

-- The aliases among arguments.
exception_aliases-mem :
    (args : List BlockArg) (n : String)
    → Memᴰ n (exception_aliases args)
    → (starts_with n "_dp_try_exc_" ≡ true) × Memᴰ (BlockArg.name n) args
unfolding exception_aliases
exception_aliases-mem [] n h = absurd (Memᴰ.not-nil h)
exception_aliases-mem (BlockArg.name x ∷ args) n h =
    elim (Bool-cases (starts_with x "_dp_try_exc_")) [
      | inl e ↦ elim (Memᴰ.cases_cons (rw e at h)) [
        | inl same ↦ (rw same e, Memᴰ.head (ap BlockArg.name same))
        | inr later ↦ let (p, m) = exception_aliases-mem args n later in (p, Memᴰ.tail m)
      ]
      | inr e ↦ let (p, m) = exception_aliases-mem args n (rw e at h) in (p, Memᴰ.tail m)
    ]
exception_aliases-mem (BlockArg.none_arg ∷ args) n h =
    let (p, m) = exception_aliases-mem args n h in (p, Memᴰ.tail m)
exception_aliases-mem (BlockArg.current_exception ∷ args) n h =
    let (p, m) = exception_aliases-mem args n h in (p, Memᴰ.tail m)
exception_aliases-mem (BlockArg.abrupt_kind k ∷ args) n h =
    let (p, m) = exception_aliases-mem args n h in (p, Memᴰ.tail m)

mem-exception_aliases :
    (args : List BlockArg) (n : String)
    → starts_with n "_dp_try_exc_" ≡ true
    → Memᴰ (BlockArg.name n) args
    → Memᴰ n (exception_aliases args)
unfolding exception_aliases
mem-exception_aliases [] n p m = absurd (Memᴰ.not-nil m)
mem-exception_aliases (BlockArg.name x ∷ args) n p m = elim (Memᴰ.cases_cons m) [
  | inl here ↦
      let same : n ≡ x = cc here in
      let e : starts_with x "_dp_try_exc_" ≡ true = rw same at p in rw e (Memᴰ.head same)
  | inr later ↦
      let rest = mem-exception_aliases args n p later in
      elim (Bool-cases (starts_with x "_dp_try_exc_")) [
        | inl e ↦ rw e (Memᴰ.tail rest)
        | inr e ↦ rw e rest
      ]
]
mem-exception_aliases (BlockArg.none_arg ∷ args) n p m = elim (Memᴰ.cases_cons m) [
  | inl here ↦ absurd (cc)
  | inr later ↦ mem-exception_aliases args n p later
]
mem-exception_aliases (BlockArg.current_exception ∷ args) n p m = elim (Memᴰ.cases_cons m) [
  | inl here ↦ absurd (cc)
  | inr later ↦ mem-exception_aliases args n p later
]
mem-exception_aliases (BlockArg.abrupt_kind k ∷ args) n p m = elim (Memᴰ.cases_cons m) [
  | inl here ↦ absurd (cc)
  | inr later ↦ mem-exception_aliases args n p later
]

term_aliases-mem {κ} :
    {E : Type κ} (t : BlockTerm E) (n : String)
    → Memᴰ n (term_aliases t)
    → (starts_with n "_dp_try_exc_" ≡ true)
      × ((e : BlockEdge) × (t ≡ jump e) × Memᴰ (BlockArg.name n) e.args)
unfolding term_aliases
term_aliases-mem (jump e) n m = let (p, at) = exception_aliases-mem e.args n m in (p, (e, refl, at))
term_aliases-mem (if_term c a b) n m = absurd (Memᴰ.not-nil m)
term_aliases-mem (branch_table i ts d) n m = absurd (Memᴰ.not-nil m)
term_aliases-mem (raise x) n m = absurd (Memᴰ.not-nil m)
term_aliases-mem (return x) n m = absurd (Memᴰ.not-nil m)

mem-term_aliases {κ} :
    {E : Type κ} (t : BlockTerm E) (e : BlockEdge) (n : String)
    → t ≡ jump e
    → starts_with n "_dp_try_exc_" ≡ true
    → Memᴰ (BlockArg.name n) e.args
    → Memᴰ n (term_aliases t)
unfolding term_aliases
mem-term_aliases t e n h p m = rw h (mem-exception_aliases e.args n p m)

has_owner-mem :
    (names : List String)
    → (has_owner names ≡ true) ↔ (Memᴰ "_dp_self" names ⊎ Memᴰ "_dp_state" names)
unfolding has_owner
has_owner-mem [] = (
  λ h. absurd (ground arith),
  λ h. elim h [ inl m ↦ absurd (Memᴰ.not-nil m) | inr m ↦ absurd (Memᴰ.not-nil m) ],
)
has_owner-mem (x ∷ names) = (
  λ h. elim (Bool-cases (str_eq x "_dp_self")) [
    | inl e ↦ inl (Memᴰ.head (sym ((str_eq_iff x "_dp_self").0 e)))
    | inr e ↦ elim (Bool-cases (str_eq x "_dp_state")) [
      | inl f ↦ inr (Memᴰ.head (sym ((str_eq_iff x "_dp_state").0 f)))
      | inr f ↦ elim ((has_owner-mem names).0 (ground arith)) [
        | inl m ↦ inl (Memᴰ.tail m)
        | inr m ↦ inr (Memᴰ.tail m)
      ]
    ]
  ],
  λ h. elim h [
    | inl m ↦ elim (Memᴰ.cases_cons m) [
      | inl here ↦ let e = (str_eq_iff x "_dp_self").1 (sym here) in rw e refl
      | inr later ↦ let rest = (has_owner-mem names).1 (inl later) in ground arith
    ]
    | inr m ↦ elim (Memᴰ.cases_cons m) [
      | inl here ↦ let e = (str_eq_iff x "_dp_state").1 (sym here) in ground arith
      | inr later ↦ let rest = (has_owner-mem names).1 (inr later) in ground arith
    ]
  ],
)

module _ {ℓ κ} {B : Type ℓ} {E : Type κ} where
  -- The tests of the code say what they are meant to.
  takes : Block B E → String → Bool
  takes target n =
      is_exc_name (exception_param target.params) n || mentions (term_aliases target.term) n

  takes-TakesException :
      (target : Block B E) (n : String) → (takes target n ≡ true) ↔ TakesException target n
  unfolding takes
  takes-TakesException target n = (
    λ h. elim (Bool-cases (is_exc_name (exception_param target.params) n)) [
      | inl e ↦ inl ((is_exc_name_iff (exception_param target.params) n).0 e)
      | inr e ↦ inr (
          term_aliases-mem target.term n (mentions-mem (term_aliases target.term) n (ground arith)))
    ],
    λ h. elim h [
      | inl e ↦ rw ((is_exc_name_iff (exception_param target.params) n).1 e) refl
      | inr (p, (e, t, m)) ↦
          let at =
            mem-mentions (term_aliases target.term) n (mem-term_aliases target.term e n t p m) in
          ground arith
    ],
  )

  passes : Block B E → String → Bool
  passes source n =
      mentions (param_name_vec source.params) n || has_owner (param_name_vec source.params)

  passes-CanPass : (source : Block B E) (n : String) → (passes source n ≡ true) ↔ CanPass source n
  unfolding passes
  passes-CanPass source n =
      let names = param_name_vec source.params in
      let owner = has_owner-mem names in
      (
        λ h. elim (Bool-cases (mentions names n)) [
          | inl e ↦ inl (mentions-mem names n e)
          | inr e ↦ inr (owner.0 (ground arith))
        ],
        λ h. elim h [
          | inl m ↦ let e = mem-mentions names n m in ground arith
          | inr m ↦ let e = owner.1 m in ground arith
        ],
      )

  edge_arg-IsArgFor :
      (source target : Block B E) (n : String)
      → IsArgFor source target n (
          edge_arg
            (exception_param target.params)
            (term_aliases target.term)
            (param_name_vec source.params)
            n)
  unfolding edge_arg takes passes
  edge_arg-IsArgFor source target n =
      let does = takes-TakesException target n in
      let can = passes-CanPass source n in
      record {
        exception = λ t. let e = does.1 t in ground arith;
        passed = λ t c.
            let e = can.1 c in
            elim (Bool-cases (takes target n)) [
              | inl h ↦ absurd (t (does.0 h))
              | inr h ↦ ground arith
            ];
        missing = λ t c. elim (Bool-cases (takes target n)) [
          | inl h ↦ absurd (t (does.0 h))
          | inr h ↦ elim (Bool-cases (passes source n)) [
            | inl k ↦ absurd (c (can.0 k))
            | inr k ↦ ground arith
          ]
        ];
      }

  map-IsArgFor :
      (source target : Block B E) (names : List String)
      → Forall₂ (IsArgFor source target) names (
          map
            (edge_arg
              (exception_param target.params)
              (term_aliases target.term)
              (param_name_vec source.params))
            names)
  map-IsArgFor source target [] = Forall₂.nil
  map-IsArgFor source target (n ∷ names) =
      Forall₂.cons (edge_arg-IsArgFor source target n) (map-IsArgFor source target names)

  -- An exception edge to a block of the table passes, for each parameter of that block in order: the
  -- current exception, if the parameter stands for the exception; else the value of the same name,
  -- if the source has it as a parameter or has the owner of all names; else none.
  pub populate_block-IsArgFor :
      (bs : List (Block B E)) (b : Block B E) {e : BlockEdge} {target : Block B E}
      → (populate_block bs b).exc_edge ≡ some e
      → block_at bs e.target ≡ some target
      → Forall₂ (IsArgFor b target) (param_name_vec target.params) e.args
  unfolding populate_block edge_args
  populate_block-IsArgFor bs b {e} {target} h at =
      rw (populated_edge-args bs b b.exc_edge h at)
        (map-IsArgFor b target (param_name_vec target.params))

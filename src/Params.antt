-- ===== src/Params.antt =====
-- Parameters of callables and where their defaults come from
-- (soac-blockpy/src/block_py/param_specs/mod.rs). `D` is the type of default expressions.
pub mod Sources
pub mod Lookup
use diet_python.Prelude.{
  ℕ, zero, suc, ◌+◌, ◌==◌, String, str_eq, Bool, true, false, Option, none, some, List, [], ◌∷◌,
  ◌++◌, map, length, retain, if◌then◌else◌,
}

pub data ParamKind : Type 0 where
  any pos_only var_arg kw_only kw_arg : ParamKind

pub record Param : Type 0 where
  pub name : String
  pub kind : ParamKind
  pub has_default : Bool

pub data ParamDefaultSource : Type 0 where
  positional : ℕ → ParamDefaultSource
  keyword_only : String → ParamDefaultSource

-- The one field of `ParamSpec`.
abbrev pub ParamSpec : Type 0
ParamSpec = List Param

-- `matches!(param.kind, PosOnly | Any)`
unfoldable pub is_positional : ParamKind → Bool
is_positional ParamKind.any = true
is_positional ParamKind.pos_only = true
is_positional _ = false

-- The source of one default, and the counter after it.
unfoldable pub default_source : ℕ → Param → Option ParamDefaultSource × ℕ
default_source next p = elim p.has_default [
  | false ↦ (none, next)
  | true ↦ elim p.kind [
    | ParamKind.any ↦ (some (positional next), suc next)
    | ParamKind.pos_only ↦ (some (positional next), suc next)
    | ParamKind.kw_only ↦ (some (keyword_only p.name), next)
    | ParamKind.var_arg ↦ (none, next)
    | ParamKind.kw_arg ↦ (none, next)
  ]
]

-- The iterator, from a value of `next_positional_default`.
unfoldable pub default_sources_from : ℕ → ParamSpec → List (Param × Option ParamDefaultSource)
default_sources_from next [] = []
default_sources_from next (p ∷ ps) =
    let (source, next') = default_source next p in (p, source) ∷ default_sources_from next' ps

-- `iter_with_default_sources`
unfoldable pub iter_with_default_sources : ParamSpec → List (Param × Option ParamDefaultSource)
iter_with_default_sources = default_sources_from 0

unfoldable pub names : ParamSpec → List String
names = map (λ p. p.name)

unfoldable pub default_count : ParamSpec → ℕ
default_count spec = length (retain (λ p. p.has_default) spec)

-- The indices of the parameters that pass a test, from an index on.
unfoldable pub indices_from : ℕ → (Param → Bool) → ParamSpec → List ℕ
indices_from i test [] = []
indices_from i test (p ∷ ps) =
    let rest = indices_from (suc i) test ps in if test p then i ∷ rest else rest

unfoldable pub positional_param_indices : ParamSpec → List ℕ
positional_param_indices = indices_from 0 (λ p. is_positional p.kind)

-- `iter().position`
unfoldable pub position_from : ℕ → (Param → Bool) → ParamSpec → Option ℕ
position_from i test [] = none
position_from i test (p ∷ ps) =
    let rest = position_from (suc i) test ps in if test p then some i else rest

unfoldable pub param_index : String → ParamSpec → Option ℕ
param_index n = position_from 0 (λ p. str_eq p.name n)

unfoldable pub is_var_arg : ParamKind → Bool
is_var_arg ParamKind.var_arg = true
is_var_arg _ = false

unfoldable pub is_kw_arg : ParamKind → Bool
is_kw_arg ParamKind.kw_arg = true
is_kw_arg _ = false

unfoldable pub vararg_index : ParamSpec → Option ℕ
vararg_index = position_from 0 (λ p. is_var_arg p.kind)

unfoldable pub kwarg_index : ParamSpec → Option ℕ
kwarg_index = position_from 0 (λ p. is_kw_arg p.kind)

-- What the function reads of `ast::Parameters` of ruff: names, and the default expressions.
pub record Parameters {ℓ} (D : Type ℓ) : Type ℓ where
  pub posonlyargs : List (String × Option D)
  pub args : List (String × Option D)
  pub vararg : Option String
  pub kwonlyargs : List (String × Option D)
  pub kwarg : Option String

-- The specification and the defaults that are collected.
abbrev pub Collected {ℓ} : Type ℓ → Type ℓ
Collected D = ParamSpec × List D

module _ {ℓ} {D : Type ℓ} where
  abbrev pub is_some : Option D → Bool
  is_some none = false
  is_some (some d) = true

  -- `push_param`; `none` is the panic of `expect`.
  unfoldable pub push_param : Param → Option D → Collected D → Option (Collected D)
  push_param p default (spec, defaults) = elim p.has_default [
    | false ↦ some (spec ++ p ∷ [], defaults)
    | true ↦ elim default [ none ↦ none | some d ↦ some (spec ++ p ∷ [], defaults ++ d ∷ []) ]
  ]

  -- One of the three `for` loops.
  unfoldable pub push_all :
      ParamKind → List (String × Option D) → Collected D → Option (Collected D)
  push_all kind [] c = some c
  push_all kind ((n, default) ∷ rest) c =
      elim (push_param (record { name = n; kind = kind; has_default = is_some default }) default
        c) [ none ↦ none | some c' ↦ push_all kind rest c' ]

  -- `*args` and `**kwargs`, which have no default.
  unfoldable pub push_star : ParamKind → Option String → Collected D → Collected D
  push_star kind none c = c
  push_star kind (some n) (spec, defaults) =
      (spec ++ record { name = n; kind = kind; has_default = false } ∷ [], defaults)

  -- `validate_default_count`; `none` is the panic of `assert_eq!`.
  unfoldable pub validate_default_count : Collected D → Option (Collected D)
  validate_default_count (spec, defaults) =
      if default_count spec == length defaults then some (spec, defaults) else none

  -- `collect_param_spec_and_defaults`
  unfoldable pub collect_param_spec_and_defaults : Parameters D → Option (Collected D)
  collect_param_spec_and_defaults ps = elim (push_all ParamKind.pos_only ps.posonlyargs ([], [])) [
    | none ↦ none
    | some c ↦ elim (push_all ParamKind.any ps.args c) [
      | none ↦ none
      | some c' ↦
          elim (push_all ParamKind.kw_only ps.kwonlyargs
            (push_star ParamKind.var_arg ps.vararg c')) [
              | none ↦ none
              | some c'' ↦ validate_default_count (push_star ParamKind.kw_arg ps.kwarg c'')
            ]
    ]
  ]

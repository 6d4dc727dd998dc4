-- ===== src/Params/Sources.antt =====
-- What is collected from a parameter list, and that each default is found where its source says
-- (param_specs/mod.rs).
use diet_python.Prelude.{
  Option-cases, inl, inr, suc, ◌≡◌, refl, sym, ap, ◌∙◌, String, Option, none, some, List, [], ◌∷◌,
  ◌++◌, map, length, ==_refl,
}
use mathlib.Core.List.{append_assoc}
use diet_python.Params.{
  ParamKind, Param, default_count, Parameters, Collected, is_some, push_param, push_all, push_star,
  validate_default_count, collect_param_spec_and_defaults,
}

-- A parameter as it is declared.
pub record Declared {ℓ} (D : Type ℓ) : Type ℓ where
  pub name : String
  pub kind : ParamKind
  pub default : Option D

append_nil {ℓ} : {A : Type ℓ} (xs : List A) → xs ++ [] ≡ xs
append_nil [] = refl
append_nil (x ∷ xs) = ap (λ zs. x ∷ zs) (append_nil xs)

module _ {ℓ} {D : Type ℓ} where
  abbrev pub param_of : Declared D → Param
  param_of d = record { name = d.name; kind = d.kind; has_default = is_some d.default }

  abbrev pub declare : ParamKind → String × Option D → Declared D
  declare kind (n, default) = record { name = n; kind = kind; default = default }

  abbrev pub declare_star : ParamKind → Option String → List (Declared D)
  declare_star kind none = []
  declare_star kind (some n) = record { name = n; kind = kind; default = none } ∷ []

  -- The positional parameters, in their order.
  abbrev pub positionals : Parameters D → List (Declared D)
  positionals ps =
      map (declare ParamKind.pos_only) ps.posonlyargs ++ map (declare ParamKind.any) ps.args

  abbrev pub others : Parameters D → List (Declared D)
  others ps =
      declare_star ParamKind.var_arg ps.vararg
      ++ (map (declare ParamKind.kw_only) ps.kwonlyargs ++ declare_star ParamKind.kw_arg ps.kwarg)

  -- All parameters, in the order of Python's signatures.
  abbrev pub declared : Parameters D → List (Declared D)
  declared ps = positionals ps ++ others ps

  abbrev pub default_list : Option D → List D
  default_list none = []
  default_list (some x) = x ∷ []

  abbrev pub defaults_of : List (Declared D) → List D
  defaults_of [] = []
  defaults_of (d ∷ ds) = default_list d.default ++ defaults_of ds

  -- More parameters, after those collected so far.
  abbrev extended : Collected D → List (Declared D) → Collected D
  extended (spec, defaults) ds = (spec ++ map param_of ds, defaults ++ defaults_of ds)

  params-append :
      (xs ys : List (Declared D)) → map param_of (xs ++ ys) ≡ map param_of xs ++ map param_of ys
  params-append [] ys = refl
  params-append (x ∷ xs) ys = ap (λ zs. param_of x ∷ zs) (params-append xs ys)

  defaults-append :
      (xs ys : List (Declared D)) → defaults_of (xs ++ ys) ≡ defaults_of xs ++ defaults_of ys
  defaults-append [] ys = refl
  defaults-append (x ∷ xs) ys =
      ap (λ zs. default_list x.default ++ zs) (defaults-append xs ys)
      ∙ sym (append_assoc (default_list x.default) (defaults_of xs) (defaults_of ys))

  extended-append :
      (c : Collected D) (xs ys : List (Declared D))
      → extended (extended c xs) ys ≡ extended c (xs ++ ys)
  extended-append (spec, defaults) xs ys =
      let left : (spec ++ map param_of xs) ++ map param_of ys ≡ spec ++ map param_of (xs ++ ys) =
        append_assoc spec (map param_of xs) (map param_of ys)
        ∙ ap (λ zs. spec ++ zs) (sym (params-append xs ys)) in
      let right : (defaults ++ defaults_of xs) ++ defaults_of ys
          ≡ defaults ++ defaults_of (xs ++ ys) =
        append_assoc defaults (defaults_of xs) (defaults_of ys)
        ∙ ap (λ zs. defaults ++ zs) (sym (defaults-append xs ys)) in
      cc

  push_param-extended :
      (kind : ParamKind) (n : String) (default : Option D) (c : Collected D)
      → push_param (param_of (declare kind (n, default))) default c
        ≡ some (extended c (declare kind (n, default) ∷ []))
  unfolding push_param
  push_param-extended kind n none (spec, defaults) =
      ap (λ zs. some (spec ++ param_of (declare kind (n, none)) ∷ [], zs))
        (sym (append_nil defaults))
  push_param-extended kind n (some d) (spec, defaults) = refl

  push_all-extended :
      (kind : ParamKind) (xs : List (String × Option D)) (c : Collected D)
      → push_all kind xs c ≡ some (extended c (map (declare kind) xs))
  unfolding push_all
  push_all-extended kind [] (spec, defaults) =
      let left = append_nil spec in let right = append_nil defaults in cc
  push_all-extended kind ((n, default) ∷ xs) c =
      rw (push_param-extended kind n default c, push_all)
        (push_all-extended kind xs _
          ∙ ap some (extended-append c (declare kind (n, default) ∷ []) (map (declare kind) xs)))

  push_star-extended :
      (kind : ParamKind) (n : Option String) (c : Collected D)
      → push_star kind n c ≡ extended c (declare_star kind n)
  unfolding push_star
  push_star-extended kind none (spec, defaults) =
      let left = append_nil spec in let right = append_nil defaults in cc
  push_star-extended kind (some n) (spec, defaults) =
      ap (λ zs. (spec ++ param_of (record { name = n; kind = kind; default = none }) ∷ [], zs))
        (sym (append_nil defaults))

  count-params :
      (ds : List (Declared D)) → default_count (map param_of ds) ≡ length (defaults_of ds)
  unfolding default_count
  count-params [] = refl
  count-params (d ∷ ds) = elim (Option-cases d.default) [
    | inl e ↦ rw e (count-params ds)
    | inr (x, e) ↦ rw e (ap suc (count-params ds))
  ]

  -- The five lists, one after the other.
  collected :
      (ps : Parameters D)
      → extended
          (extended
            (extended
              (extended
                (extended ([], []) (map (declare ParamKind.pos_only) ps.posonlyargs))
                (map (declare ParamKind.any) ps.args))
              (declare_star ParamKind.var_arg ps.vararg))
            (map (declare ParamKind.kw_only) ps.kwonlyargs))
          (declare_star ParamKind.kw_arg ps.kwarg)
        ≡ (map param_of (declared ps), defaults_of (declared ps))
  collected ps =
      let a = map (declare ParamKind.pos_only) ps.posonlyargs in
      let b = map (declare ParamKind.any) ps.args in
      let v = declare_star ParamKind.var_arg ps.vararg in
      let k = map (declare ParamKind.kw_only) ps.kwonlyargs in
      let w = declare_star ParamKind.kw_arg ps.kwarg in
      ap (λ c. extended (extended (extended c v) k) w) (extended-append ([], []) a b)
      ∙ (ap (λ c. extended c w) (extended-append (extended ([], []) (a ++ b)) v k)
          ∙ (extended-append (extended ([], []) (a ++ b)) (v ++ k) w
              ∙ (ap (λ zs. extended (extended ([], []) (a ++ b)) zs) (append_assoc v k w)
                  ∙ extended-append ([], []) (a ++ b) (v ++ (k ++ w)))))

  validated :
      (ds : List (Declared D))
      → validate_default_count (map param_of ds, defaults_of ds)
        ≡ some (map param_of ds, defaults_of ds)
  unfolding validate_default_count
  validated ds = rw (count-params ds) (rw (==_refl (length (defaults_of ds))) refl)

  -- Collecting never panics: it gives the declared parameters and their defaults, in the order of
  -- the declaration.
  pub collect_param_spec_and_defaults-declared :
      (ps : Parameters D)
      → collect_param_spec_and_defaults ps
        ≡ some (map param_of (declared ps), defaults_of (declared ps))
  unfolding collect_param_spec_and_defaults
  collect_param_spec_and_defaults-declared ps =
      rw
        (
          push_all-extended ParamKind.pos_only ps.posonlyargs ([], []),
          collect_param_spec_and_defaults,
        )
        (rw (push_all-extended ParamKind.any ps.args _) (
          rw (push_star-extended ParamKind.var_arg ps.vararg _) (
            rw (push_all-extended ParamKind.kw_only ps.kwonlyargs _) (
              rw (push_star-extended ParamKind.kw_arg ps.kwarg _)
                (ap validate_default_count (collected ps) ∙ validated (declared ps))))))

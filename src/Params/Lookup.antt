-- ===== src/Params/Lookup.antt =====
-- Each default is found where its source says (param_specs/mod.rs).
use diet_python.Prelude.{
  ℕ, suc, ◌≡◌, refl, sym, ap, ◌∙◌, String, true, Option, none, some, List, [], ◌∷◌, ◌++◌, map,
  length, length-append, get_elem?, Forall₂, All, All-append, arith, subst, Option-cases, inl, inr,
  ◌⊎◌,
}
use mathlib.Core.List.{append_assoc}
use diet_python.Params.{
  ParamKind, Param, ParamDefaultSource, positional, keyword_only, is_positional, default_source,
  default_sources_from, iter_with_default_sources, Parameters,
}
use diet_python.Params.Sources.{
  Declared, param_of, declare, declare_star, positionals, others, declared, default_list,
  defaults_of,
}

module _ {ℓ} {D : Type ℓ} where
  module _ (defaults : List D) where
    -- The source of a parameter's default: an index into the defaults, or the parameter's name.
    pub data Sourced : Declared D → Param × Option ParamDefaultSource → Type ℓ where
      no_default : {d : Declared D} → d.default ≡ none → Sourced d (param_of d, none)
      by_position :
          {d : Declared D} {x : D} {i : ℕ}
          → is_positional d.kind ≡ true
          → d.default ≡ some x
          → get_elem? defaults i ≡ some x
          → Sourced d (param_of d, some (positional i))
      by_name :
          {d : Declared D} {x : D}
          → d.kind ≡ ParamKind.kw_only
          → d.default ≡ some x
          → Sourced d (param_of d, some (keyword_only d.name))

  abbrev ByPosition : Declared D → Type 0
  ByPosition d = is_positional d.kind ≡ true

  abbrev ByName : Declared D → Type ℓ
  ByName d = (d.default ≡ none) ⊎ (d.kind ≡ ParamKind.kw_only)

  get_after :
      (pre : List D) (x : D) (post : List D) → get_elem? (pre ++ x ∷ post) (length pre) ≡ some x
  get_after [] x post = refl
  get_after (y ∷ pre) x post = get_after pre x post

  source-none :
      (n : ℕ) (d : Declared D) → d.default ≡ none → default_source n (param_of d) ≡ (none, n)
  unfolding default_source
  source-none n d e = rw e refl

  source-name :
      (n : ℕ) (d : Declared D) {x : D}
      → d.default ≡ some x
      → d.kind ≡ ParamKind.kw_only
      → default_source n (param_of d) ≡ (some (keyword_only d.name), n)
  unfolding default_source
  source-name n d e k = rw e (rw k refl)

  source-position :
      (n : ℕ) (d : Declared D) {x : D}
      → d.default ≡ some x
      → is_positional d.kind ≡ true
      → default_source n (param_of d) ≡ (some (positional n), suc n)
  unfolding default_source is_positional
  source-position n d e h = rw e (by_kind d.kind d.name h)
    where
      by_kind :
          (kind : ParamKind) (name : String)
          → is_positional kind ≡ true
          → default_source n (record { name = name; kind = kind; has_default = true })
            ≡ (some (positional n), suc n)
      by_kind ParamKind.any name h = refl
      by_kind ParamKind.pos_only name h = refl
      by_kind ParamKind.var_arg name h = absurd (ground arith)
      by_kind ParamKind.kw_only name h = absurd (ground arith)
      by_kind ParamKind.kw_arg name h = absurd (ground arith)

  others-Sourced :
      (defaults : List D) (n : ℕ) (ds : List (Declared D))
      → All ByName ds
      → Forall₂ (Sourced defaults) ds (default_sources_from n (map param_of ds))
  unfolding default_sources_from
  others-Sourced defaults n [] all = Forall₂.nil
  others-Sourced defaults n (d ∷ ds) (first, rest) = elim (Option-cases d.default) [
    | inl e ↦
        rw (source-none n d e) (Forall₂.cons (no_default e) (others-Sourced defaults n ds rest))
    | inr (x, e) ↦ elim first [
      | inl f ↦ absurd (ground (arith, e, f))
      | inr f ↦
          rw (source-name n d e f) (Forall₂.cons (by_name f e) (others-Sourced defaults n ds rest))
    ]
  ]

  positionals-Sourced :
      (pre : List D) (n : ℕ) (ds os : List (Declared D))
      → length pre ≡ n
      → All ByPosition ds
      → All ByName os
      → Forall₂
          (Sourced (pre ++ defaults_of (ds ++ os)))
          (ds ++ os)
          (default_sources_from n (map param_of (ds ++ os)))
  unfolding default_sources_from
  positionals-Sourced pre n [] os long all named = others-Sourced _ n os named
  positionals-Sourced pre n (d ∷ ds) os long (first, rest) named =
      let after = defaults_of (ds ++ os) in
      elim (Option-cases d.default) [
        | inl e ↦
            let same : pre ++ (default_list d.default ++ after) ≡ pre ++ after =
              ap (λ o. pre ++ (default_list o ++ after)) e in
            rw (source-none n d e) (
              subst
                (λ z.
                  Forall₂ (Sourced z) (d ∷ (ds ++ os))
                    ((param_of d, none) ∷ default_sources_from n (map param_of (ds ++ os))))
                (sym same)
                (Forall₂.cons (no_default e) (positionals-Sourced pre n ds os long rest named)))
        | inr (x, e) ↦
            let same : pre ++ (default_list d.default ++ after) ≡ (pre ++ x ∷ []) ++ after =
              ap (λ o. pre ++ (default_list o ++ after)) e
              ∙ sym (append_assoc pre (x ∷ []) after) in
            let at : get_elem? ((pre ++ x ∷ []) ++ after) n ≡ some x =
              subst (λ z. get_elem? z n ≡ some x) (sym (append_assoc pre (x ∷ []) after))
                (subst (λ i. get_elem? (pre ++ x ∷ after) i ≡ some x) long
                  (get_after pre x after)) in
            rw (source-position n d e first) (
              subst
                (λ z. Forall₂ (Sourced z) (d ∷ (ds ++ os)) (
                  (param_of d, some (positional n))
                  ∷ default_sources_from (suc n) (map param_of (ds ++ os))))
                (sym same)
                (Forall₂.cons (by_position first e at) (
                  positionals-Sourced (pre ++ x ∷ []) (suc n) ds os
                    (omega (arith, length-append pre (x ∷ []), long)) rest named)))
      ]

  -- The sources that are given for the collected parameters: a positional one has the index of its
  -- default among all collected defaults, a keyword-only one its name, and one without a default
  -- has none.
  pub iter_with_default_sources-Sourced :
      (ps : Parameters D)
      → Forall₂
          (Sourced (defaults_of (declared ps)))
          (declared ps)
          (iter_with_default_sources (map param_of (declared ps)))
  unfolding iter_with_default_sources is_positional
  iter_with_default_sources-Sourced ps =
      positionals-Sourced [] 0 (positionals ps) (others ps) refl
        (All-append ByPosition _ _ (declared-All ParamKind.pos_only refl ps.posonlyargs)
          (declared-All ParamKind.any refl ps.args))
        (All-append ByName _ _ (star-All ParamKind.var_arg ps.vararg)
          (All-append ByName _ _ (named-All ps.kwonlyargs) (star-All ParamKind.kw_arg ps.kwarg)))
    where
      declared-All :
          (kind : ParamKind)
          → is_positional kind ≡ true
          → (xs : List (String × Option D)) → All ByPosition (map (declare kind) xs)
      declared-All kind h [] = tt
      declared-All kind h (x ∷ xs) = (h, declared-All kind h xs)

      named-All : (xs : List (String × Option D)) → All ByName (map (declare ParamKind.kw_only) xs)
      named-All [] = tt
      named-All (x ∷ xs) = (inr refl, named-All xs)

      star-All : (kind : ParamKind) (n : Option String) → All ByName (declare_star kind n)
      star-All kind none = tt
      star-All kind (some n) = (inl refl, tt)

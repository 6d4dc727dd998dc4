-- ===== src/Validate/Edges.antt =====
-- What the validation of edges accepts (validate.rs).
use diet_python.Prelude.{
  ℕ, zero, suc, ◌-◌, ◌≤◌, ◌≡◌, refl, str_eq_iff, ltb, true, false, some, List, [], ◌∷◌, find,
  length, get_elem?, ok, check_all, take, drop, ◌↔◌, inl, inr, Memᴰ, Forall₂, Passes,
  and_then-Passes, and_then_value, check_all-Passes, arith, Option-cases, Bool-cases,
}
use diet_python.Ir.Label.{BlockLabel}
use diet_python.Ir.Block.{
  Block, BlockArg, BlockEdge, BlockParam, BlockParamRole, role_eq, none_arg, current_exception,
  abrupt_kind,
}
use diet_python.Validate.{
  LabelKind, validate_explicit_edge_arg, check_args, check_forwarded,
  validate_edge_param_forwarding, lookup_known_block, validate_non_exception_edge,
}

role_eq_iff : (r s : BlockParamRole) → (role_eq r s ≡ true) ↔ (r ≡ s)
unfolding role_eq
role_eq_iff r s = ground arith

-- Which arguments a parameter takes.
abbrev pub Takes : BlockParam → BlockArg → Type 0
Takes p (BlockArg.name n) = Unit
Takes p none_arg = Unit
Takes p current_exception = p.role ≡ BlockParamRole.exception
Takes p (abrupt_kind k) = p.role ≡ BlockParamRole.abrupt_kind

validate_explicit_edge_arg-Takes :
    (k : LabelKind) (s t : BlockLabel) (p : BlockParam) (a : BlockArg)
    → Passes (validate_explicit_edge_arg k s t p a) ↔ Takes p a
unfolding validate_explicit_edge_arg
validate_explicit_edge_arg-Takes k s t p (BlockArg.name n) = (λ h. tt, λ h. refl)
validate_explicit_edge_arg-Takes k s t p none_arg = (λ h. tt, λ h. refl)
validate_explicit_edge_arg-Takes k s t p current_exception =
    ground (arith, role_eq_iff p.role BlockParamRole.exception)
validate_explicit_edge_arg-Takes k s t p (abrupt_kind x) =
    ground (arith, role_eq_iff p.role BlockParamRole.abrupt_kind)

check_args-Takes :
    (k : LabelKind) (s t : BlockLabel) (ps : List BlockParam) (args : List BlockArg)
    → length ps ≡ length args
    → Passes (check_args k s t ps args) ↔ Forall₂ Takes ps args
unfolding check_args
check_args-Takes k s t [] [] h = (λ _. Forall₂.nil, λ _. refl)
check_args-Takes k s t [] (a ∷ args) h = absurd (omega arith)
check_args-Takes k s t (p ∷ ps) [] h = absurd (omega arith)
check_args-Takes k s t (p ∷ ps) (a ∷ args) h =
    let both = and_then-Passes (validate_explicit_edge_arg k s t p a) (check_args k s t ps args) in
    let first = validate_explicit_edge_arg-Takes k s t p a in
    let rest = check_args-Takes k s t ps args (omega arith) in
    (
      λ c. Forall₂.cons (first.0 (both.0 c).0) (rest.0 (both.0 c).1),
      λ all. both.1 (first.1 (head all), rest.1 (tail all)),
    )
  where
    head : Forall₂ Takes (p ∷ ps) (a ∷ args) → Takes p a
    head (Forall₂.cons h t) = h

    tail : Forall₂ Takes (p ∷ ps) (a ∷ args) → Forall₂ Takes ps args
    tail (Forall₂.cons h t) = t

length-drop {ℓ} : {A : Type ℓ} (n : ℕ) (xs : List A) → length (drop n xs) ≡ length xs - n
length-drop zero xs = omega arith
length-drop (suc n) [] = omega arith
length-drop (suc n) (x ∷ xs) = omega (arith, length-drop n xs)

module _ {ℓ} {E : Type ℓ} where
  -- The block at the index that the label is, with that label.
  pub record IsKnown (blocks : List (Block E E)) (l : BlockLabel) (target : Block E E)
      : Type ℓ where
    pub position : get_elem? blocks l ≡ some target
    pub label : target.label ≡ l

  pub lookup_known_block-IsKnown :
      (blocks : List (Block E E)) (k : LabelKind) (l s : BlockLabel) (t : Block E E)
      → (lookup_known_block blocks k l s ≡ ok t) ↔ IsKnown blocks l t
  unfolding lookup_known_block
  lookup_known_block-IsKnown blocks k l s t = elim (Option-cases (get_elem? blocks l)) [
    | inl missing ↦
        rw (missing, lookup_known_block)
          (λ h. absurd (ground arith), λ known. absurd (ground (arith, missing, known.position)))
    | inr (found, at) ↦ (λ h. ground arith, λ known. ground (arith, known.position, known.label))
  ]

  -- A parameter that no argument is given for has the name of the source's first parameter of its
  -- role, if there is one.
  abbrev pub Forwards : Block E E → BlockParam → Type 0
  Forwards source p =
      (q : BlockParam) → find (λ q. role_eq q.role p.role) source.params ≡ some q → q.name ≡ p.name

  check_forwarded-Forwards :
      (k : LabelKind) (source target : Block E E) (p : BlockParam)
      → Passes (check_forwarded k source target p) ↔ Forwards source p
  unfolding check_forwarded
  check_forwarded-Forwards k source target p =
      elim (Option-cases (find (λ q. role_eq q.role p.role) source.params)) [
        | inl missing ↦ (λ c q e. ground arith, λ f. ground arith)
        | inr (same, found) ↦ (
          λ c q e. ground (arith, str_eq_iff same.name p.name),
          λ f. ground (arith, str_eq_iff same.name p.name, f same found),
        )
      ]

  -- Which edges other than exception edges a block may have.
  pub record EdgeIsSound (blocks : List (Block E E)) (source : Block E E) (e : BlockEdge)
      : Type ℓ where
    pub target : Block E E
    pub known : IsKnown blocks e.target target
    pub count : length e.args ≤ length target.params
    pub forwards :
        (p : BlockParam)
        → Memᴰ p (take (length target.params - length e.args) target.params)
        → Forwards source p
    pub takes : Forall₂ Takes (drop (length target.params - length e.args) target.params) e.args

  forwarding-IsSound :
      (k : LabelKind) (source target : Block E E) (args : List BlockArg)
      → length args ≤ length target.params
      → Passes (validate_edge_param_forwarding k source target args) ↔ (
          ((p : BlockParam)
            → Memᴰ p (take (length target.params - length args) target.params)
            → Forwards source p)
          × Forall₂ Takes (drop (length target.params - length args) target.params) args)
  unfolding validate_edge_param_forwarding
  forwarding-IsSound k source target args fits =
      let start = length target.params - length args in
      let both =
        and_then-Passes (check_all (check_forwarded k source target) (take start target.params))
          (check_args k source.label target.label (drop start target.params) args) in
      let first = check_all-Passes (check_forwarded k source target) (take start target.params) in
      let second =
        check_args-Takes k source.label target.label (drop start target.params) args
          (omega (arith, length-drop start target.params)) in
      let test : ltb (length target.params) (length args) ≡ false = ground arith in
      rw (test, validate_edge_param_forwarding)
        (
          λ c. (
            λ p m. (check_forwarded-Forwards k source target p).0 (first.0 (both.0 c).0 p m),
            second.0 (both.0 c).1,
          ),
          λ (f, t).
              both.1 (
                first.1 (λ p m. (check_forwarded-Forwards k source target p).1 (f p m)),
                second.1 t,
              ),
        )

  forwarding-count :
      (k : LabelKind) (source target : Block E E) (args : List BlockArg)
      → Passes (validate_edge_param_forwarding k source target args)
      → length args ≤ length target.params
  unfolding validate_edge_param_forwarding
  forwarding-count k source target args h =
      elim (Bool-cases (ltb (length target.params) (length args))) [
        | inl more ↦ absurd (ground arith)
        | inr fits ↦ ground arith
      ]

  pub validate_non_exception_edge-IsSound :
      (blocks : List (Block E E)) (k : LabelKind) (source : Block E E) (e : BlockEdge)
      → Passes (validate_non_exception_edge blocks k source e) ↔ EdgeIsSound blocks source e
  unfolding validate_non_exception_edge
  validate_non_exception_edge-IsSound blocks k source e =
      let split =
        and_then_value (lookup_known_block blocks k e.target source.label)
          (λ target. validate_edge_param_forwarding k source target e.args) in
      (
        λ h.
            let (t, found, rest) = split.0 h in
            let fits = forwarding-count k source t e.args rest in
            let (f, a) = (forwarding-IsSound k source t e.args fits).0 rest in
            record {
              target = t;
              known = (lookup_known_block-IsKnown blocks k e.target source.label t).0 found;
              count = fits;
              forwards = f;
              takes = a;
            },
        λ s. split.1 (
          s.target,
          (lookup_known_block-IsKnown blocks k e.target source.label s.target).1 s.known,
          (forwarding-IsSound k source s.target e.args s.count).1 (s.forwards, s.takes),
        ),
      )

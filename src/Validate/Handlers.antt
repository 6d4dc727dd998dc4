-- ===== src/Validate/Handlers.antt =====
-- What the validation of exception edges accepts (validate.rs).
use diet_python.Prelude.{
  ◌≡◌, refl, String, ◌==◌, some, List, [], ◌∷◌, length, err, if◌then◌else◌, length-map, ◌↔◌, inl,
  inr, Memᴰ, Passes, and_then_value, arith, Bool-cases,
}
use diet_python.Prelude.Memᴰ
use diet_python.Ir.Label.{BlockLabel}
use diet_python.Ir.Block.{
  Block, BlockArg, BlockEdge, BlockParam, AbruptKind, abrupt_kind, param_name_vec,
}
use diet_python.Validate.{
  Verdict, exception_target, exception_arg_count, lookup_known_block, check_no_abrupt_kind,
  validate_exception_edge,
}
use diet_python.Validate.Edges.{IsKnown, lookup_known_block-IsKnown}

check_no_abrupt_kind-plain :
    (s : BlockLabel) (names : List String) (args : List BlockArg)
    → length args ≡ length names
    → Passes (check_no_abrupt_kind s names args) ↔ ((k : AbruptKind) → ¬ Memᴰ (abrupt_kind k) args)
unfolding check_no_abrupt_kind
check_no_abrupt_kind-plain s [] [] h = (λ c k. Memᴰ.not-nil, λ p. refl)
check_no_abrupt_kind-plain s [] (a ∷ args) h = absurd (omega arith)
check_no_abrupt_kind-plain s (n ∷ names) [] h = absurd (omega arith)
check_no_abrupt_kind-plain s (n ∷ names) (abrupt_kind k ∷ args) h =
    (λ c. absurd (ground arith), λ p. absurd (p k (Memᴰ.head refl)))
check_no_abrupt_kind-plain s (n ∷ names) (a ∷ args) h =
    let rest = check_no_abrupt_kind-plain s names args (omega arith) in
    (
      λ c k m. elim (Memᴰ.cases_cons m) [ inl e ↦ cc | inr later ↦ rest.0 c k later ],
      λ p. rest.1 (λ k m. p k (Memᴰ.tail m)),
    )

module _ {ℓ} {E : Type ℓ} where
  -- Which exception edges a block may have: an argument for each parameter of the target, and no
  -- abrupt kind among them.
  pub record HandlerIsSound (blocks : List (Block E E)) (e : BlockEdge) : Type ℓ where
    pub target : Block E E
    pub known : IsKnown blocks e.target target
    pub count : length e.args ≡ length target.params
    pub plain : (k : AbruptKind) → ¬ Memᴰ (abrupt_kind k) e.args

  abbrev handler_check : Block E E → Block E E → BlockEdge → Verdict
  handler_check source target e =
      if length e.args == length (param_name_vec target.params)
      then check_no_abrupt_kind source.label (param_name_vec target.params) e.args
      else err (exception_arg_count source.label (length e.args) target.label)

  handler_check-plain :
      (source target : Block E E) (e : BlockEdge)
      → Passes (handler_check source target e) ↔ (
          (length e.args ≡ length target.params)
          × ((k : AbruptKind) → ¬ Memᴰ (abrupt_kind k) e.args))
  handler_check-plain source target e =
      let names = length-map (λ (p : BlockParam). p.name) target.params in
      elim (Bool-cases (length e.args == length (param_name_vec target.params))) [
        | inl same ↦
            let plain =
              check_no_abrupt_kind-plain source.label (param_name_vec target.params) e.args
                (ground arith) in
            rw same (λ c. (ground (arith, names), plain.0 c), λ (n, p). plain.1 p)
        | inr other ↦
            rw other (λ c. absurd (ground arith), λ (n, p). absurd (ground (arith, names)))
      ]

  pub validate_exception_edge-IsSound :
      (blocks : List (Block E E)) (source : Block E E) (e : BlockEdge)
      → Passes (validate_exception_edge blocks source (some e)) ↔ HandlerIsSound blocks e
  unfolding validate_exception_edge
  validate_exception_edge-IsSound blocks source e =
      let split =
        and_then_value (lookup_known_block blocks exception_target e.target source.label)
          (λ target. handler_check source target e) in
      (
        λ h.
            let (t, found, rest) = split.0 h in
            let (count, plain) = (handler_check-plain source t e).0 rest in
            record {
              target = t;
              known =
                  (lookup_known_block-IsKnown blocks exception_target e.target source.label t).0
                    found;
              count = count;
              plain = plain;
            },
        λ s. split.1 (
          s.target,
          (lookup_known_block-IsKnown blocks exception_target e.target source.label s.target).1
              s.known,
          (handler_check-plain source s.target e).1 (s.count, s.plain),
        ),
      )

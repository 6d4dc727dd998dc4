-- ===== src/Ir/ExceptionParam.antt =====
-- The exception parameter of a block (soac-blockpy/src/block_py/mod.rs).
use diet_python.Prelude.{
  All, ◌≡◌, refl, ap, String, str_eq_iff, true, false, Option, none, some, List, [], ◌∷◌, ◌++◌,
  retain, inl, inr, Bool-cases, Option-cases, arith,
}
use diet_python.Ir.Block.{
  BlockParam, BlockParamRole, role_eq, is_exception_param, has_name, keeps_exception,
  mark_exception, set_exception_param, exception_param,
}

abbrev IsKept : String → BlockParam → Type 0
IsKept n p = keeps_exception n p ≡ true

retain-IsKept :
    (n : String) (params : List BlockParam) → All (IsKept n) (retain (keeps_exception n) params)
retain-IsKept n [] = tt
retain-IsKept n (p ∷ ps) = elim (Bool-cases (keeps_exception n p)) [
  | inl e ↦ rw e (e, retain-IsKept n ps)
  | inr e ↦ rw e (retain-IsKept n ps)
]

-- What the parameters become, once those that are in the way are gone.
abbrev marked : String → List BlockParam → Option (List BlockParam) → List BlockParam
marked n kept (some ys) = ys
marked n kept none = kept ++ record { name = n; role = BlockParamRole.exception } ∷ []

kept-role :
    (n : String) (p : BlockParam) → IsKept n p → has_name n p ≡ false → is_exception_param p ≡ false
kept-role n p kept other = ground arith

marked-exception :
    (n : String) (kept : List BlockParam)
    → All (IsKept n) kept
    → exception_param (marked n kept (mark_exception n kept)) ≡ some n
unfolding mark_exception exception_param role_eq
marked-exception n [] all = refl
marked-exception n (p ∷ ps) (first, rest) = elim (Bool-cases (has_name n p)) [
  | inl e ↦ rw e (ap some ((str_eq_iff p.name n).0 e))
  | inr e ↦
      let plain = kept-role n p first e in
      let later = marked-exception n ps rest in
      elim (Option-cases (mark_exception n ps)) [
        | inl f ↦ rw e (rw f (rw plain (rw f at later)))
        | inr (ys, f) ↦ rw e (rw f (rw plain (rw f at later)))
      ]
]

-- After `set_exception_param`, the exception parameter is the one that was set.
pub exception_param-set_exception_param :
    (n : String) (params : List BlockParam)
    → exception_param (set_exception_param n params) ≡ some n
unfolding set_exception_param
exception_param-set_exception_param n params =
    let kept = retain (keeps_exception n) params in
    let first = marked-exception n kept (retain-IsKept n params) in
    elim (Option-cases (mark_exception n kept)) [
      | inl e ↦ rw (e, set_exception_param) (rw e at first)
      | inr (ys, e) ↦ rw (e, set_exception_param) (rw e at first)
    ]

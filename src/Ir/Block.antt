-- ===== src/Ir/Block.antt =====
-- Blocks, edges, terminators and structured bodies (soac-blockpy/src/block_py/mod.rs).
-- `E` is the type of the instructions (Rust's `Instr`); S of `Block<S, T>` is `B` here.
use diet_python.Prelude.{
  String, str_eq, ◌==◌, ◌||◌, not, Bool, true, false, Option, none, some, List, [], ◌∷◌, ◌++◌, map,
  any, find, retain, if◌then◌else◌,
}
use diet_python.Ir.Label.{BlockLabel}
use diet_python.Ir.Label
use mathlib.Core.Option

pub data AbruptKind : Type 0 where
  fallthrough return exception break continue : AbruptKind

pub data BlockArg : Type 0 where
  name : String → BlockArg
  none_arg current_exception : BlockArg
  abrupt_kind : AbruptKind → BlockArg

pub record BlockEdge : Type 0 where
  pub target : BlockLabel
  pub args : List BlockArg

-- `BlockEdge::new`
abbrev pub edge_to : BlockLabel → BlockEdge
edge_to l = record { target = l; args = [] }

pub data BlockParamRole : Type 0 where
  exception abrupt_kind abrupt_payload : BlockParamRole

unfoldable pub role_eq : BlockParamRole → BlockParamRole → Bool
role_eq BlockParamRole.exception BlockParamRole.exception = true
role_eq BlockParamRole.abrupt_kind BlockParamRole.abrupt_kind = true
role_eq BlockParamRole.abrupt_payload BlockParamRole.abrupt_payload = true
role_eq _ _ = false

pub record BlockParam : Type 0 where
  pub name : String
  pub role : BlockParamRole

pub data BlockTerm {ℓ} (E : Type ℓ) : Type ℓ where
  jump : BlockEdge → BlockTerm E
  -- test, then label, else label
  if_term : E → BlockLabel → BlockLabel → BlockTerm E
  -- index, targets, default label
  branch_table : E → List BlockLabel → BlockLabel → BlockTerm E
  raise : Option E → BlockTerm E
  return : E → BlockTerm E

pub record Block {ℓ κ} (B : Type ℓ) (E : Type κ) : Type (ℓ ⊔ κ) where
  pub label : BlockLabel
  pub body : List B
  pub term : BlockTerm E
  pub params : List BlockParam
  pub exc_edge : Option BlockEdge

abbrev pub is_exception_param : BlockParam → Bool
is_exception_param p = role_eq p.role BlockParamRole.exception

-- The parameter of that name.
abbrev pub has_name : String → BlockParam → Bool
has_name n p = str_eq p.name n

-- `ensure_param`
unfoldable pub ensure_param : String → BlockParamRole → List BlockParam → List BlockParam
ensure_param n r params =
    if any (has_name n) params then params else params ++ record { name = n; role = r } ∷ []

-- The first parameter of that name becomes the exception parameter; `none` where there is none.
unfoldable pub mark_exception : String → List BlockParam → Option (List BlockParam)
mark_exception n [] = none
mark_exception n (p ∷ ps) =
    if has_name n p
    then some (record p { role = BlockParamRole.exception } ∷ ps)
    else Option.map (λ rest. p ∷ rest) (mark_exception n ps)

abbrev pub keeps_exception : String → BlockParam → Bool
keeps_exception n p = not (is_exception_param p) || has_name n p

-- `set_exception_param`
unfoldable pub set_exception_param : String → List BlockParam → List BlockParam
set_exception_param n params =
    let kept = retain (keeps_exception n) params in
    elim (mark_exception n kept) [
      | some marked ↦ marked
      | none ↦ kept ++ record { name = n; role = BlockParamRole.exception } ∷ []
    ]

-- `exception_param`
unfoldable pub exception_param : List BlockParam → Option String
exception_param params = Option.map (λ p. p.name) (find is_exception_param params)

-- `param_name_vec`
abbrev pub param_name_vec : List BlockParam → List String
param_name_vec = map (λ p. p.name)

-- `bb_params`: grouped by role, in a fixed order of the roles.
unfoldable pub bb_params : List BlockParam → List BlockParam
bb_params params =
    retain is_exception_param params
    ++ retain (λ p. role_eq p.role BlockParamRole.abrupt_kind) params
    ++ retain (λ p. role_eq p.role BlockParamRole.abrupt_payload) params

-- `bb_param_names`
abbrev pub bb_param_names : List BlockParam → List String
bb_param_names params = param_name_vec (bb_params params)

abbrev pub replace_label : BlockLabel → BlockLabel → BlockLabel → BlockLabel
replace_label from to l = if l == from then to else l

module _ {ℓ} {E : Type ℓ} where
  -- `blockpy_successors` (cfg.rs) leaves the exception edge out.
  unfoldable pub successors : BlockTerm E → List BlockLabel
  successors (jump e) = e.target ∷ []
  successors (if_term t a b) = a ∷ b ∷ []
  successors (branch_table i ts d) = ts ++ d ∷ []
  successors (raise x) = []
  successors (return x) = []

  -- `replace_target`: the new terminator, and whether anything was replaced.
  unfoldable pub replace_target : BlockLabel → BlockLabel → BlockTerm E → BlockTerm E × Bool
  replace_target from to (jump e) =
      (jump (record e { target = replace_label from to e.target }), e.target == from)
  replace_target from to (if_term t a b) =
      (if_term t (replace_label from to a) (replace_label from to b), (a == from) || (b == from))
  replace_target from to (branch_table i ts d) = (
    branch_table i (map (replace_label from to) ts) (replace_label from to d),
    any (λ l. l == from) ts || (d == from),
  )
  replace_target from to (raise x) = (raise x, false)
  replace_target from to (return x) = (return x, false)

-- `replace_fallthrough_target`
unfoldable pub replace_fallthrough_target {ℓ κ} :
    {B : Type ℓ} {E : Type κ} → BlockLabel → Block B E → Block B E × Bool
replace_fallthrough_target to b =
    let (t, done) = replace_target Label.fallthrough to b.term in (record b { term = t }, done)

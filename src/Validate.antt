-- ===== src/Validate.antt =====
-- `validate_module` (soac-blockpy/src/block_py/validate.rs). The messages of the source are values
-- of `Fault`, with what each message names. The layout that the scope information asks for is an
-- argument, `expected`.
pub mod Edges
pub mod Handlers
pub mod Exact
use diet_python.Prelude.{
  ℕ, suc, ◌-◌, String, str_eq, ◌==◌, ltb, Bool, Option, none, some, List, [], ◌∷◌, find, length,
  get_elem?, any, Result, ok, err, Check, and_then, check_all, if◌then◌else◌, take, drop,
}
use diet_python.Ir.Label.{BlockLabel}
use diet_python.Ir.Layout.{StorageLayout, ClosureSlot}
use diet_python.Ir.Block.{
  Block, BlockArg, BlockEdge, BlockParam, BlockParamRole, BlockTerm, AbruptKind, jump, if_term,
  branch_table, raise, return, edge_to, role_eq, param_name_vec, none_arg, current_exception,
  abrupt_kind,
}

-- The source's `label_kind`.
pub data LabelKind : Type 0 where
  exception_target jump_target then_target else_target : LabelKind
  br_table_target br_table_default_target : LabelKind

pub data Fault : Type 0 where
  layout_missing : Fault
  owner_cell_missing owner_cell_renamed freevar_missing : String → Fault
  non_dense_label : BlockLabel → ℕ → Fault
  -- kind, target, block
  unknown_target : LabelKind → BlockLabel → BlockLabel → Fault
  -- block, argument count, target
  exception_arg_count : BlockLabel → ℕ → BlockLabel → Fault
  exception_abrupt_kind : BlockLabel → AbruptKind → String → Fault
  edge_arg_count : LabelKind → BlockLabel → ℕ → BlockLabel → Fault
  implicit_forwarding : LabelKind → BlockLabel → BlockLabel → String → Fault
  abrupt_kind_arg : LabelKind → BlockLabel → AbruptKind → String → Fault
  current_exception_arg : LabelKind → BlockLabel → String → BlockLabel → Fault

abbrev pub Verdict : Type 0
Verdict = Check Fault

-- A function, as far as it is validated.
pub record Function {ℓ} (E : Type ℓ) : Type ℓ where
  pub blocks : List (Block E E)
  pub storage_layout : Option StorageLayout

abbrev pub logical : String → ClosureSlot → Bool
logical n s = str_eq s.logical_name n

unfoldable pub check_cellvar : StorageLayout → ClosureSlot → Verdict
check_cellvar layout expected = elim (find (logical expected.logical_name) layout.cellvars) [
  | none ↦ err (owner_cell_missing expected.logical_name)
  | some actual ↦
      if str_eq actual.storage_name expected.storage_name
      then ok tt
      else err (owner_cell_renamed expected.logical_name)
]

unfoldable pub check_freevar : StorageLayout → ClosureSlot → Verdict
check_freevar layout expected =
    if any (logical expected.logical_name) layout.freevars
    then ok tt
    else err (freevar_missing expected.logical_name)

-- `validate_storage_layout_scoping`
unfoldable pub validate_storage_layout_scoping :
    Option StorageLayout → Option StorageLayout → Verdict
validate_storage_layout_scoping none none = ok tt
validate_storage_layout_scoping (some expected) none = err layout_missing
validate_storage_layout_scoping none (some layout) = ok tt
validate_storage_layout_scoping (some expected) (some layout) =
    and_then (check_all (check_cellvar layout) expected.cellvars)
      (λ _. check_all (check_freevar layout) expected.freevars)

-- `validate_explicit_edge_arg`
unfoldable pub validate_explicit_edge_arg :
    LabelKind → BlockLabel → BlockLabel → BlockParam → BlockArg → Verdict
validate_explicit_edge_arg kind source target p (BlockArg.name n) = ok tt
validate_explicit_edge_arg kind source target p none_arg = ok tt
validate_explicit_edge_arg kind source target p current_exception =
    if role_eq p.role BlockParamRole.exception
    then ok tt
    else err (current_exception_arg kind source p.name target)
validate_explicit_edge_arg kind source target p (abrupt_kind k) =
    if role_eq p.role BlockParamRole.abrupt_kind
    then ok tt
    else err (abrupt_kind_arg kind source k p.name)

-- The pairs of a `zip`, checked in order.
unfoldable pub check_args :
    LabelKind → BlockLabel → BlockLabel → List BlockParam → List BlockArg → Verdict
check_args kind source target (p ∷ ps) (a ∷ args) =
    and_then (validate_explicit_edge_arg kind source target p a)
      (λ _. check_args kind source target ps args)
check_args kind source target [] args = ok tt
check_args kind source target ps [] = ok tt

unfoldable pub check_no_abrupt_kind : BlockLabel → List String → List BlockArg → Verdict
check_no_abrupt_kind source (n ∷ names) (abrupt_kind k ∷ args) =
    err (exception_abrupt_kind source k n)
check_no_abrupt_kind source (n ∷ names) (_ ∷ args) = check_no_abrupt_kind source names args
check_no_abrupt_kind source [] args = ok tt
check_no_abrupt_kind source names [] = ok tt

module _ {ℓ} {E : Type ℓ} where
  -- A parameter that no argument is given for: a source parameter of its role has its name.
  unfoldable pub check_forwarded : LabelKind → Block E E → Block E E → BlockParam → Verdict
  check_forwarded kind source target p = elim (find (λ q. role_eq q.role p.role) source.params) [
    | none ↦ ok tt
    | some same_role ↦
        if str_eq same_role.name p.name
        then ok tt
        else err (implicit_forwarding kind source.label target.label p.name)
  ]

  -- `validate_edge_param_forwarding`
  unfoldable pub validate_edge_param_forwarding :
      LabelKind → Block E E → Block E E → List BlockArg → Verdict
  validate_edge_param_forwarding kind source target args =
      if ltb (length target.params) (length args)
      then err (edge_arg_count kind source.label (length args) target.label)
      else let explicit_start = length target.params - length args in
        and_then
          (check_all (check_forwarded kind source target) (take explicit_start target.params))
          (λ _. check_args kind source.label target.label (drop explicit_start target.params) args)

  -- `lookup_known_block`
  unfoldable pub lookup_known_block :
      List (Block E E) → LabelKind → BlockLabel → BlockLabel → Result Fault (Block E E)
  lookup_known_block blocks kind label source = elim (get_elem? blocks label) [
    | none ↦ err (unknown_target kind label source)
    | some target ↦
        if target.label == label then ok target else err (unknown_target kind label source)
  ]

  -- `validate_non_exception_edge`
  unfoldable pub validate_non_exception_edge :
      List (Block E E) → LabelKind → Block E E → BlockEdge → Verdict
  validate_non_exception_edge blocks kind source e =
      and_then (lookup_known_block blocks kind e.target source.label)
        (λ target. validate_edge_param_forwarding kind source target e.args)

  -- The exception edge of one block.
  unfoldable pub validate_exception_edge : List (Block E E) → Block E E → Option BlockEdge → Verdict
  validate_exception_edge blocks source none = ok tt
  validate_exception_edge blocks source (some e) =
      and_then (lookup_known_block blocks exception_target e.target source.label) (λ target.
        if length e.args == length (param_name_vec target.params)
        then check_no_abrupt_kind source.label (param_name_vec target.params) e.args
        else err (exception_arg_count source.label (length e.args) target.label))

  unfoldable pub validate_term : List (Block E E) → Block E E → BlockTerm E → Verdict
  validate_term blocks source (jump e) = validate_non_exception_edge blocks jump_target source e
  validate_term blocks source (if_term t a b) =
      and_then (validate_non_exception_edge blocks then_target source (edge_to a))
        (λ _. validate_non_exception_edge blocks else_target source (edge_to b))
  validate_term blocks source (branch_table i ts d) =
      and_then
        (check_all (λ t. validate_non_exception_edge blocks br_table_target source (edge_to t)) ts)
        (λ _. validate_non_exception_edge blocks br_table_default_target source (edge_to d))
  validate_term blocks source (raise x) = ok tt
  validate_term blocks source (return x) = ok tt

  unfoldable pub validate_block : List (Block E E) → Block E E → Verdict
  validate_block blocks b =
      and_then (validate_exception_edge blocks b b.exc_edge) (λ _. validate_term blocks b b.term)

  -- Each block's label is its index, from an index on.
  unfoldable pub check_dense : ℕ → List (Block E E) → Verdict
  check_dense i [] = ok tt
  check_dense i (b ∷ bs) =
      let rest = check_dense (suc i) bs in
      if b.label == i then rest else err (non_dense_label b.label i)

  -- `validate_function`
  unfoldable pub validate_function : Option StorageLayout → Function E → Verdict
  validate_function expected f =
      and_then (validate_storage_layout_scoping expected f.storage_layout)
        (λ _. and_then (check_dense 0 f.blocks) (λ _. check_all (validate_block f.blocks) f.blocks))

  -- `validate_module`, with the expected layout of each function beside it.
  unfoldable pub validate_module : List (Option StorageLayout × Function E) → Verdict
  validate_module = check_all (λ (expected, f). validate_function expected f)

-- ===== src/Planning/Validated.antt =====
-- Exceptions in a validated function (soac-eval/src/jit/planning.rs).
use diet_python.Prelude.{
  ◌++◌, ◌≡◌, refl, ap, String, str_eq, str_eq_iff, any-mem, true, Option, none, some, List, [], ◌∷◌,
  get_elem?, retain, mem-retain, Memᴰ, Passes, subst,
}
use diet_python.Prelude.Memᴰ
use diet_python.Ir.Layout.{StorageLayout}
use diet_python.Ir.Block.{
  Block, BlockArg, BlockEdge, BlockParam, BlockParamRole, role_eq, is_exception_param, bb_params,
  bb_param_names, param_name_vec,
}
use diet_python.Validate.{Function, validate_function}
use diet_python.Validate.Exact.{IsSound, ExcIsSound, validate_function-IsSound}
use diet_python.Planning.{
  BlockExcDispatchPlan, contains_name, slot_writes, jit_param_names_for_block, stack_slot_names,
  plan_for, exc_dispatch_plan,
}

-- A parameter of any role is one of the block's runtime parameters.
by_role :
    (ps : List BlockParam) {p : BlockParam}
    → Memᴰ p ps
    → (r : BlockParamRole) → p.role ≡ r
    → Memᴰ p (bb_params ps)
unfolding bb_params role_eq
by_role ps m BlockParamRole.exception e = Memᴰ.append_left _ (
    Memᴰ.append_left _
      (mem-retain is_exception_param ps m (ap (λ r. role_eq r BlockParamRole.exception) e)))
by_role ps m BlockParamRole.abrupt_kind e = Memᴰ.append_left _ (
    Memᴰ.append_right (retain is_exception_param ps) (
      mem-retain (λ x. role_eq x.role BlockParamRole.abrupt_kind) ps m
        (ap (λ r. role_eq r BlockParamRole.abrupt_kind) e)))
by_role ps m BlockParamRole.abrupt_payload e =
    Memᴰ.append_right
      (retain is_exception_param ps ++ retain (λ x. role_eq x.role BlockParamRole.abrupt_kind) ps)
      (mem-retain (λ x. role_eq x.role BlockParamRole.abrupt_payload) ps m
        (ap (λ r. role_eq r BlockParamRole.abrupt_payload) e))

mem-bb_params : (ps : List BlockParam) {p : BlockParam} → Memᴰ p ps → Memᴰ p (bb_params ps)
mem-bb_params ps {p} m = by_role ps m p.role refl

slot_writes-none :
    (runtime slots names : List String) (args : List BlockArg)
    → ((n : String) → Memᴰ n names → Memᴰ n runtime)
    → slot_writes runtime slots names args ≡ []
unfolding slot_writes
slot_writes-none runtime slots [] args all = refl
slot_writes-none runtime slots (n ∷ ns) [] all = refl
slot_writes-none runtime slots (n ∷ ns) (a ∷ args) all =
    let found : contains_name runtime n ≡ true =
      any-mem (λ m. str_eq m n) runtime (all n (Memᴰ.head refl)) ((str_eq_iff n n).1 refl) in
    rw (found, slot_writes-none runtime slots ns args (λ k m. all k (Memᴰ.tail m))) refl

module _ {ℓ} {E : Type ℓ} where
  -- Each parameter of a block is passed to it when it runs.
  names-runtime :
      (b : Block E E) (n : String)
      → Memᴰ n (param_name_vec b.params)
      → Memᴰ n (jit_param_names_for_block b)
  unfolding jit_param_names_for_block
  names-runtime b n m =
      let (p, member, e) = Memᴰ.of_map (λ (x : BlockParam). x.name) b.params m in
      subst (λ k. Memᴰ k (bb_param_names b.params)) e
        (Memᴰ.map (λ (x : BlockParam). x.name) (mem-bb_params b.params member))

  -- What is planned for a block: nothing without an exception edge; else the edge's target, which is
  -- at its index and has it as its label, and no write to a slot.
  pub data Planned (blocks : List (Block E E))
      : Option BlockEdge → Option BlockExcDispatchPlan → Type ℓ where
    no_handler : Planned blocks none none
    handled :
        {e : BlockEdge} {target : Block E E}
        → get_elem? blocks e.target ≡ some target
        → target.label ≡ e.target
        → Planned blocks (some e) (some (record { target_index = e.target; slot_writes = [] }))

  planned :
      (expected : Option StorageLayout) (f : Function E)
      → IsSound expected f
      → (b : Block E E) (e : Option BlockEdge) → b.exc_edge ≡ e
      → ExcIsSound f.blocks e
      → (plan : Option BlockExcDispatchPlan) × (exc_dispatch_plan f.storage_layout f.blocks b
          ≡ some plan)
        × Planned f.blocks e plan
  unfolding exc_dispatch_plan plan_for
  planned expected f sound b none edge h = (none, rw (edge, exc_dispatch_plan) refl, no_handler)
  planned expected f sound b (some e) edge h =
      let here = h.known.position in
      let quiet =
        slot_writes-none (jit_param_names_for_block h.target) (stack_slot_names f.storage_layout)
          (param_name_vec h.target.params) e.args (names-runtime h.target) in
      (
        some (record { target_index = e.target; slot_writes = [] }),
        rw (edge, here, quiet, exc_dispatch_plan) refl,
        handled here h.known.label,
      )

  -- In a function that validation accepts, planning where a block's exceptions go does not panic.
  -- Without an exception edge there is no plan. Else the plan names the block that has the edge's
  -- target as its index and as its label, and writes no slot: each parameter of the block is passed to it.
  pub exc_dispatch_plan-Planned :
      (expected : Option StorageLayout) (f : Function E)
      → Passes (validate_function expected f)
      → (b : Block E E) → Memᴰ b f.blocks
      → (plan : Option BlockExcDispatchPlan) × (exc_dispatch_plan f.storage_layout f.blocks b
          ≡ some plan)
        × Planned f.blocks b.exc_edge plan
  exc_dispatch_plan-Planned expected f valid b m =
      let sound = (validate_function-IsSound expected f).0 valid in
      planned expected f sound b b.exc_edge refl (sound.handlers b m)

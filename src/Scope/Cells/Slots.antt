-- ===== src/Scope/Cells/Slots.antt =====
-- The slots of the layout that is built (scope.rs).
use Prim.Native.String.{◌++◌}
use diet_python.Prelude.{
  if◌then◌else◌, subst, arith, ◌≡◌, refl, sym, ap, ◌∙◌, ◌↔◌, ◌⊎◌, String, str_eq, str_eq_iff, Bool,
  true, false, not, none, some, List, [], ◌∷◌, map, retain, any-mem, retain-mem, mem-retain, inl,
  inr, Memᴰ, Bool-cases, Option-cases,
}
use diet_python.Prelude.Memᴰ
use diet_python.Ir.Layout.{ClosureSlot, ClosureInit, StorageLayout}
use diet_python.Scope.{CallableScopeInfo, holds, get}
use diet_python.Scope.Cells.{
  sort, dedup, cell_name, cell_storage_name, logical_name_for_cell_storage, logical_or_storage,
  is_runtime_closure_name, freevar_of, cellvar_of, layout_of, build_storage_layout,
}
use diet_python.Scope.Cells.Layouts.{sort-mem, dedup-mem}

-- A captured name: the cell is stored under the name that is recorded for it, or under a name that
-- is made from its own.
pub record IsFreevar (info : CallableScopeInfo) (captures : List String) (s : ClosureSlot)
    : Type 0 where
  pub captured : Memᴰ s.logical_name captures
  pub stored :
      (get s.logical_name info.cell_storage_names ≡ some s.storage_name)
      ⊎ ((get s.logical_name info.cell_storage_names ≡ none)
          × (s.storage_name ≡ "_dp_cell_" ++ s.logical_name))
  pub init : s.init ≡ ClosureInit.inherited_capture

-- A local cell that the runtime does not use itself: a parameter's cell starts with its value.
pub record IsCellvar (info : CallableScopeInfo) (params cells : List String) (s : ClosureSlot)
    : Type 0 where
  pub stored : Memᴰ s.storage_name cells
  pub logical :
      (logical_name_for_cell_storage info s.storage_name ≡ some s.logical_name)
      ⊎ ((logical_name_for_cell_storage info s.storage_name ≡ none)
          × (s.logical_name ≡ s.storage_name))
  pub own : is_runtime_closure_name s.logical_name ≡ false
  pub init :
      (Memᴰ s.logical_name params × (s.init ≡ ClosureInit.parameter))
      ⊎ ((¬ Memᴰ s.logical_name params) × (s.init ≡ ClosureInit.deleted_sentinel))

pub record HasSlots (info : CallableScopeInfo) (captures params cells : List String)
    (layout : StorageLayout) : Type 0 where
  pub freevars : (s : ClosureSlot) → Memᴰ s layout.freevars ↔ IsFreevar info captures s
  pub cellvars : (s : ClosureSlot) → Memᴰ s layout.cellvars ↔ IsCellvar info params cells s
  pub runtime_cells : layout.runtime_cells ≡ []
  pub stack_slots : layout.stack_slots ≡ []

holds-mem : (names : List String) (n : String) → holds names n ≡ true → Memᴰ n names
holds-mem [] n h = absurd (ground arith)
holds-mem (m ∷ names) n h = elim (Bool-cases (str_eq m n)) [
  | inl e ↦ Memᴰ.head (sym ((str_eq_iff m n).0 e))
  | inr e ↦ Memᴰ.tail (holds-mem names n (rw e at h))
]

mem-holds : (names : List String) (n : String) → Memᴰ n names → holds names n ≡ true
mem-holds names n m = any-mem (λ x. str_eq x n) names m ((str_eq_iff n n).1 refl)

slot_of : String → String → ClosureInit → ClosureSlot
slot_of logical storage init = record {
  logical_name = logical;
  storage_name = storage;
  init = init;
}

module _ (info : CallableScopeInfo) where
  freevar_of-IsFreevar :
      (captures : List String) (n : String)
      → Memᴰ n captures
      → IsFreevar info captures (freevar_of info n)
  unfolding freevar_of cell_storage_name cell_name
  freevar_of-IsFreevar captures n m = elim (Option-cases (get n info.cell_storage_names)) [
    | inl e ↦ record { captured = m; stored = inr (e, rw e refl); init = refl }
    | inr (x, e) ↦ record { captured = m; stored = inl (rw e refl); init = refl }
  ]

  IsFreevar-freevar_of :
      (captures : List String) (s : ClosureSlot)
      → IsFreevar info captures s
      → freevar_of info s.logical_name ≡ s
  unfolding freevar_of cell_storage_name cell_name slot_of
  IsFreevar-freevar_of captures s f =
      let name : cell_storage_name info s.logical_name ≡ s.storage_name = elim f.stored [
        | inl e ↦ rw e refl
        | inr (e, made) ↦ rw e (sym made)
      ] in
      ap (λ x. slot_of s.logical_name x ClosureInit.inherited_capture) name
      ∙ ap (slot_of s.logical_name s.storage_name) (sym f.init)

  logical_some :
      (stored : String) {n : String}
      → logical_name_for_cell_storage info stored ≡ some n
      → logical_or_storage info stored ≡ n
  unfolding logical_or_storage
  logical_some stored e = rw (e, logical_or_storage) refl

  logical_none :
      (stored : String)
      → logical_name_for_cell_storage info stored ≡ none
      → logical_or_storage info stored ≡ stored
  unfolding logical_or_storage
  logical_none stored e = rw (e, logical_or_storage) refl

  init_for : List String → String → ClosureInit
  init_for params n = if holds params n then ClosureInit.parameter else ClosureInit.deleted_sentinel

  init_for-holds :
      (params : List String) (n : String)
      → holds params n ≡ true
      → init_for params n ≡ ClosureInit.parameter
  unfolding init_for
  init_for-holds params n e = rw e refl

  init_for-misses :
      (params : List String) (n : String)
      → holds params n ≡ false
      → init_for params n ≡ ClosureInit.deleted_sentinel
  unfolding init_for
  init_for-misses params n e = rw e refl

  cellvar_of-IsCellvar :
      (params cells : List String) (stored : String)
      → Memᴰ stored cells
      → is_runtime_closure_name (logical_or_storage info stored) ≡ false
      → IsCellvar info params cells (cellvar_of info params stored)
  unfolding cellvar_of init_for
  cellvar_of-IsCellvar params cells stored m own = record {
    stored = m;
    logical = elim (Option-cases (logical_name_for_cell_storage info stored)) [
      | inl e ↦ inr (e, logical_none stored e)
      | inr (x, e) ↦ inl (e ∙ ap some (sym (logical_some stored e)))
    ];
    own = own;
    init = elim (Bool-cases (holds params (logical_or_storage info stored))) [
      | inl e ↦ inl (holds-mem params _ e, init_for-holds params (logical_or_storage info stored) e)
      | inr e ↦ inr (
        λ at. absurd (ground (arith, mem-holds params _ at, e)),
        init_for-misses params (logical_or_storage info stored) e,
      )
    ];
  }

  IsCellvar-logical :
      (params cells : List String) (s : ClosureSlot)
      → IsCellvar info params cells s
      → logical_or_storage info s.storage_name ≡ s.logical_name
  unfolding logical_or_storage
  IsCellvar-logical params cells s c = elim c.logical [
    | inl e ↦ logical_some s.storage_name e
    | inr (e, same) ↦ logical_none s.storage_name e ∙ sym same
  ]

  IsCellvar-init :
      (params cells : List String) (s : ClosureSlot)
      → IsCellvar info params cells s
      → init_for params s.logical_name ≡ s.init
  IsCellvar-init params cells s c = elim c.init [
    | inl (at, e) ↦
        init_for-holds params s.logical_name (mem-holds params s.logical_name at) ∙ sym e
    | inr (away, e) ↦ elim (Bool-cases (holds params s.logical_name)) [
      | inl h ↦ absurd (away (holds-mem params s.logical_name h))
      | inr h ↦ init_for-misses params s.logical_name h ∙ sym e
    ]
  ]

  IsCellvar-cellvar_of :
      (params cells : List String) (s : ClosureSlot)
      → IsCellvar info params cells s
      → cellvar_of info params s.storage_name ≡ s
  unfolding cellvar_of slot_of init_for
  IsCellvar-cellvar_of params cells s c =
      ap (λ n. slot_of n s.storage_name (init_for params n)) (IsCellvar-logical params cells s c)
      ∙ ap (slot_of s.logical_name s.storage_name) (IsCellvar-init params cells s c)

layout-fields :
    (freevars cellvars : List ClosureSlot) {layout : StorageLayout}
    → layout_of freevars cellvars ≡ some layout
    → record { freevars = freevars; cellvars = cellvars; runtime_cells = []; stack_slots = [] }
      ≡ layout
layout-fields [] [] h = absurd (ground arith)
layout-fields [] (c ∷ cs) h = cc h
layout-fields (f ∷ fs) cellvars h = cc h

not-true : (b : Bool) → not b ≡ true → b ≡ false
not-true b h = ground arith

not-false : (b : Bool) → b ≡ false → not b ≡ true
not-false b h = ground arith

-- In a layout that is built, the free variables are exactly the captured names, inherited from the
-- enclosing scope and stored under the recorded name or else under their own with `_dp_cell_` before
-- it; the cells are exactly the local ones but for those of the runtime, under their logical names,
-- and those of parameters start with the argument. There are no runtime cells and no stack slots.
pub build_storage_layout-HasSlots :
    (info : CallableScopeInfo) (captures params cells : List String) {layout : StorageLayout}
    → build_storage_layout info captures params cells ≡ some layout
    → HasSlots info captures params cells layout
unfolding build_storage_layout
build_storage_layout-HasSlots info captures params cells {layout} h =
    let test : String → Bool = λ s. not (is_runtime_closure_name (logical_or_storage info s)) in
    let free = map (freevar_of info) (dedup (sort captures)) in
    let cell = map (cellvar_of info params) (retain test cells) in
    subst (HasSlots info captures params cells) (layout-fields free cell h) (record {
      freevars = λ s. (
        λ m.
            let (n, found, e) = Memᴰ.of_map (freevar_of info) (dedup (sort captures)) m in
            subst (IsFreevar info captures) e (
              freevar_of-IsFreevar info captures n
                ((sort-mem n captures).0 ((dedup-mem n (sort captures)).0 found))),
        λ f. Memᴰ.cast (sym (IsFreevar-freevar_of info captures s f)) (
            Memᴰ.map (freevar_of info)
              ((dedup-mem _ (sort captures)).1 ((sort-mem _ captures).1 f.captured))),
      );
      cellvars = λ s. (
        λ m.
            let (n, found, e) = Memᴰ.of_map (cellvar_of info params) (retain test cells) m in
            let (at, own) = retain-mem test cells found in
            subst (IsCellvar info params cells) e
              (cellvar_of-IsCellvar info params cells n at (not-true _ own)),
        λ c.
            let own : is_runtime_closure_name (logical_or_storage info s.storage_name) ≡ false =
              ap is_runtime_closure_name (IsCellvar-logical info params cells s c) ∙ c.own in
            Memᴰ.cast (sym (IsCellvar-cellvar_of info params cells s c)) (
              Memᴰ.map (cellvar_of info params) (mem-retain test cells c.stored (not-false _ own))),
      );
      runtime_cells = refl;
      stack_slots = refl;
    })

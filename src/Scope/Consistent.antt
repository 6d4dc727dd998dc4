-- ===== src/Scope/Consistent.antt =====
-- Effective bindings follow the bindings of a scope, and name the namespace that Python's rules ask
-- for (scope.rs).
use diet_python.Prelude.{
  ◌≡◌, refl, ap, ◌∙◌, String, str_eq, str_eq_iff, Bool, true, false, Option, none, some, List, [],
  ◌∷◌, inl, inr, Bool-cases, Option-cases, arith, if◌then◌else◌,
}
use mathlib.Core.Option
use diet_python.Scope.{
  BindingTarget, BindingKind, CallableScopeKind, BindingPurpose, load, store, is_internal_symbol,
  holds, get, put, CallableScopeInfo, load_binding, store_binding,
  derive_effective_binding_for_name, honors_internal_binding, binding_kind, effective_binding,
  insert_binding_with_cell_names, target_of, binding_target_for_name,
}

module _ {V : Type 0} where
  get-put : (n : String) (v : V) (m : List (String × V)) → get n (put n v m) ≡ some v
  unfolding get put
  get-put n v [] = rw ((str_eq_iff n n).1 refl) refl
  get-put n v ((k, w) ∷ m) = elim (Bool-cases (str_eq k n)) [
    | inl e ↦ rw e (rw e refl)
    | inr e ↦ rw e (rw e (get-put n v m))
  ]

  get-put_other :
      (n k : String) (v : V) (m : List (String × V))
      → str_eq n k ≡ false
      → get k (put n v m) ≡ get k m
  unfolding get put
  get-put_other n k v [] h = rw h refl
  get-put_other n k v ((j, w) ∷ m) h = elim (Bool-cases (str_eq j n)) [
    | inl e ↦ let same : j ≡ n = (str_eq_iff j n).0 e in rw e (rw same (rw h refl))
    | inr e ↦ rw e (ap (λ z. if str_eq j k then some w else z) (get-put_other n k v m h))
  ]

-- Each name that is not internal has the effective bindings that are derived from its binding.
abbrev pub IsConsistent : CallableScopeInfo → Type 0
IsConsistent info =
    (n : String) (p : BindingPurpose)
    → is_internal_symbol n ≡ false
    → effective_binding info n p
      ≡ Option.map
          (λ b. derive_effective_binding_for_name n b info.scope_kind info.type_param_names p true)
          (binding_kind info n)

-- For a name that is not internal, it does not matter whether internal names are honored.
derive-honor :
    (n : String) (b : BindingKind) (kind : CallableScopeKind) (ts : List String)
    (p : BindingPurpose) (honor : Bool)
    → is_internal_symbol n ≡ false
    → derive_effective_binding_for_name n b kind ts p honor
      ≡ derive_effective_binding_for_name n b kind ts p true
unfolding derive_effective_binding_for_name
derive-honor n b kind ts p honor h = rw h refl

-- Two maps that are written at one name, the values of the second derived from those of the first.
put-derived :
    {A B : Type 0} (n k : String) (a : A) (b : B) (f : A → B) (xs : List (String × A))
    (bs : List (String × B))
    → get k bs ≡ Option.map f (get k xs)
    → (n ≡ k → b ≡ f a)
    → get k (put n b bs) ≡ Option.map f (get k (put n a xs))
put-derived n k a b f xs bs old new = elim (Bool-cases (str_eq n k)) [
  | inl e ↦
      let same : n ≡ k = (str_eq_iff n k).0 e in
      rw same (rw (get-put k a xs) (rw (get-put k b bs) (ap some (new same))))
  | inr e ↦ rw (get-put_other n k a xs e) (get-put_other n k b bs e ∙ old)
]

same_derived :
    (n k : String) (b : BindingKind) (info : CallableScopeInfo) (p : BindingPurpose) (honor : Bool)
    → n ≡ k
    → is_internal_symbol k ≡ false
    → derive_effective_binding_for_name n b info.scope_kind info.type_param_names p honor
      ≡ derive_effective_binding_for_name k b info.scope_kind info.type_param_names p true
same_derived n k b info p honor e h =
    rw e (derive-honor k b info.scope_kind info.type_param_names p honor h)

-- A new or replaced binding keeps a scope consistent, whatever cell names it is given.
pub insert_binding-IsConsistent :
    (n : String) (b : BindingKind) (honor : Bool) (storage source : Option String)
    (info : CallableScopeInfo)
    → IsConsistent info
    → IsConsistent (insert_binding_with_cell_names n b honor storage source info)
unfolding insert_binding_with_cell_names effective_binding binding_kind
insert_binding-IsConsistent n b honor storage source info old k load h =
    put-derived n k b _ (λ c. derive_effective_binding_for_name k c _ _ load true) info.bindings
      info.effective_load_bindings (old k load h) (λ e. same_derived n k b info load honor e h)
insert_binding-IsConsistent n b honor storage source info old k store h =
    put-derived n k b _ (λ c. derive_effective_binding_for_name k c _ _ store true) info.bindings
      info.effective_store_bindings (old k store h) (λ e. same_derived n k b info store honor e h)

-- Where a name that is not internal is kept, by the scope and by its binding there.
abbrev pub namespace_of :
    CallableScopeKind → Bool → BindingPurpose → Option BindingKind → BindingTarget
namespace_of kind is_type_param p none = BindingTarget.local
namespace_of CallableScopeKind.class is_type_param load (some b) = BindingTarget.class_namespace
namespace_of CallableScopeKind.class false store (some BindingKind.local) =
    BindingTarget.class_namespace
namespace_of _ _ _ (some BindingKind.global) = BindingTarget.module_global
namespace_of _ _ _ (some BindingKind.local) = BindingTarget.local
namespace_of _ _ _ (some (BindingKind.cell k)) = BindingTarget.local

target_of-derive :
    (n : String) (b : BindingKind) (kind : CallableScopeKind) (ts : List String)
    (p : BindingPurpose)
    → is_internal_symbol n ≡ false
    → target_of (derive_effective_binding_for_name n b kind ts p true)
      ≡ namespace_of kind (holds ts n) p (some b)
unfolding derive_effective_binding_for_name load_binding store_binding
target_of-derive n b kind ts p h = rw h (by_case b kind (holds ts n) p)
  where
    by_case :
        (b : BindingKind) (kind : CallableScopeKind) (is_type_param : Bool) (p : BindingPurpose)
        → target_of
            (elim p [ load ↦ load_binding kind b | store ↦ store_binding kind is_type_param b ])
          ≡ namespace_of kind is_type_param p (some b)
    by_case b kind is_type_param p = ground arith

-- In a consistent scope, the target of a name that is not internal is the namespace that its
-- binding asks for: a class body's own names live in the class namespace, reads of outer names fall
-- back from there, and a store to a global or to a cell passes the class namespace by.
pub binding_target_for_name-namespace :
    (info : CallableScopeInfo) (n : String) (p : BindingPurpose)
    → IsConsistent info
    → is_internal_symbol n ≡ false
    → binding_target_for_name info n p
      ≡ namespace_of info.scope_kind (holds info.type_param_names n) p (binding_kind info n)
unfolding binding_target_for_name honors_internal_binding
binding_target_for_name-namespace info n p ok h =
    rw (ok n p h, binding_target_for_name)
      (elim (Option-cases (binding_kind info n)) [
        | inl e ↦ rw e (rw h refl)
        | inr (b, e) ↦ rw e (rw h (target_of-derive n b info.scope_kind info.type_param_names p h))
      ])

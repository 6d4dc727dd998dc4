-- ===== src/Binding/Filled.antt =====
-- A call that is bound has a value for each parameter that needs one
-- (soac-eval/src/tree_walk/eval.rs).
use diet_python.Prelude.{
  arith, Bool-cases, inr, inl, Option-cases, ◌⊎◌, subst, ℕ, zero, suc, ◌≡◌, refl, ap, ◌∙◌, ◌+◌, ◌-◌,
  Bool, true, false, Option, none, some, List, [], ◌∷◌, length, ok, Result, Forall₂,
}
use diet_python.Binding.{
  multiple_values, panic, missing_required, param_index, get_elem?, unexpected_keyword,
  null_keyword, ParamKind, String, check_missing, ParamSpec, bind_keywords, bind_keyword,
  keyword_by_kind, named_keyword, other_keyword, null_vararg, raised, null_positional,
  may_be_missing, Call, bind_varkw, bind_varargs, fill_tuple, bind_positional, bind_borrowed, Param,
  and_then, err, Runtime, BindError, State, set_at, filled, fail, bind_owned,
}

Forall₂-set_at {ℓ κ μ} :
    {A : Type ℓ} {B : Type κ} {R : A → B → Type μ} {xs : List A} {ys : List B}
    → Forall₂ R xs ys
    → (i : ℕ) (a : A) (b : B) → R a b
    → Forall₂ R (set_at i a xs) (set_at i b ys)
unfolding set_at
Forall₂-set_at Forall₂.nil i a b r = Forall₂.nil
Forall₂-set_at (Forall₂.cons q rest) zero a b r = Forall₂.cons r rest
Forall₂-set_at (Forall₂.cons q rest) (suc i) a b r = Forall₂.cons q (Forall₂-set_at rest i a b r)

length-set_at {ℓ} : {A : Type ℓ} (i : ℕ) (a : A) (xs : List A) → length (set_at i a xs) ≡ length xs
unfolding set_at
length-set_at i a [] = refl
length-set_at zero a (x ∷ xs) = refl
length-set_at (suc i) a (x ∷ xs) = ap suc (length-set_at i a xs)

pub length-filled {ℓ} : {A : Type ℓ} (n : ℕ) (a : A) → length (filled n a) ≡ n
unfolding filled
length-filled zero a = refl
length-filled (suc n) a = ap suc (length-filled n a)

-- An assigned parameter has a value.
abbrev pub HasValue : {O : Type 0} → Bool → Option O → Type 0
HasValue {O = O} false o = Unit
HasValue {O = O} true o = (v : O) × (o ≡ some v)

pub record IsFilled {H O : Type 0} (n : ℕ) (s : State H O) : Type 0 where
  pub values : Forall₂ HasValue s.assigned s.bound_args
  pub count : length s.assigned ≡ n

pub start-IsFilled :
    {O : Type 0} (n : ℕ) → Forall₂ HasValue (filled n false) (filled {A = Option O} n none)
unfolding filled
start-IsFilled zero = Forall₂.nil
start-IsFilled (suc n) = Forall₂.cons tt (start-IsFilled n)

-- What is true of a result that is not an error.
abbrev pub AllOk : {X A : Type 0} → (A → Type 0) → Result X A → Type 0
AllOk P (ok a) = P a
AllOk P (err x) = Unit

pub and_then-AllOk :
    {X A B : Type 0} (P : A → Type 0) (Q : B → Type 0) (r : Result X A) (f : A → Result X B)
    → AllOk P r
    → ((a : A) → P a → AllOk Q (f a))
    → AllOk Q (and_then r f)
and_then-AllOk P Q (ok a) f p next = next a p
and_then-AllOk P Q (err x) f p next = tt

pub AllOk-ok : {X A : Type 0} (P : A → Type 0) (r : Result X A) {a : A} → AllOk P r → r ≡ ok a → P a
AllOk-ok P (ok b) p h = subst P (cc) p
AllOk-ok P (err x) p h = absurd (cc)

-- A parameter has a value unless it may do without one.
abbrev pub Served : {O : Type 0} → Param → Option O → Type 0
Served {O = O} p o = ((v : O) × (o ≡ some v)) ⊎ (may_be_missing p ≡ true)

module _ {H O : Type 0} (rt : Runtime H O) where
  pub fail-AllOk :
      {A : Type 0} (P : A → Type 0) (e : BindError) (s : State H O) → AllOk P (fail rt e s)
  unfolding fail
  fail-AllOk P e s = tt

  module _ (n : ℕ) where
    bind_owned-IsFilled :
        (i : ℕ) (v : O) (s : State H O) → IsFilled n s → IsFilled n (bind_owned rt i v s)
    unfolding bind_owned
    bind_owned-IsFilled i v s f = record {
      values = Forall₂-set_at f.values i true (some v) (v, refl);
      count = length-set_at i true s.assigned ∙ f.count;
    }

    heap-IsFilled : (s : State H O) (h : H) → IsFilled n s → IsFilled n (record s { heap = h })
    heap-IsFilled s h f = record { values = f.values; count = f.count }

    bind_borrowed-IsFilled :
        (i : ℕ) (v : O) (s : State H O) → IsFilled n s → IsFilled n (bind_borrowed rt i v s)
    unfolding bind_borrowed
    bind_borrowed-IsFilled i v s f = bind_owned-IsFilled i v _ (heap-IsFilled s _ f)

    pub bind_positional-IsFilled :
        (call : Call O) (is : List ℕ) (position : ℕ) (s : State H O)
        → IsFilled n s
        → AllOk (IsFilled n) (bind_positional rt call is position s)
    unfolding bind_positional
    bind_positional-IsFilled call [] position s f = f
    bind_positional-IsFilled call (i ∷ is) position s f = elim (Option-cases (call.args position)) [
      | inl e ↦ rw (e, AllOk) (fail-AllOk (IsFilled n) null_positional s)
      | inr (v, e) ↦
          rw (e, AllOk)
            (bind_positional-IsFilled call is (suc position) _ (bind_borrowed-IsFilled i v s f))
    ]

    fill_tuple-IsFilled :
        (call : Call O) (tuple : O) (capacity left offset : ℕ) (s : State H O)
        → IsFilled n s
        → AllOk (IsFilled n) (fill_tuple rt call tuple capacity left offset s)
    unfolding fill_tuple
    fill_tuple-IsFilled call tuple capacity zero offset s f = f
    fill_tuple-IsFilled call tuple capacity (suc left) offset s f =
        elim (Option-cases (call.args (capacity + offset))) [
          | inl e ↦ rw (e, AllOk) (fail-AllOk (IsFilled n) null_vararg _)
          | inr (v, e) ↦
              let (done, h) = rt.tuple_set_item tuple offset v (rt.incref v s.heap) in
              rw (e, AllOk)
                (elim (Bool-cases done) [
                  | inl d ↦
                      rw (d, AllOk)
                        (fill_tuple-IsFilled call tuple capacity left (suc offset) _
                          (heap-IsFilled s h f))
                  | inr d ↦ rw (d, AllOk) (fail-AllOk (IsFilled n) raised _)
                ])
        ]

    pub bind_varargs-IsFilled :
        (call : Call O) (capacity : ℕ) (varargs : Option ℕ) (s : State H O)
        → IsFilled n s
        → AllOk (IsFilled n) (bind_varargs rt call capacity varargs s)
    unfolding bind_varargs
    bind_varargs-IsFilled call capacity none s f = f
    bind_varargs-IsFilled call capacity (some i) s f =
        let (made, h) = rt.tuple_new (call.nargs - capacity) s.heap in
        elim (Option-cases made) [
          | inl e ↦ rw (e, AllOk) (fail-AllOk (IsFilled n) raised _)
          | inr (tuple, e) ↦
              rw (e, AllOk)
                (and_then-AllOk (IsFilled n) (IsFilled n) _ _
                  (fill_tuple-IsFilled call tuple capacity (call.nargs - capacity) 0 _
                    (heap-IsFilled s h f))
                  (λ s' f'. bind_owned-IsFilled i tuple s' f'))
        ]

    pub bind_varkw-IsFilled :
        (varkw : Option ℕ) (s : State H O)
        → IsFilled n s
        → AllOk (λ r. IsFilled n r.1) (bind_varkw rt varkw s)
    unfolding bind_varkw
    bind_varkw-IsFilled none s f = f
    bind_varkw-IsFilled (some i) s f =
        let (made, h) = rt.dict_new s.heap in
        elim (Option-cases made) [
          | inl e ↦ rw (e, AllOk) (fail-AllOk _ raised _)
          | inr (dict, e) ↦ rw (e, AllOk) (bind_owned-IsFilled i dict _ (heap-IsFilled s h f))
        ]

    other_keyword-IsFilled :
        (dict : Option O) (name : String) (key v : O) (s : State H O)
        → IsFilled n s
        → AllOk (IsFilled n) (other_keyword rt dict name key v s)
    unfolding other_keyword
    other_keyword-IsFilled none name key v s f = fail-AllOk (IsFilled n) (unexpected_keyword name) s
    other_keyword-IsFilled (some dict) name key v s f =
        let (done, h) = rt.dict_set_item dict key v s.heap in
        elim (Bool-cases done) [
          | inl d ↦ rw (d, AllOk) (heap-IsFilled s h f)
          | inr d ↦ rw (d, AllOk) (fail-AllOk (IsFilled n) raised _)
        ]

    named_keyword-IsFilled :
        (i : ℕ) (name : String) (v : O) (s : State H O)
        → IsFilled n s
        → AllOk (IsFilled n) (named_keyword rt i name v s)
    unfolding named_keyword
    named_keyword-IsFilled i name v s f = elim (Option-cases (get_elem? s.assigned i)) [
      | inl e ↦ rw (e, AllOk) (fail-AllOk (IsFilled n) panic s)
      | inr (true, e) ↦ rw (e, AllOk) (fail-AllOk (IsFilled n) (multiple_values name) s)
      | inr (false, e) ↦ rw (e, AllOk) (bind_borrowed-IsFilled i v s f)
    ]

    keyword_by_kind-IsFilled :
        (k : ParamKind) (i : ℕ) (dict : Option O) (name : String) (key v : O) (s : State H O)
        → IsFilled n s
        → AllOk (IsFilled n) (keyword_by_kind rt k i dict name key v s)
    unfolding keyword_by_kind
    keyword_by_kind-IsFilled ParamKind.pos_only i dict name key v s f =
        other_keyword-IsFilled dict name key v s f
    keyword_by_kind-IsFilled ParamKind.var_arg i dict name key v s f =
        other_keyword-IsFilled dict name key v s f
    keyword_by_kind-IsFilled ParamKind.any i dict name key v s f =
        named_keyword-IsFilled i name v s f
    keyword_by_kind-IsFilled ParamKind.kw_only i dict name key v s f =
        named_keyword-IsFilled i name v s f
    keyword_by_kind-IsFilled ParamKind.kw_arg i none name key v s f = f
    keyword_by_kind-IsFilled ParamKind.kw_arg i (some dict) name key v s f =
        other_keyword-IsFilled (some dict) name key v s f

    bind_keyword-IsFilled :
        (params : ParamSpec) (dict : Option O) (name : String) (key v : O) (s : State H O)
        → IsFilled n s
        → AllOk (IsFilled n) (bind_keyword rt params dict name key v s)
    unfolding bind_keyword
    bind_keyword-IsFilled params dict name key v s f =
        elim (Option-cases (param_index name params)) [
          | inl e ↦ rw (e, AllOk) (other_keyword-IsFilled dict name key v s f)
          | inr (i, e) ↦ elim (Option-cases (get_elem? params i)) [
            | inl g ↦ rw (e, g, AllOk) (fail-AllOk (IsFilled n) panic s)
            | inr (p, g) ↦ rw (e, g, AllOk) (keyword_by_kind-IsFilled p.kind i dict name key v s f)
          ]
        ]

    pub bind_keywords-IsFilled :
        (call : Call O) (params : ParamSpec) (dict : Option O) (left kw_index : ℕ) (s : State H O)
        → IsFilled n s
        → AllOk (IsFilled n) (bind_keywords rt call params dict left kw_index s)
    unfolding bind_keywords
    bind_keywords-IsFilled call params dict zero kw_index s f = f
    bind_keywords-IsFilled call params dict (suc left) kw_index s f =
        elim (Option-cases (call.kwnames kw_index)) [
          | inl e ↦ rw (e, AllOk) (fail-AllOk (IsFilled n) raised s)
          | inr (key, e) ↦ elim (Option-cases (call.args (call.nargs + kw_index))) [
            | inl g ↦ rw (e, g, AllOk) (fail-AllOk (IsFilled n) null_keyword s)
            | inr (v, g) ↦ elim (Option-cases (rt.py_string key)) [
              | inl q ↦ rw (e, g, q, AllOk) (fail-AllOk (IsFilled n) raised s)
              | inr (name, q) ↦
                  rw (e, g, q, AllOk)
                    (and_then-AllOk (IsFilled n) (IsFilled n) _ _
                      (bind_keyword-IsFilled params dict name key v s f)
                      (bind_keywords-IsFilled call params dict left (suc kw_index)))
            ]
          ]
        ]

  cons-Served :
      (p : Param) (o : Option O) (ps : ParamSpec) (values : List (Option O)) (s : State H O)
      → (r : Result (BindError × H) (List (Option O))) → Served p o
      → AllOk (λ bound. (bound ≡ s.bound_args) × Forall₂ Served ps values) r
      → AllOk (λ bound. (bound ≡ s.bound_args) × Forall₂ Served (p ∷ ps) (o ∷ values)) r
  cons-Served p o ps values s (ok bound) first (e, rest) = (e, Forall₂.cons first rest)
  cons-Served p o ps values s (err x) first rest = tt

  pub check_missing-Served :
      (params : ParamSpec) (flags : List Bool) (values : List (Option O)) (s : State H O)
      → Forall₂ HasValue flags values
      → length flags ≡ length params
      → AllOk
          (λ bound. (bound ≡ s.bound_args) × Forall₂ Served params values)
          (check_missing rt params flags s)
  unfolding check_missing
  check_missing-Served [] [] values s Forall₂.nil h = (refl, Forall₂.nil)
  check_missing-Served [] (a ∷ flags) values s r h = absurd (ground arith)
  check_missing-Served (p ∷ ps) [] values s r h = absurd (ground arith)
  check_missing-Served (p ∷ ps) (true ∷ flags) values s (Forall₂.cons {b} v r) h =
      cons-Served p b ps _ s _ (inl v) (check_missing-Served ps flags _ s r (cc))
  check_missing-Served (p ∷ ps) (false ∷ flags) values s (Forall₂.cons {b} v r) h =
      elim (Bool-cases (may_be_missing p)) [
        | inl e ↦
            rw (e, AllOk)
              (cons-Served p b ps _ s _ (inr e) (check_missing-Served ps flags _ s r (cc)))
        | inr e ↦ rw (e, AllOk) (fail-AllOk _ (missing_required p.name) s)
      ]

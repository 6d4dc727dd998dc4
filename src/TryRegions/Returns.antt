-- ===== src/TryRegions/Returns.antt =====
-- No block of a try statement with a finally clause returns past it
-- (soac-blockpy/src/passes/ruff_to_blockpy/try_regions.rs).
use diet_python.Prelude.{
  ◌≡◌, refl, ap, sym, ◌∙◌, String, Bool, true, false, ◌||◌, some, if◌then◌else◌, arith, inl, inr,
  ◌⊎◌, subst,
}
use diet_python.Ir.Label.{BlockLabel}
use diet_python.Ir.Block.{
  Block, BlockTerm, jump, if_term, branch_table, raise, return, exception_param,
}
use diet_python.Ir.Structured.{StructuredInstr}
use diet_python.TryRegions.Finalize.{divert, set_block_exc_param, rewrite_return}
use diet_python.TryRegions.Finalized.{
  is_return, Diverted, returned, stayed, SameButParams, set_block_exc_param-SameButParams,
}

module _ {ℓ} {E : Type ℓ} where
  SameButParams-refl : (b : Block (StructuredInstr E) E) → SameButParams b b
  SameButParams-refl b = record {
    label = refl;
    body = refl;
    targets = refl;
    returns = refl;
    kind = λ l k arg h. (arg, h);
  }

  SameButParams-trans :
      {a b c : Block (StructuredInstr E) E}
      → SameButParams a b
      → SameButParams b c
      → SameButParams a c
  SameButParams-trans s t = record {
    label = t.label ∙ s.label;
    body = t.body ∙ s.body;
    targets = t.targets ∙ s.targets;
    returns = t.returns ∙ s.returns;
    kind = λ l k arg h. let (arg', there) = s.kind l k arg h in t.kind l k arg' there;
  }

  -- The exception parameter is set where the test holds.
  set_if-SameButParams :
      (c : Bool) (name : String) (b : Block (StructuredInstr E) E)
      → SameButParams b (if c then set_block_exc_param name b else b)
  set_if-SameButParams true name b = (set_block_exc_param-SameButParams name b).0
  set_if-SameButParams false name b = SameButParams-refl b

  set_twice :
      (c d : Bool) (name : String) (b : Block (StructuredInstr E) E)
      → (c || d) ≡ true
      → exception_param
          (if d
            then set_block_exc_param name (if c then set_block_exc_param name b else b)
            else (if c then set_block_exc_param name b else b)).params
        ≡ some name
  set_twice true true name b h =
      (set_block_exc_param-SameButParams name (set_block_exc_param name b)).1
  set_twice true false name b h = (set_block_exc_param-SameButParams name b).1
  set_twice false true name b h = (set_block_exc_param-SameButParams name b).1
  set_twice false false name b h = absurd (ground arith)

  module _ (store : String → E → E) (target : BlockLabel) (payload : String) where
    abbrev pub f : Block (StructuredInstr E) E → Block (StructuredInstr E) E
    f = rewrite_return store target payload

    rewrite_return-kept :
        (t : BlockTerm E) (b : Block (StructuredInstr E) E)
        → b.term ≡ t
        → is_return t ≡ false
        → f b ≡ b
    unfolding rewrite_return divert is_return
    rewrite_return-kept (jump e) b h n = ap (λ t. divert store target payload t b) h
    rewrite_return-kept (if_term c x y) b h n = ap (λ t. divert store target payload t b) h
    rewrite_return-kept (branch_table i ts d) b h n = ap (λ t. divert store target payload t b) h
    rewrite_return-kept (raise x) b h n = ap (λ t. divert store target payload t b) h
    rewrite_return-kept (return x) b h n = absurd (ground arith)

    is_return-cases : (t : BlockTerm E) → ((v : E) × (t ≡ return v)) ⊎ (is_return t ≡ false)
    unfolding is_return
    is_return-cases (return x) = inl (x, refl)
    is_return-cases (jump e) = inr refl
    is_return-cases (if_term c x y) = inr refl
    is_return-cases (branch_table i ts d) = inr refl
    is_return-cases (raise x) = inr refl

    rewrite_return-Diverted :
        (b : Block (StructuredInstr E) E)
        → Diverted store target payload b (f b) × ((f b).label ≡ b.label)
    unfolding rewrite_return divert
    rewrite_return-Diverted b = elim (is_return-cases b.term) [
      | inl (v, e) ↦
          let same : f b ≡ divert store target payload (return v) b =
            ap (λ t. divert store target payload t b) e in
          subst
            (λ (x : Block (StructuredInstr E) E).
              Diverted store target payload b x × (x.label ≡ b.label))
            (sym same) (returned v _ e refl refl, refl)
      | inr n ↦
          let same = rewrite_return-kept b.term b refl n in
          (
            subst (Diverted store target payload b) (sym same) (stayed n n refl refl),
            ap (λ (x : Block (StructuredInstr E) E). x.label) same,
          )
    ]

    Diverted-is_return :
        {b x : Block (StructuredInstr E) E}
        → Diverted store target payload b x
        → is_return x.term ≡ false
    unfolding is_return
    Diverted-is_return (returned v arg was body term) = rw term refl
    Diverted-is_return (stayed was is body targets) = is

    Diverted-set :
        {b x y : Block (StructuredInstr E) E}
        → Diverted store target payload b x
        → SameButParams x y
        → Diverted store target payload b y
    Diverted-set (returned v arg was body term) s =
        let (arg', there) = s.kind _ _ arg term in returned v arg' was (s.body ∙ body) there
    Diverted-set (stayed was is body targets) s =
        stayed was (s.returns ∙ is) (s.body ∙ body) (s.targets ∙ targets)

    rewrite_twice : (b : Block (StructuredInstr E) E) → f (f b) ≡ f b
    rewrite_twice b =
        rewrite_return-kept _ (f b) refl (Diverted-is_return (rewrite_return-Diverted b).0)

    pub rewrite_once :
        (p q r : Bool) (b : Block (StructuredInstr E) E)
        → (if r
            then f (if q then f (if p then f b else b) else (if p then f b else b))
            else (if q then f (if p then f b else b) else (if p then f b else b)))
          ≡ (if p || (q || r) then f b else b)
    rewrite_once true true true b = rw (rewrite_twice b) (rewrite_twice b)
    rewrite_once true true false b = rewrite_twice b
    rewrite_once true false true b = rewrite_twice b
    rewrite_once true false false b = refl
    rewrite_once false true true b = rewrite_twice b
    rewrite_once false true false b = refl
    rewrite_once false false true b = refl
    rewrite_once false false false b = refl

    -- A block in a region that can return (`diverts`), in a region with an exception (`named`), or in
    -- none.
    pub record FinalBlock (diverts named : Bool) (name : String)
        (b b' : Block (StructuredInstr E) E) : Type ℓ where
      pub label : b'.label ≡ b.label
      pub diverted : diverts ≡ true → Diverted store target payload b b'
      pub exception : named ≡ true → exception_param b'.params ≡ some name
      pub kept : diverts ≡ false → SameButParams b b'
      pub outside : (diverts || named) ≡ false → b' ≡ b

    abbrev pub ends_as :
        Bool → Bool → Bool → String → Block (StructuredInstr E) E → Block (StructuredInstr E) E
    ends_as d c e name b =
        let x = if d then f b else b in
        let y = if c then set_block_exc_param name x else x in
        if e then set_block_exc_param name y else y

    pub ends_as-FinalBlock :
        (d c e : Bool) (name : String) (b : Block (StructuredInstr E) E)
        → FinalBlock d (c || e) name b (ends_as d c e name b)
    ends_as-FinalBlock d c e name b =
        let x : Block (StructuredInstr E) E = if d then f b else b in
        let y : Block (StructuredInstr E) E = if c then set_block_exc_param name x else x in
        let first = set_if-SameButParams c name x in
        let second = set_if-SameButParams e name y in
        record {
          label = second.label ∙ first.label ∙ labels d;
          diverted = λ h.
              let start : Diverted store target payload b x = rw h (rewrite_return-Diverted b).0 in
              Diverted-set (Diverted-set start first) second;
          exception = λ h. set_twice c e name x h;
          kept = λ h.
              let start : SameButParams b x = rw h (SameButParams-refl b) in
              SameButParams-trans (SameButParams-trans start first) second;
          outside = λ h. quiet d c e h;
        }
      where
        labels : (d : Bool) → (if d then f b else b).label ≡ b.label
        labels true = (rewrite_return-Diverted b).1
        labels false = refl

        quiet : (d c e : Bool) → (d || (c || e)) ≡ false → ends_as d c e name b ≡ b
        quiet true c e h = absurd (ground arith)
        quiet false true e h = absurd (ground arith)
        quiet false false true h = absurd (ground arith)
        quiet false false false h = refl

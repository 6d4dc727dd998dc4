-- ===== src/TryRegions/Found.antt =====
-- The regions of a try statement are the blocks that its statements were lowered to
-- (soac-blockpy/src/passes/ruff_to_blockpy/try_regions.rs).
use diet_python.Prelude.{
  String, ◌≡◌, refl, ap, sym, ◌∙◌, ◌⊎◌, inl, inr, Option, none, some, List, [], ◌∷◌, ◌++◌,
  append_assoc, append-nil,
}
use diet_python.Ir.Block.{Block}
use diet_python.Ir.Structured.{StructuredInstr}
use diet_python.TryRegions.{Lowering}
use diet_python.TryRegions.Lower.{
  Range, RegionTargets, LoweredTryRegions, LowerSequence, lower_region, lower_else,
}
use diet_python.TryRegions.Regions.{size, Appends}

pub record Prefix {ℓ} {A : Type ℓ} (xs ys : List A) : Type ℓ where
  pub rest : List A
  pub kept : ys ≡ xs ++ rest

pub Prefix-trans {ℓ} : {A : Type ℓ} {xs ys zs : List A} → Prefix xs ys → Prefix ys zs → Prefix xs zs
Prefix-trans {xs = xs} p q = record {
  rest = p.rest ++ q.rest;
  kept = q.kept ∙ ap (λ us. us ++ q.rest) p.kept ∙ append_assoc xs p.rest q.rest;
}

pub Prefix-refl {ℓ} : {A : Type ℓ} (xs : List A) → Prefix xs xs
Prefix-refl xs = record { rest = []; kept = sym (append-nil xs) }

module _ {ℓ κ} {S : Type κ} {E : Type ℓ} (lower : LowerSequence S E) where
  -- The range that the blocks for some statements take up, from a state on.
  abbrev pub added : List S → RegionTargets → Lowering E → Range
  added stmts targets s = record { start = size s; stop = size (lower stmts targets s).1 }

  -- The range takes up exactly what the callback added for the statements.
  pub record Covers (stmts : List S) (r : Range) (blocks : List (Block (StructuredInstr E) E))
      : Type (ℓ ⊔ κ) where
    pub targets : RegionTargets
    pub before : Lowering E
    pub range : r ≡ added stmts targets before
    pub there : Prefix (lower stmts targets before).1.blocks blocks

  pub record IsFound (finally_body else_body try_body : List S) (except_body : Option (List S))
      (s : Lowering E) (lowered : LoweredTryRegions) (blocks : List (Block (StructuredInstr E) E))
      : Type (ℓ ⊔ κ) where
    pub body : Covers try_body lowered.body_region_range blocks
    pub orelse : (else_body ≡ []) ⊎ Covers else_body lowered.else_region_range blocks
    pub except :
        (except_body ≡ none)
        ⊎ ((stmts : List S) × (except_body ≡ some stmts)
            × ((r : Range) × (lowered.except_region_range ≡ some r) × Covers stmts r blocks))
    -- the finally clause comes first; its entry is given parameters later
    pub last :
        (targets : RegionTargets) × (lowered.finally_region_range
          ≡ some (added finally_body targets s))

  pub Covers-Prefix :
      {stmts : List S} {r : Range} {bs cs : List (Block (StructuredInstr E) E)}
      → Covers stmts r bs
      → Prefix bs cs
      → Covers stmts r cs
  Covers-Prefix c more = record {
    targets = c.targets;
    before = c.before;
    range = c.range;
    there = Prefix-trans c.there more;
  }

  module _ (name_expr : String → E) (appends : Appends lower) where
    pub lower_region-Covers :
        (stmts : List S) (targets : RegionTargets) (s : Lowering E)
        → let r = lower_region name_expr lower stmts targets s in
          Covers stmts r.0.1 r.1.blocks × Prefix s.blocks r.1.blocks
    unfolding lower_region
    lower_region-Covers stmts targets s = (
      record {
        targets = targets;
        before = s;
        range = refl;
        there = Prefix-refl (lower stmts targets s).1.blocks;
      },
      (let (new, kept) = appends stmts targets s in record { rest = new; kept = kept }),
    )

    pub lower_else-Covers :
        (stmts : List S) (targets : RegionTargets) (s : Lowering E)
        → let r = lower_else name_expr lower stmts targets s in
          ((stmts ≡ []) ⊎ Covers stmts r.0.1 r.1.blocks) × Prefix s.blocks r.1.blocks
    unfolding lower_else
    lower_else-Covers [] targets s = (inl refl, Prefix-refl s.blocks)
    lower_else-Covers (x ∷ xs) targets s =
        let (covers, more) = lower_region-Covers (x ∷ xs) targets s in (inr covers, more)

  pub or_extend :
      {stmts : List S} {r : Range} {bs cs : List (Block (StructuredInstr E) E)}
      → (stmts ≡ []) ⊎ Covers stmts r bs
      → Prefix bs cs
      → (stmts ≡ []) ⊎ Covers stmts r cs
  or_extend (inl e) more = inl e
  or_extend (inr c) more = inr (Covers-Prefix c more)

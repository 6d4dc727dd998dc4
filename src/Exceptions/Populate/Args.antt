-- ===== src/Exceptions/Populate/Args.antt =====
-- The arguments that exception edges are given (bb_shape.rs).
use diet_python.Prelude.{
  Option-cases, ◌≢◌, sym, ◌≡◌, ap, ◌∙◌, String, str_eq, str_eq_iff, true, Option, none, some, List,
  [], ◌∷◌, length, length-map, ◌⊎◌, inl, inr, Memᴰ, arith, Bool-cases,
}
use diet_python.Prelude.Memᴰ
use diet_python.Ir.Table.{block_at}
use diet_python.Ir.Block.{
  Block, BlockArg, BlockEdge, BlockParam, AbruptKind, exception_param, param_name_vec, abrupt_kind,
}
use diet_python.Exceptions.Populate.{
  mentions, has_owner, edge_arg, edge_args, term_aliases, populated_edge, populate_block,
}

pub mentions-mem : (names : List String) (n : String) → mentions names n ≡ true → Memᴰ n names
mentions-mem [] n h = absurd (ground arith)
mentions-mem (m ∷ names) n h = elim (Bool-cases (str_eq m n)) [
  | inl e ↦ Memᴰ.head (sym ((str_eq_iff m n).0 e))
  | inr e ↦ Memᴰ.tail (mentions-mem names n (rw e at h))
]

edge_arg-plain :
    (exc : Option String) (aliases source : List String) (n : String) (k : AbruptKind)
    → edge_arg exc aliases source n ≢ abrupt_kind k
unfolding edge_arg
edge_arg-plain exc aliases source n k = ground arith

edge_arg-name :
    (exc : Option String) (aliases source : List String) (n m : String)
    → edge_arg exc aliases source n ≡ BlockArg.name m
    → (m ≡ n) × ((mentions source n ≡ true) ⊎ (has_owner source ≡ true))
unfolding edge_arg
edge_arg-name exc aliases source n m h = ground arith

module _ {ℓ κ} {B : Type ℓ} {E : Type κ} where
  -- What an exception edge carries from one block to another.
  pub record Carries (source target : Block B E) (args : List BlockArg) : Type 0 where
    -- an argument for each parameter
    pub count : length args ≡ length target.params
    -- no abrupt kind
    pub plain : (k : AbruptKind) → ¬ Memᴰ (abrupt_kind k) args
    -- a name is a parameter of the target, and one of the source unless that holds its owner
    pub names :
        (n : String)
        → Memᴰ (BlockArg.name n) args
        → Memᴰ n (param_name_vec target.params)
          × (Memᴰ n (param_name_vec source.params)
              ⊎ (has_owner (param_name_vec source.params) ≡ true))

  pub edge_args-Carries :
      (source target : Block B E) → Carries source target (edge_args source target)
  unfolding edge_args
  edge_args-Carries source target =
      let arg =
        edge_arg (exception_param target.params) (term_aliases target.term)
          (param_name_vec source.params) in
      record {
        count =
            length-map arg (param_name_vec target.params)
            ∙ length-map (λ (p : BlockParam). p.name) target.params;
        plain = λ k m.
            let (n, at, e) = Memᴰ.of_map arg (param_name_vec target.params) m in
            edge_arg-plain (exception_param target.params) (term_aliases target.term)
              (param_name_vec source.params) n k e;
        names = λ n m.
            let (p, at, e) = Memᴰ.of_map arg (param_name_vec target.params) m in
            let (same, from) =
              edge_arg-name (exception_param target.params) (term_aliases target.term)
                (param_name_vec source.params) p n e in
            (
              Memᴰ.cast same at,
              elim from [
                | inl own ↦ inl (Memᴰ.cast same (mentions-mem (param_name_vec source.params) p own))
                | inr owner ↦ inr owner
              ],
            );
      }

  pub populated_edge-args :
      (bs : List (Block B E)) (b : Block B E) (edge : Option BlockEdge) {e : BlockEdge}
      {target : Block B E}
      → populated_edge bs b edge ≡ some e
      → block_at bs e.target ≡ some target
      → e.args ≡ edge_args b target
  unfolding populated_edge
  populated_edge-args bs b none h at = absurd (ground arith)
  populated_edge-args bs b (some old) {e} {target} h at =
      elim (Option-cases (block_at bs old.target)) [
        | inl missing ↦
            let same : old ≡ e = cc (rw (missing, populated_edge) at h) in
            absurd
              (ground (arith, at, missing, same, ap (λ (x : BlockEdge). block_at bs x.target) same))
        | inr (t, found) ↦
            let record_of : BlockEdge = record { target = old.target; args = edge_args b t } in
            let same : record_of ≡ e = cc (rw (found, populated_edge) at h) in
            let found' : some t ≡ some target =
              sym found ∙ ap (λ (x : BlockEdge). block_at bs x.target) same ∙ at in
            let target_same : t ≡ target = cc found' in
            ap (λ (x : BlockEdge). x.args) (sym same) ∙ ap (edge_args b) target_same
      ]

  pub populate_block-Carries :
      (bs : List (Block B E)) (b : Block B E) {e : BlockEdge} {target : Block B E}
      → (populate_block bs b).exc_edge ≡ some e
      → block_at bs e.target ≡ some target
      → Carries b target e.args
  unfolding populate_block
  populate_block-Carries bs b {e} {target} h at =
      rw (populated_edge-args bs b b.exc_edge h at) (edge_args-Carries b target)

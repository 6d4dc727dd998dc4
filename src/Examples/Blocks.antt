-- ===== src/Examples/Blocks.antt =====
-- A function of three blocks with a handler, through the passes over its blocks.
use diet_python.Prelude.{
  sym, ok, ℕ, ◌≤◌, ◌==◌, ◌≡◌, refl, Bool, none, some, List, [], ◌∷◌, inl, inr, Memᴰ, arith, str_eq,
  ◌↔◌, Forall₂,
}
use diet_python.Prelude.Memᴰ
use diet_python.Ir.Label.{BlockLabel, from_index}
use diet_python.Ir.Block.{
  exception_param, param_name_vec, role_eq, Block, BlockEdge, BlockArg, BlockParamRole, jump, raise,
  return, edge_to, successors,
}
use diet_python.Ir.Table.{block_at}
use diet_python.Cfg.Fold.{fold_jumps, FoldsAll, fold_jumps-FoldsAll}
use diet_python.Cfg.Prune.{prune_unreachable}
use diet_python.Cfg.Prune.Reach.{Reachable}
use diet_python.Cfg.Prune.Correct.{prune_decides}
use diet_python.Cfg.Relabel
use diet_python.Cfg.Relabel.{relabel_dense}
use diet_python.Cfg.Relabel.Correct.{BlockNames, relabel_dense-BlockNames}
use diet_python.Cfg.Relabel.Dense.{IsDistinct, IsClosed, relabel_dense-labels, relabel_dense_total}
use diet_python.Exceptions.Split.{split_exception_blocks}
use diet_python.Exceptions.Split.Chains.{Chain}
use diet_python.Exceptions.Split.Leads.{split_exception_blocks-leads}
use diet_python.Cfg.Linearize.Labels.{count_label}
use diet_python.Exceptions.Populate
use diet_python.Exceptions.Populate.{populate_block, populate_exception_edge_args}
use diet_python.Exceptions.Populate.Needs.{IsArgFor, populate_block-IsArgFor}
use diet_python.Exceptions.Populate.Sound.{populate-relabel-ExcIsSound}
use diet_python.Validate.{validate_function}
use diet_python.Validate.Exact.{IsSound, ExcIsSound, validate_function-IsSound}

-- The entry, at label 4, jumps to the block at label 2; both handle exceptions at label 9.
abbrev entry : Block ℕ ℕ
entry = record {
  label = 4;
  body = 1 ∷ [];
  term = jump (edge_to 2);
  params = record { name = "x"; role = BlockParamRole.abrupt_payload } ∷ [];
  exc_edge = some (edge_to 9);
}

abbrev trivial : Block ℕ ℕ
trivial = record { label = 2; body = []; term = return 0; params = []; exc_edge = none }

abbrev handler : Block ℕ ℕ
handler = record {
  label = 9;
  body = 3 ∷ [];
  term = raise none;
  params =
      record { name = "x"; role = BlockParamRole.abrupt_payload }
      ∷ record { name = "err"; role = BlockParamRole.exception }
      ∷ [];
  exc_edge = none;
}

abbrev cfg : List (Block ℕ ℕ)
cfg = entry ∷ trivial ∷ handler ∷ []

abbrev is_zero : ℕ → Bool
is_zero e = e == 0

fold_jumps-FoldsAll_example : FoldsAll is_zero cfg cfg (fold_jumps is_zero cfg)
fold_jumps-FoldsAll_example = fold_jumps-FoldsAll is_zero cfg

prune_decides_example :
    (kept : List (Block ℕ ℕ)) × (prune_unreachable 4 (9 ∷ []) cfg ≡ some kept)
    × ((b : Block ℕ ℕ) → Memᴰ b kept ↔ (Memᴰ b cfg × Reachable cfg (4 ∷ 9 ∷ []) b.label))
prune_decides_example = prune_decides 4 (9 ∷ []) cfg

abbrev dense_handler : Block ℕ ℕ
dense_handler = record handler { label = 2 }

-- What relabelling makes of the blocks, and of the blocks with their exception edges populated.
abbrev dense : List (Block ℕ ℕ)
dense =
    record entry { label = 0; term = jump (edge_to 1); exc_edge = some (edge_to 2) }
    ∷ record trivial { label = 1 }
    ∷ dense_handler
    ∷ []

cfg-ran : relabel_dense cfg ≡ some dense
unfolding relabel_dense Relabel.numbered from_index Relabel.relabel_block Relabel.relabel_targets
    Relabel.relabel_edge Relabel.relabel_exc_edge
cfg-ran = refl

relabel_dense-BlockNames_example : Forall₂ (BlockNames cfg) cfg dense
relabel_dense-BlockNames_example = relabel_dense-BlockNames cfg cfg-ran

cfg-IsDistinct : IsDistinct cfg
cfg-IsDistinct i j b c at_i at_j same = ground arith

relabel_dense-labels_example : dense_handler.label ≡ 2
relabel_dense-labels_example =
    relabel_dense-labels cfg cfg-IsDistinct cfg-ran 2 {b' = dense_handler} refl

only_target : {l k : BlockLabel} → Memᴰ l (k ∷ []) → k ≡ l
only_target m = elim (Memᴰ.cases_cons m) [ inl e ↦ sym e | inr n ↦ absurd (Memᴰ.not-nil n) ]

cfg-IsClosed : (b : Block ℕ ℕ) → Memᴰ b cfg → IsClosed cfg b
unfolding successors
cfg-IsClosed b m = elim (Memᴰ.cases_cons m) [
  | inl e ↦ rw e (record {
    targets = λ l h. record {
      block = trivial;
      member = Memᴰ.tail (Memᴰ.head refl);
      label = only_target h;
    };
    handler = λ e h. record {
      block = handler;
      member = Memᴰ.tail (Memᴰ.tail (Memᴰ.head refl));
      label = ground (arith, h);
    };
  })
  | inr later ↦ elim (Memᴰ.cases_cons later) [
    | inl e ↦ rw e (record {
      targets = λ l h. absurd (Memᴰ.not-nil h);
      handler = λ e h. absurd (ground (arith, h));
    })
    | inr last ↦ elim (Memᴰ.cases_cons last) [
      | inl e ↦ rw e (record {
        targets = λ l h. absurd (Memᴰ.not-nil h);
        handler = λ e h. absurd (ground (arith, h));
      })
      | inr never ↦ absurd (Memᴰ.not-nil never)
    ]
  ]
]

relabel_dense_total_example : (bs' : List (Block ℕ ℕ)) × (relabel_dense cfg ≡ some bs')
relabel_dense_total_example = relabel_dense_total cfg (ground arith) cfg-IsClosed

-- What populating makes of the entry, and relabelling of all blocks after that.
abbrev entry_edge : BlockEdge
entry_edge = record { target = 9; args = BlockArg.name "x" ∷ BlockArg.current_exception ∷ [] }

entry-edge : (populate_block cfg entry).exc_edge ≡ some entry_edge
unfolding populate_block Populate.populated_edge block_at Populate.edge_args Populate.edge_arg
    Populate.is_exc_name Populate.term_aliases Populate.exception_aliases Populate.has_owner
    exception_param role_eq str_eq
entry-edge = refl

entry-target : block_at cfg 9 ≡ some handler
unfolding block_at
entry-target = refl

populate_block-IsArgFor_example :
    Forall₂ (IsArgFor entry handler) (param_name_vec handler.params) entry_edge.args
populate_block-IsArgFor_example = populate_block-IsArgFor cfg entry entry-edge entry-target

abbrev dense_entry : Block ℕ ℕ
dense_entry = record entry {
  label = 0;
  term = jump (edge_to 1);
  exc_edge = some (record entry_edge { target = 2 });
}

abbrev populated : List (Block ℕ ℕ)
populated = dense_entry ∷ record trivial { label = 1 } ∷ dense_handler ∷ []

populated-ran : relabel_dense (populate_exception_edge_args cfg) ≡ some populated
unfolding relabel_dense Relabel.numbered from_index Relabel.relabel_block Relabel.relabel_targets
    Relabel.relabel_edge Relabel.relabel_exc_edge populate_exception_edge_args populate_block
    Populate.populated_edge block_at Populate.edge_args Populate.edge_arg Populate.is_exc_name
    Populate.term_aliases Populate.exception_aliases Populate.has_owner exception_param role_eq
    str_eq
populated-ran = refl

populate-relabel-ExcIsSound_example : ExcIsSound populated dense_entry.exc_edge
populate-relabel-ExcIsSound_example =
    populate-relabel-ExcIsSound cfg cfg-IsDistinct populated-ran (Memᴰ.head refl)

validate_function-IsSound_example :
    (validate_function none (record { blocks = populated; storage_layout = none }) ≡ ok tt)
    ↔ IsSound none (record { blocks = populated; storage_layout = none })
validate_function-IsSound_example =
    validate_function-IsSound none (record { blocks = populated; storage_layout = none })

-- A block of three instructions with a handler: the first of them updates the exception state.
abbrev guarded : Block ℕ ℕ
guarded = record entry { body = 0 ∷ 1 ∷ 2 ∷ [] }

abbrev guarded_cfg : List (Block ℕ ℕ)
guarded_cfg = guarded ∷ handler ∷ []

guarded_cfg_once : (l : BlockLabel) → count_label l guarded_cfg ≤ 1
unfolding count_label
guarded_cfg_once l = ground arith

guarded_cfg_used : (l : BlockLabel) → 10 ≤ l → count_label l guarded_cfg ≡ 0
unfolding count_label
guarded_cfg_used l h = ground arith

split_exception_blocks-leads_example :
    ((l : BlockLabel) → count_label l (split_exception_blocks is_zero 10 guarded_cfg).out ≤ 1)
    × ((b : Block ℕ ℕ)
        → Memᴰ b guarded_cfg
        → Chain is_zero (split_exception_blocks is_zero 10 guarded_cfg).out b b.label b.body)
split_exception_blocks-leads_example =
    split_exception_blocks-leads is_zero 10 guarded_cfg guarded_cfg_once guarded_cfg_used

-- ===== src/Instrument/Fragment.antt =====
-- Fragments of blocks in place of an instruction: `OptBlock` and its validation
-- (soac-blockpy/src/passes/instrument.rs). Hash sets of labels are lists.
pub mod Paths
pub mod Walk
pub mod Fuel
pub mod Labels
pub mod Accepted
pub mod Runs
pub mod Splice
use diet_python.Prelude.{
  ℕ, zero, suc, Bool, true, false, ◌||◌, Option, none, some, List, [], ◌∷◌, ◌++◌, lookup, insert,
  Map, length, ok, err, Result, Check, and_then, ◌>>=◌, if◌then◌else◌, check_all,
}
use diet_python.Ir.Label.{BlockLabel, is_fallthrough}
use diet_python.Ir.Block.{
  Block, BlockTerm, jump, if_term, branch_table, raise, return, replace_fallthrough_target,
}
use diet_python.Cfg.Prune.{contains}

pub data OptBlockError : Type 0 where
  reuses_label : BlockLabel → OptBlockError
  must_keep_paths_inside : BlockLabel → OptBlockError
  -- the dependency, the entry
  unreachable : BlockLabel → BlockLabel → OptBlockError

pub record OptBlock {ℓ} (E : Type ℓ) : Type ℓ where
  pub entry : Block E E
  pub dependencies : List (Block E E)

-- What the walk over the fragment keeps. The stack is restored on return: it is an argument.
pub record Walked : Type 0 where
  pub reachable : List BlockLabel
  pub memo : Map Bool

abbrev pub Visit : Type 0
Visit = BlockLabel → Walked → Option (Bool × Walked)

-- `all` over the targets, which stops at the first that fails.
unfoldable pub all_targets : Visit → List BlockLabel → Walked → Option (Bool × Walked)
all_targets visit [] w = some (true, w)
all_targets visit (t ∷ ts) w =
    if is_fallthrough t
    then all_targets visit ts w
    else (do (valid, w') ← visit t w; if valid then all_targets visit ts w' else some (false, w'))

unfoldable pub term_ends {ℓ} : {E : Type ℓ} → Visit → BlockTerm E → Walked → Option (Bool × Walked)
term_ends visit (jump e) w = all_targets visit (e.target ∷ []) w
term_ends visit (if_term t a b) w = all_targets visit (a ∷ b ∷ []) w
term_ends visit (branch_table i ts d) w = all_targets visit (ts ++ d ∷ []) w
term_ends visit (raise x) w = some (false, w)
term_ends visit (return x) w = some (false, w)

unfoldable pub enter : BlockLabel → Walked → Walked
enter l w = record w { reachable = l ∷ w.reachable }

unfoldable pub remember : BlockLabel → Bool × Walked → Bool × Walked
remember l (valid, w) = (valid, record w { memo = insert l valid w.memo })

abbrev pub nothing_walked : Walked
nothing_walked = record { reachable = []; memo = [] }

module _ {ℓ} {E : Type ℓ} where
  -- `none` where the depth runs out.
  unfoldable pub all_paths_end_in_fallthrough :
      Map (Block E E) → ℕ → List BlockLabel → BlockLabel → Walked → Option (Bool × Walked)
  all_paths_end_in_fallthrough blocks zero stack l w = none
  all_paths_end_in_fallthrough blocks (suc depth) stack l w = elim (lookup l w.memo) [
    | some valid ↦ some (valid, enter l w)
    | none ↦ elim (contains stack l) [
      | true ↦ some (false, w)
      | false ↦ elim (lookup l blocks) [
        | none ↦ some (false, w)
        | some b ↦ do
          done ←
              term_ends (all_paths_end_in_fallthrough blocks depth (l ∷ stack)) b.term (enter l w)
          some (remember l done)
      ]
    ]
  ]

  unfoldable pub insert_all :
      List (Block E E) → Map (Block E E) → Result OptBlockError (Map (Block E E))
  insert_all [] blocks = ok blocks
  insert_all (b ∷ bs) blocks = elim (lookup b.label blocks) [
    | some old ↦ err (reuses_label b.label)
    | none ↦ insert_all bs (insert b.label b blocks)
  ]

  unfoldable pub check_dependency : List BlockLabel → BlockLabel → Block E E → Check OptBlockError
  check_dependency reachable entry b =
      if contains reachable b.label then ok tt else err (unreachable b.label entry)

  unfoldable pub check_walk :
      Block E E → List (Block E E) → Option (Bool × Walked) → Option (Check OptBlockError)
  check_walk entry deps none = none
  check_walk entry deps (some (false, w)) = some (err (must_keep_paths_inside entry.label))
  check_walk entry deps (some (true, w)) =
      some (check_all (check_dependency w.reachable entry.label) deps)

  unfoldable pub check_blocks :
      Block E E
      → List (Block E E)
      → Result OptBlockError (Map (Block E E))
      → Option (Check OptBlockError)
  check_blocks entry deps (err e) = some (err e)
  check_blocks entry deps (ok blocks) =
      check_walk entry deps
        (all_paths_end_in_fallthrough blocks (suc (length blocks)) [] entry.label nothing_walked)

  unfoldable pub validate_opt_block : Block E E → List (Block E E) → Option (Check OptBlockError)
  validate_opt_block entry deps =
      check_blocks entry deps (insert_all deps (insert entry.label entry []))

  -- `OptBlock::new`
  unfoldable pub new : Block E E → List (Block E E) → Option (Result OptBlockError (OptBlock E))
  new entry deps = do
    checked ← validate_opt_block entry deps
    some (and_then checked λ _. ok (record { entry = entry; dependencies = deps }))

  unfoldable pub replace_in_all : BlockLabel → List (Block E E) → List (Block E E) × Bool
  replace_in_all to [] = ([], false)
  replace_in_all to (b ∷ bs) =
      let (b', here) = replace_fallthrough_target to b in
      let (bs', later) = replace_in_all to bs in (b' ∷ bs', here || later)

  -- `OptBlock::replace_fallthrough_target`: the new fragment, and whether anything was replaced.
  unfoldable pub replace_fallthrough : BlockLabel → OptBlock E → OptBlock E × Bool
  replace_fallthrough to o =
      let (entry, here) = replace_fallthrough_target to o.entry in
      let (deps, later) = replace_in_all to o.dependencies in
      (record { entry = entry; dependencies = deps }, here || later)

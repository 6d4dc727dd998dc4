-- ===== src/Examples/Fragments.antt =====
-- A fragment of two blocks, and counters (soac-blockpy/src/passes/instrument.rs).
use diet_python.Prelude.{
  ℕ, zero, suc, ◌≡◌, ◌↔◌, refl, ap, none, some, true, List, [], ◌∷◌, inl, inr, Memᴰ, arith, ok,
  Forall₂, Check,
}
use diet_python.Prelude.Memᴰ
use diet_python.Ir.Label.{BlockLabel, fallthrough, is_fallthrough, new}
use diet_python.Ir.Block.{Block, jump, if_term, edge_to}
use diet_python.Instrument.Fragment
use diet_python.Instrument.Fragment.{
  OptBlock, OptBlockError, validate_opt_block, replace_fallthrough,
}
use diet_python.Instrument.Fragment.Paths.{parts, AlwaysEnds, Reaches}
use diet_python.Instrument.Fragment.Labels.{HasOwnLabels}
use diet_python.Instrument.Fragment.Accepted.{validate_opt_block-decides}
use diet_python.Instrument.Fragment.Runs.{blocks_of}
use diet_python.Instrument.Fragment.Splice.{Redirected, replace_fallthrough-new}
use diet_python.Instrument.Counters
use diet_python.Instrument.Counters.{
  CounterScope, this, global, CounterSite, block_entry, runtime, CounterSpec, CounterDef,
  CounterCall, define_call, define_if_missing_call, define_if_missing, calls,
}
use diet_python.Instrument.Counters.Laws.{
  HasOwnIds, none_left, one_more, Extends, AllBelow, calls-new,
}
use diet_python.Instrument.Counters.Again.{define_if_missing-again}

-- The entry goes on at block 1 or falls through; block 1 falls through.
abbrev guard : Block ℕ ℕ
guard = record {
  label = 0;
  body = 1 ∷ [];
  term = if_term 7 1 fallthrough;
  params = [];
  exc_edge = none;
}

abbrev slow_path : Block ℕ ℕ
slow_path = record {
  label = 1;
  body = 2 ∷ [];
  term = jump (edge_to fallthrough);
  params = [];
  exc_edge = none;
}

abbrev guarded : OptBlock ℕ
guarded = record { entry = guard; dependencies = slow_path ∷ [] }

guarded-new : Fragment.new guard (slow_path ∷ []) ≡ some (ok guarded)
unfolding Fragment.new validate_opt_block Fragment.check_blocks Fragment.check_walk
    Fragment.check_dependency Fragment.insert_all Fragment.all_paths_end_in_fallthrough
    Fragment.term_ends Fragment.all_targets Fragment.enter Fragment.remember is_fallthrough
guarded-new = refl

validate_opt_block-decides_example :
    (r : Check OptBlockError) × (validate_opt_block guard (slow_path ∷ []) ≡ some r)
    × ((r ≡ ok tt) ↔ (
        HasOwnLabels (guard ∷ slow_path ∷ [])
        × (AlwaysEnds (parts (guard ∷ slow_path ∷ [])) 0
            × ((b : Block ℕ ℕ)
                → Memᴰ b (slow_path ∷ [])
                → Reaches (parts (guard ∷ slow_path ∷ [])) 0 b.label))))
validate_opt_block-decides_example = validate_opt_block-decides guard (slow_path ∷ [])

abbrev trace : ℕ → BlockLabel
trace zero = 0
trace (suc zero) = 1
trace (suc (suc n)) = fallthrough

replace_fallthrough-new_example :
    ((replace_fallthrough 9 guarded).1 ≡ true)
    × Forall₂ (Redirected 9) (blocks_of guarded) (blocks_of (replace_fallthrough 9 guarded).0)
replace_fallthrough-new_example =
    replace_fallthrough-new guard (slow_path ∷ []) guarded 9 guarded-new

abbrev entered : CounterSpec
entered = record { scope = this; kind = "block_entry"; site = block_entry (new 1 2) 3 }

abbrev raised : CounterSpec
raised = record { scope = global; kind = "raised"; site = runtime none none }

abbrev first_defs : List CounterDef
first_defs = record { id = 4; spec = raised } ∷ []

first_defs-HasOwnIds : HasOwnIds first_defs
first_defs-HasOwnIds = one_more (λ d m. absurd (Memᴰ.not-nil m)) none_left

abbrev counter_calls : List CounterCall
counter_calls = define_if_missing_call raised ∷ define_call entered ∷ define_call entered ∷ []

first_defs-AllBelow : AllBelow 5 first_defs
first_defs-AllBelow d m = elim (Memᴰ.cases_cons m) [
  | inl e ↦ let id : d.id ≡ 4 = ap (λ (x : CounterDef). x.id) e in omega arith
  | inr never ↦ absurd (Memᴰ.not-nil never)
]

calls-new_example : Extends first_defs (calls counter_calls (Counters.new first_defs))
calls-new_example =
    calls-new first_defs counter_calls 5 first_defs-AllBelow (omega arith) first_defs-HasOwnIds

define_if_missing-again_example :
    define_if_missing entered
      (calls counter_calls (define_if_missing entered (Counters.new first_defs)).1)
    ≡ (
      (define_if_missing entered (Counters.new first_defs)).0,
      calls counter_calls (define_if_missing entered (Counters.new first_defs)).1,
    )
define_if_missing-again_example =
    define_if_missing-again entered counter_calls (Counters.new first_defs)

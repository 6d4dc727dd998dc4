-- ===== src/Examples/Linear.antt =====
-- A function whose body has an if with a join, linearized and lowered.
use diet_python.Prelude.{false}
use diet_python.Ir.Label
use diet_python.Ir.NameGen
use diet_python.Ir.NameGen.Fresh.{nth_id, next_block_name-fresh, next_function_name_gen-distinct}
use mathlib.Core.Option
use diet_python.Ir.Targets.{replace_target-successors}
use diet_python.Ir.Builders.{extend-set_term}
use diet_python.Prelude.{
  any, map, ◌^◌, ℕ, ◌+◌, ◌*◌, ◌==◌, ◌≡◌, ◌≤◌, refl, none, some, List, [], ◌∷◌, inr, Memᴰ, arith,
  Forall₂,
}
use diet_python.Ir.Label.{BlockLabel, from_index}
use diet_python.Ir.Block.{
  replace_label, replace_target, branch_table, successors, BlockTerm, Block, return,
}
use diet_python.Ir.Structured.{
  push_stmt, append, set_term, extend, BlockBuilder, StructuredInstr, expr, if_stmt, nil, cons,
  builder, of_list,
}
use diet_python.Cfg.Linearize.{linearize_structured_ifs}
use diet_python.Cfg.Linearize.Labels.{count_label, within, linearize-labels, linearize-distinct}
use diet_python.Cfg.Linearize
use diet_python.Cfg.Linearize.Fresh
use diet_python.Cfg.Linearize.Fresh.{linearize-fits}
use diet_python.Cfg.Linearize.Run.{Machine, leaves, Reaches, run_stmts}
use diet_python.Cfg.Linearize.Simulation.{linearize_simulates}
use diet_python.Exceptions.Lower.{lower_structured_blocks, lowered_exception_edges}
use diet_python.Exceptions.Lower.Total.{IsLowered, lower_structured_blocks-IsLowered}

-- Instructions are numbers that are added to the state; a test asks whether the state is its number.
abbrev adder : Machine ℕ
adder = record { State = ℕ; exec = λ e s. inr (s + e); ask = λ e s. inr (s, s == e) }

abbrev if_block : Block (StructuredInstr ℕ) ℕ
if_block = record {
  label = 0;
  body =
      expr 1
      ∷ if_stmt 4 (builder (cons (expr 2) nil) none) (builder nil (some (return 9)))
      ∷ expr 5
      ∷ [];
  term = return 7;
  params = [];
  exc_edge = none;
}

abbrev if_blocks : List (Block (StructuredInstr ℕ) ℕ)
if_blocks = if_block ∷ []

linearize_simulates_example :
    Reaches adder
      (linearize_structured_ifs 1 if_blocks [] []).blocks
      if_block.label
      3
      (run_stmts adder (of_list if_block.body) (leaves if_block.term) 3)
linearize_simulates_example = linearize_simulates adder 1 if_blocks [] [] (Memᴰ.head refl) 3

linearize-labels_example :
    count_label 2 (linearize_structured_ifs 1 if_blocks [] []).blocks
    ≡ count_label 2 if_blocks
      + within 1 (linearize_structured_ifs 1 if_blocks [] []).next_block_id 2
linearize-labels_example = linearize-labels 1 if_blocks [] [] 2

if_blocks-once : (l : BlockLabel) → count_label l if_blocks ≤ 1
unfolding count_label
if_blocks-once l = ground arith

if_blocks-used : (l : BlockLabel) → 1 ≤ l → count_label l if_blocks ≡ 0
unfolding count_label
if_blocks-used l h = ground arith

linearize-distinct_example : count_label 3 (linearize_structured_ifs 1 if_blocks [] []).blocks ≤ 1
linearize-distinct_example = linearize-distinct 1 if_blocks [] [] if_blocks-once if_blocks-used 3

if_blocks-small : 1 + 3 * Fresh.all_ifs if_blocks ≤ 2 ^ 32
unfolding Fresh.all_ifs Fresh.ifs_of Fresh.ifs_in of_list
if_blocks-small = omega arith

if_blocks-new : count_label 3 if_blocks ≡ 0
unfolding count_label
if_blocks-new = refl

if_blocks-there : 1 ≤ count_label 3 (linearize_structured_ifs 1 if_blocks [] []).blocks
unfolding count_label linearize_structured_ifs Linearize.linearize_from Linearize.linearize_block
    Linearize.if_sequence Linearize.fragment Linearize.emit Linearize.allocate of_list
if_blocks-there = omega arith

linearize-fits_example : from_index 3 ≡ some 3
linearize-fits_example =
    linearize-fits 1 if_blocks [] [] if_blocks-small 3 if_blocks-new if_blocks-there

lower_structured_blocks-IsLowered_example :
    (bbs : List (Block ℕ ℕ)) × (lower_structured_blocks 1 if_blocks ≡ some bbs)
    × Forall₂ IsLowered
        (linearize_structured_ifs 1 if_blocks [] (lowered_exception_edges if_blocks)).blocks
        bbs
lower_structured_blocks-IsLowered_example = lower_structured_blocks-IsLowered 1 if_blocks

abbrev table : BlockTerm ℕ
table = branch_table 0 (1 ∷ 2 ∷ 1 ∷ []) 3

replace_target-successors_example :
    (successors (replace_target 1 5 table).0 ≡ map (replace_label 1 5) (successors table))
    × ((replace_target 1 5 table).1 ≡ any (λ l. l == 1) (successors table))
replace_target-successors_example = replace_target-successors 1 5 table

extend-set_term_example :
    (done : BlockBuilder ℕ) × (Option.bind
        (extend (builder nil none) (expr 1 ∷ expr 2 ∷ []))
        (λ b. set_term b (return 0))
      ≡ some done)
    × (done ≡ builder (append nil (of_list (expr 1 ∷ expr 2 ∷ []))) (some (return 0)))
    × (push_stmt done (expr 3) ≡ none)
    × (set_term done (return 4) ≡ none)
extend-set_term_example = extend-set_term nil (expr 1 ∷ expr 2 ∷ []) (return 0) (expr 3) (return 4)

next_block_name-fresh_example :
    ((NameGen.next_block_name (NameGen.after_blocks 5 (NameGen.new_function_gen (Label.new 1 2)))).0
      ≡ some 5)
    × (Label.is_fallthrough 5 ≡ false)
next_block_name-fresh_example = next_block_name-fresh 5 (Label.new 1 2) (omega arith)

abbrev call : ℕ
call = 2

abbrev module_number : ℕ
module_number = 7

second-id : nth_id call module_number ≡ nth_id call module_number
second-id = refl

next_function_name_gen-distinct_example : (call ≡ call) × (module_number ≡ module_number)
next_function_name_gen-distinct_example =
    next_function_name_gen-distinct call call module_number module_number (omega arith)
      (omega arith) (omega arith) (omega arith) second-id

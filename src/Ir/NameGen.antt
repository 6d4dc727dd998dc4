-- ===== src/Ir/NameGen.antt =====
-- Name generators (soac-blockpy/src/block_py/name_gen.rs). The counters are shared by all copies of
-- a generator, so that one state stands for all of them; each call hands on the next state, and
-- calls that race are taken in some order. Counters wrap around, at 32 and at 64 bits.
pub mod Fresh
use diet_python.Prelude.{ℕ, zero, suc, ◌%◌, ◌^◌, Option}
use diet_python.Ir.Label.{FunctionId, new, BlockLabel, from_index}

pub record FunctionNameGen : Type 0 where
  pub function_id : FunctionId
  pub next_block_id : ℕ
  pub next_tmp_id : ℕ

-- `FunctionNameGen::new`
unfoldable pub new_function_gen : FunctionId → FunctionNameGen
new_function_gen id = record { function_id = id; next_block_id = 0; next_tmp_id = 0 }

-- The label, where it is a u32, and the generator after the call.
unfoldable pub next_block_name : FunctionNameGen → Option BlockLabel × FunctionNameGen
next_block_name g =
    (from_index g.next_block_id, record g { next_block_id = suc g.next_block_id % 2 ^ 64 })

pub record ModuleNameGen : Type 0 where
  pub module_id : ℕ
  pub next_function_id : ℕ

-- `ModuleNameGen::new`
unfoldable pub new_module_gen : ℕ → ModuleNameGen
new_module_gen m = record { module_id = m; next_function_id = 0 }

unfoldable pub next_function_name_gen : ModuleNameGen → FunctionNameGen × ModuleNameGen
next_function_name_gen g = (
  new_function_gen (new g.module_id g.next_function_id),
  record g { next_function_id = suc g.next_function_id % 2 ^ 32 },
)

-- A generator after a number of calls.
unfoldable pub after_blocks : ℕ → FunctionNameGen → FunctionNameGen
after_blocks zero g = g
after_blocks (suc n) g = (next_block_name (after_blocks n g)).1

unfoldable pub after_functions : ℕ → ModuleNameGen → ModuleNameGen
after_functions zero g = g
after_functions (suc n) g = (next_function_name_gen (after_functions n g)).1

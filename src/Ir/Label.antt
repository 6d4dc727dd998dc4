-- ===== src/Ir/Label.antt =====
-- Function ids, block labels and name generators (soac-blockpy/src/block_py/name_gen.rs).
use diet_python.Prelude.{
  ℕ, ◌+◌, ◌-◌, ◌*◌, ◌/◌, ◌%◌, ◌^◌, ◌==◌, ltb, Bool, Option, none, some, if◌then◌else◌,
}

-- A packed u64.
pub record FunctionId : Type 0 where
  pub packed : ℕ

-- `FunctionId::new`: the module id in the upper 32 bits, the function id in the lower.
unfoldable pub new : ℕ → ℕ → FunctionId
new module_id function_id = record { packed = (module_id * 2 ^ 32) % 2 ^ 64 + function_id }

-- `(self.0 >> 32) as u32`
unfoldable pub module_id : FunctionId → ℕ
module_id f = (f.packed / 2 ^ 32) % 2 ^ 32

-- `self.0 as u32`
unfoldable pub function_id : FunctionId → ℕ
function_id f = f.packed % 2 ^ 32

abbrev pub global : FunctionId
global = record { packed = 0 }

-- The index of a block, a u32.
abbrev pub BlockLabel : Type 0
BlockLabel = ℕ

abbrev pub fallthrough_index : ℕ
fallthrough_index = 2 ^ 32 - 1

abbrev pub fallthrough : BlockLabel
fallthrough = fallthrough_index

unfoldable pub is_fallthrough : BlockLabel → Bool
is_fallthrough l = l == fallthrough_index

-- `none` is the panic of `u32::try_from`.
unfoldable pub from_index : ℕ → Option BlockLabel
from_index value = if ltb value (2 ^ 32) then some value else none

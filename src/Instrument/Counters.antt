-- ===== src/Instrument/Counters.antt =====
-- Counter definitions: `CounterBuilder` (soac-blockpy/src/passes/instrument.rs) over the data of
-- soac-blockpy/src/block_py/mod.rs. Ids are of type usize, of 64 bits, and wrap around.
pub mod Laws
pub mod Again
use diet_python.Prelude.{
  ℕ, suc, ◌+◌, ◌%◌, ◌^◌, ◌==◌, ltb, ◌&&◌, String, str_eq, Bool, true, false, Option, none, some,
  List, [], ◌∷◌, ◌++◌, find, if◌then◌else◌,
}
use diet_python.Ir.Label.{FunctionId, BlockLabel}

pub data CounterScope : Type 0 where
  this function global : CounterScope

unfoldable pub scope_eq : CounterScope → CounterScope → Bool
scope_eq this this = true
scope_eq function function = true
scope_eq global global = true
scope_eq _ _ = false

-- soac-blockpy/src/block_py/meta.rs
pub record InstrId : Type 0 where
  pub block_label : BlockLabel
  pub instr_index_in_block : ℕ

pub data CounterSite : Type 0 where
  block_entry : FunctionId → BlockLabel → CounterSite
  runtime : Option FunctionId → Option InstrId → CounterSite

unfoldable pub function_id_eq : Option FunctionId → Option FunctionId → Bool
function_id_eq none none = true
function_id_eq (some f) (some g) = f.packed == g.packed
function_id_eq _ _ = false

unfoldable pub instr_id_eq : Option InstrId → Option InstrId → Bool
instr_id_eq none none = true
instr_id_eq (some i) (some j) =
    (i.block_label == j.block_label) && (i.instr_index_in_block == j.instr_index_in_block)
instr_id_eq _ _ = false

unfoldable pub site_eq : CounterSite → CounterSite → Bool
site_eq (block_entry f l) (block_entry g k) = (f.packed == g.packed) && (l == k)
site_eq (runtime f i) (runtime g j) = function_id_eq f g && instr_id_eq i j
site_eq _ _ = false

-- What the trait `CounterSpec` gives: the arguments of `define`.
pub record CounterSpec : Type 0 where
  pub scope : CounterScope
  pub kind : String
  pub site : CounterSite

pub record CounterDef : Type 0 where
  pub id : ℕ
  pub spec : CounterSpec

pub record CounterBuilder : Type 0 where
  pub defs : List CounterDef
  pub next_id : ℕ

-- Arithmetic on usize.
abbrev pub wrapping : ℕ → ℕ
wrapping n = n % 2 ^ 64

unfoldable pub max_id : List CounterDef → Option ℕ
max_id [] = none
max_id (d ∷ ds) = elim (max_id ds) [
  | none ↦ some d.id
  | some m ↦ some (if ltb d.id m then m else d.id)
]

unfoldable pub new : List CounterDef → CounterBuilder
new defs = elim (max_id defs) [
  | none ↦ record { defs = defs; next_id = 0 }
  | some m ↦ record { defs = defs; next_id = wrapping (m + 1) }
]

-- A handle is the id of a definition.
unfoldable pub define : CounterSpec → CounterBuilder → ℕ × CounterBuilder
define s b = (
  b.next_id,
  record {
    defs = b.defs ++ record { id = b.next_id; spec = s } ∷ [];
    next_id = wrapping (b.next_id + 1);
  },
)

unfoldable pub has_spec : CounterSpec → CounterDef → Bool
has_spec s d =
    scope_eq d.spec.scope s.scope && str_eq d.spec.kind s.kind && site_eq d.spec.site s.site

unfoldable pub define_if_missing : CounterSpec → CounterBuilder → ℕ × CounterBuilder
define_if_missing s b = elim (find (has_spec s) b.defs) [
  | some existing ↦ (existing.id, b)
  | none ↦ define s b
]

-- A call of the builder.
pub data CounterCall : Type 0 where
  define_call define_if_missing_call : CounterSpec → CounterCall

unfoldable pub call : CounterCall → CounterBuilder → CounterBuilder
call (define_call s) b = (define s b).1
call (define_if_missing_call s) b = (define_if_missing s b).1

unfoldable pub calls : List CounterCall → CounterBuilder → CounterBuilder
calls [] b = b
calls (c ∷ cs) b = calls cs (call c b)

-- ===== src/Ir/NameGen/Fresh.antt =====
-- What the name generators give out is new each time (name_gen.rs).
use diet_python.Prelude.{◌%◌, ◌*◌, ◌+◌, ℕ, zero, suc, ◌-◌, ◌^◌, ◌<◌, ◌≡◌, refl, false, some, arith}
use diet_python.Ir.Label.{new, FunctionId, from_index, is_fallthrough}
use diet_python.Ir.NameGen.{
  new_function_gen, next_block_name, new_module_gen, next_function_name_gen, after_blocks,
  after_functions,
}

after_blocks-counter :
    (n : ℕ) (id : FunctionId)
    → n < 2 ^ 64
    → (after_blocks n (new_function_gen id)).next_block_id ≡ n
unfolding after_blocks new_function_gen next_block_name
after_blocks-counter zero id h = refl
after_blocks-counter (suc n) id h = omega (arith, after_blocks-counter n id (omega arith))

-- Before the call 2 ^ 32 - 1, each call of `next_block_name` gives the number of calls before it,
-- which is never the label that marks a fallthrough.
pub next_block_name-fresh :
    (n : ℕ) (id : FunctionId)
    → n < 2 ^ 32 - 1
    → ((next_block_name (after_blocks n (new_function_gen id))).0 ≡ some n)
      × (is_fallthrough n ≡ false)
unfolding next_block_name from_index is_fallthrough
next_block_name-fresh n id h =
    (ground (arith, after_blocks-counter n id (omega arith)), ground arith)

after_functions-state :
    (n m : ℕ)
    → n < 2 ^ 32
    → ((after_functions n (new_module_gen m)).next_function_id ≡ n)
      × ((after_functions n (new_module_gen m)).module_id ≡ m)
unfolding after_functions new_module_gen next_function_name_gen
after_functions-state zero m h = (refl, refl)
after_functions-state (suc n) m h =
    let (counter, same) = after_functions-state n m (omega arith) in (omega (arith, counter), same)

-- The packed id that the call after `n` others gives.
abbrev pub nth_id : ℕ → ℕ → ℕ
nth_id n m = (next_function_name_gen (after_functions n (new_module_gen m))).0.function_id.packed

nth_id-packed : (n m : ℕ) → n < 2 ^ 32 → nth_id n m ≡ (m * 2 ^ 32) % 2 ^ 64 + n
unfolding next_function_name_gen new_function_gen new
nth_id-packed n m h = let (counter, same) = after_functions-state n m h in rw counter (rw same refl)

-- Two calls of `next_function_name_gen` give one id only if they are the same call, of generators
-- of the same module, as long as each module makes fewer than 2 ^ 32 calls.
pub next_function_name_gen-distinct :
    (i j m k : ℕ)
    → i < 2 ^ 32
    → j < 2 ^ 32
    → m < 2 ^ 32
    → k < 2 ^ 32
    → nth_id i m ≡ nth_id j k
    → (i ≡ j) × (m ≡ k)
next_function_name_gen-distinct i j m k hi hj hm hk same =
    let packed_i = nth_id-packed i m hi in
    let packed_j = nth_id-packed j k hj in
    (omega (arith, packed_i, packed_j), omega (arith, packed_i, packed_j))

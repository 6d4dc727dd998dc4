-- ===== src/Ir/Ids.antt =====
-- Packing of function ids (soac-blockpy/src/block_py/name_gen.rs).
use diet_python.Prelude.{ℕ, ◌^◌, ◌<◌, ◌≡◌, arith}
use diet_python.Ir.Label.{new, module_id, function_id}

-- From two u32 halves, the packed id gives both back; from a packed u64, its halves give it back.
pub new-halves :
    (m f p : ℕ)
    → m < 2 ^ 32
    → f < 2 ^ 32
    → p < 2 ^ 64
    → (module_id (new m f) ≡ m)
      × (function_id (new m f) ≡ f)
      × ((new (module_id (record { packed = p })) (function_id (record { packed = p }))).packed ≡ p)
unfolding new module_id function_id
new-halves m f p hm hf hp = (omega arith, omega arith, omega arith)

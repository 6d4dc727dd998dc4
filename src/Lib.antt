-- ===== src/Lib.antt =====
-- Verification of the compiler core of diet-python, which lowers Python functions to basic blocks,
-- and of two parts of its run time.
--
-- The compiler lowers a function to structured blocks, folds and prunes them, makes nested ifs
-- blocks, splits blocks with a handler, gives exception edges their arguments, numbers the labels
-- densely and validates the result. The files follow those steps:
--
--   Ir/Label, Ir/Ids, Ir/NameGen   FunctionId, BlockLabel, FunctionNameGen and ModuleNameGen:
--                                  soac-blockpy/src/block_py/name_gen.rs
--   Ir/Block, Ir/Structured,       Block, BlockEdge, BlockTerm, BlockParam, BlockBuilder and
--   Ir/ExceptionParam,             StructuredInstr: soac-blockpy/src/block_py/mod.rs
--   Ir/Targets, Ir/Builders
--   Ir/Layout                      StorageLayout: soac-blockpy/src/block_py/scope.rs
--   Cfg/Linearize                  linearize_structured_ifs: soac-blockpy/src/block_py/cfg.rs
--   Cfg/Fold                       fold_jumps_to_trivial_none_return_blockpy (cfg.rs)
--   Cfg/Prune                      prune_unreachable_blockpy_blocks (cfg.rs)
--   Cfg/Relabel                    relabel_blockpy_blocks_dense (cfg.rs)
--   Exceptions/Lower               lower_structured_blocks_to_bb_blocks:
--                                  soac-blockpy/src/passes/ruff_to_blockpy/bb_shape.rs
--   Exceptions/Split               split_exception_blocks_for_expr_checks:
--                                  soac-blockpy/src/passes/blockpy_to_bb/exception_pass/mod.rs
--   Exceptions/Populate            populate_exception_edge_args (bb_shape.rs)
--   TryRegions                     lower_try_regions and finalize_try_regions:
--                                  soac-blockpy/src/passes/ruff_to_blockpy/try_regions.rs
--   Validate                       validate_module: soac-blockpy/src/block_py/validate.rs
--   Planning                       exc_dispatch_plan: soac-eval/src/jit/planning.rs
--   Binding                        build_function_bound_args: soac-eval/src/tree_walk/eval.rs
--   Scope, Scope/Cells             CallableScopeInfo, build_storage_layout_from_capture_names:
--                                  soac-blockpy/src/block_py/scope.rs
--   CounterDump                    CounterDumpRecord::encode: soac-eval/src/counter_dump.rs, and
--                                  the view of the inspector that reads it back:
--                                  soac-inspector/src/counter_dump.rs
--   Instrument/Counters            CounterBuilder: soac-blockpy/src/passes/instrument.rs
--   Instrument/Fragment            OptBlock (instrument.rs)
--   Params                         ParamSpec: soac-blockpy/src/block_py/param_specs/mod.rs
--   Counter                        Counter: soac-eval/src/counter.rs
--   Refcount                       incref and decref: soac-runtime/src/lib.rs
--   Prelude                        tests, lists, maps and results that the other files share
--   Examples                       the theorems at small programs
--
-- A function of the source is a function here, under its name where that is short. Instructions are
-- a type that is left open, as the source's passes are generic in theirs; what a pass asks of an
-- instruction (whether it is the implicit none, whether it updates the exception state) is an
-- argument. A pass that mutates a list of blocks returns the new list, the name generator's counter
-- is part of the state that is handed on, and a panic is `none`. Hash maps are association lists.
-- What running a block means is an argument too, a `Machine`, whose instructions and tests may
-- raise an exception.
--
-- Labels and ids are numbers; `from_index` says which numbers are a u32. The worklist of pruning
-- runs on fuel: one round for each root and for each successor of a block, which is how many labels
-- it can push. The other loops are structural. Counts of 64 and of 32 bits wrap around.
--
-- The lowering of a try statement calls back for the statements in it; the callback is an argument,
-- of which it is asked that it adds blocks at the end. The C interface of Python is an argument of
-- the binding of arguments, as is the state of its runtime; there a panic is one of the errors.
--
-- A dumped record is a list of bytes, its words little-endian; a record starts at a multiple of 8.
-- The inspector's loop over a file is modelled for one record, and its errors are `none`.
--
-- Not modelled: the syntax tree of ruff and the rewrites over it, the lowering of other statement
-- and expression forms, generators, name binding, the search for the names that a body captures,
-- tracing, pretty printing, code generation, the evaluation of blocks, the Python extension and
-- the rest of the inspector.
pub mod Prelude
pub mod Ir
pub mod Cfg
pub mod CounterDump
pub mod Exceptions
pub mod TryRegions
pub mod Validate
pub mod Planning
pub mod Scope
pub mod Params
pub mod Binding
pub mod Counter
pub mod Instrument
pub mod Refcount
pub mod Examples

-- ===== src/Refcount.antt =====
-- Reference counts of objects, on 64-bit targets (soac-runtime/src/lib.rs). The 32-bit count is a
-- number below 2 ^ 32 whose arithmetic wraps around; `none` is the null pointer. `_Py_Dealloc` is
-- not part of the repository: what is modelled is whether it is called.
pub mod Balance
use diet_python.Prelude.{
  ℕ, suc, ◌+◌, ◌-◌, ◌*◌, ◌%◌, ◌^◌, leb, ltb, ◌==◌, Bool, true, false, Option, none, some, List, [],
  ◌∷◌, if◌then◌else◌,
}

-- The count of an object, and how often it was handed to `_Py_Dealloc`.
pub record Object : Type 0 where
  pub ob_refcnt : ℕ
  pub deallocs : ℕ

-- `3u32 << 30`
abbrev pub immortal_initial_refcnt : ℕ
immortal_initial_refcnt = 3 * 2 ^ 30

unfoldable pub can_skip_incref : Object → Bool
can_skip_incref o = leb immortal_initial_refcnt o.ob_refcnt

-- `(ob_refcnt as i32) < 0`: the top bit of the count is set.
unfoldable pub can_skip_decref : Object → Bool
can_skip_decref o = leb (2 ^ 31) o.ob_refcnt

-- `incref_impl`
unfoldable pub incref : Option Object → Option Object
incref none = none
incref (some o) =
    if can_skip_incref o then some o else some (record o { ob_refcnt = suc o.ob_refcnt % 2 ^ 32 })

-- `decref_impl`
unfoldable pub decref : Option Object → Option Object
decref none = none
decref (some o) =
    if can_skip_decref o
    then some o
    else let next_refcnt = (o.ob_refcnt + (2 ^ 32 - 1)) % 2 ^ 32 in
      if next_refcnt == 0
      then some (record { ob_refcnt = next_refcnt; deallocs = suc o.deallocs })
      else some (record o { ob_refcnt = next_refcnt })

-- One call of the runtime's two entry points.
pub data Step : Type 0 where
  inc dec : Step

unfoldable pub step : Step → Option Object → Option Object
step inc o = incref o
step dec o = decref o

unfoldable pub steps : List Step → Option Object → Option Object
steps [] o = o
steps (s ∷ ss) o = steps ss (step s o)

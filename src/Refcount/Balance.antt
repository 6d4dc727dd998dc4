-- ===== src/Refcount/Balance.antt =====
-- A balanced use of counts frees an object exactly once (soac-runtime/src/lib.rs).
use diet_python.Prelude.{
  ℕ, zero, suc, ◌+◌, ◌^◌, ◌≤◌, ◌<◌, ◌≡◌, refl, ◌==◌, Option, none, some, List, [], ◌∷◌,
  if◌then◌else◌, arith, length,
}
use diet_python.Refcount.{
  Object, immortal_initial_refcnt, can_skip_incref, can_skip_decref, incref, decref, Step, inc, dec,
  step, steps,
}

-- The references that are held after the steps, if every step is made while one is held.
unfoldable pub held : ℕ → List Step → Option ℕ
held n [] = some n
held zero (s ∷ ss) = none
held (suc n) (inc ∷ ss) = held (suc (suc n)) ss
held (suc n) (dec ∷ ss) = held n ss

abbrev pub object : ℕ → ℕ → Object
object n d = record { ob_refcnt = n; deallocs = d }

incref-mortal : (n d : ℕ) → n < 2 ^ 31 → incref (some (object n d)) ≡ some (object (suc n) d)
unfolding incref can_skip_incref
incref-mortal n d h = ground arith

decref-mortal :
    (n d : ℕ)
    → suc (suc n) < 2 ^ 31
    → decref (some (object (suc (suc n)) d)) ≡ some (object (suc n) d)
unfolding decref can_skip_decref
decref-mortal n d h = ground arith

decref-last : (d : ℕ) → decref (some (object 1 d)) ≡ some (object 0 (suc d))
unfolding decref can_skip_decref
decref-last d = refl

-- If the references at the start and the number of steps are together below 2 ^ 31, then steps that
-- are made only while a reference is held leave a count of the references that are held then, and
-- hand the object to `_Py_Dealloc` exactly once, if they drop the last one, and else never.
pub steps-balanced :
    (ss : List Step) (n d m : ℕ)
    → suc n + length ss < 2 ^ 31
    → held (suc n) ss ≡ some m
    → steps ss (some (object (suc n) d)) ≡ some (object m (if m == 0 then suc d else d))
unfolding steps step held
steps-balanced [] n d m small h = ground arith
steps-balanced (inc ∷ ss) n d m small h =
    rw (incref-mortal (suc n) d (omega arith)) (steps-balanced ss (suc n) d m (omega arith) h)
steps-balanced (dec ∷ ss) (suc n) d m small h =
    rw (decref-mortal n d (omega arith)) (steps-balanced ss n d m (omega arith) h)
steps-balanced (dec ∷ []) zero d m small h = rw (decref-last d) (ground arith)
steps-balanced (dec ∷ s ∷ ss) zero d m small h = absurd (ground arith)

incref-immortal : (o : Object) → immortal_initial_refcnt ≤ o.ob_refcnt → incref (some o) ≡ some o
unfolding incref can_skip_incref
incref-immortal o h = ground arith

decref-immortal : (o : Object) → immortal_initial_refcnt ≤ o.ob_refcnt → decref (some o) ≡ some o
unfolding decref can_skip_decref
decref-immortal o h = ground arith

-- An object whose count is at least 3 * 2 ^ 30 is not changed by any steps.
pub steps-immortal :
    (ss : List Step) (o : Object)
    → immortal_initial_refcnt ≤ o.ob_refcnt
    → steps ss (some o) ≡ some o
unfolding steps step
steps-immortal [] o h = refl
steps-immortal (inc ∷ ss) o h = rw (incref-immortal o h) (steps-immortal ss o h)
steps-immortal (dec ∷ ss) o h = rw (decref-immortal o h) (steps-immortal ss o h)

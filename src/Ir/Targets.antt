-- ===== src/Ir/Targets.antt =====
-- Replacing a target of a terminator (soac-blockpy/src/block_py/mod.rs).
use diet_python.Prelude.{
  ◌≡◌, refl, ap, ◌==◌, ◌||◌, Bool, List, [], ◌∷◌, ◌++◌, map, any, Bool-cases, inl, inr,
}
use diet_python.Ir.Label.{BlockLabel}
use diet_python.Ir.Block.{
  BlockTerm, jump, if_term, branch_table, raise, return, successors, replace_label, replace_target,
}

map-append_last :
    (f : BlockLabel → BlockLabel) (xs : List BlockLabel) (d : BlockLabel)
    → map f xs ++ f d ∷ [] ≡ map f (xs ++ d ∷ [])
map-append_last f [] d = refl
map-append_last f (x ∷ xs) d = ap (λ zs. f x ∷ zs) (map-append_last f xs d)

any-append_last :
    (p : BlockLabel → Bool) (xs : List BlockLabel) (d : BlockLabel)
    → (any p xs || p d) ≡ any p (xs ++ d ∷ [])
any-append_last p [] d = elim (Bool-cases (p d)) [ inl e ↦ rw e refl | inr e ↦ rw e refl ]
any-append_last p (x ∷ xs) d = elim (Bool-cases (p x)) [
  | inl e ↦ rw e refl
  | inr e ↦ rw e (any-append_last p xs d)
]

-- The successors of the new terminator are those of the old one with each `from` made a `to`, and
-- the answer says whether `from` was one of them.
pub replace_target-successors {ℓ} :
    {E : Type ℓ} (from to : BlockLabel) (t : BlockTerm E)
    → (successors (replace_target from to t).0 ≡ map (replace_label from to) (successors t))
      × ((replace_target from to t).1 ≡ any (λ l. l == from) (successors t))
unfolding replace_target successors
replace_target-successors from to (jump e) = (refl, any-append_last (λ l. l == from) [] e.target)
replace_target-successors from to (if_term c a b) =
    (refl, ap (λ z. (a == from) || z) (any-append_last (λ l. l == from) [] b))
replace_target-successors from to (branch_table i ts d) =
    (map-append_last (replace_label from to) ts d, any-append_last (λ l. l == from) ts d)
replace_target-successors from to (raise x) = (refl, refl)
replace_target-successors from to (return x) = (refl, refl)

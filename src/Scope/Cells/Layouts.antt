-- ===== src/Scope/Cells/Layouts.antt =====
-- Sorting names and dropping neighbours that are equal keeps which names there are (scope.rs).
use text.Mathlib.Text.{is_le}
use Prim.Native.String.{compare}
use diet_python.Prelude.{
  ◌≡◌, ◌∙◌, ◌↔◌, String, str_eq, str_eq_iff, List, [], ◌∷◌, inl, inr, Memᴰ, Bool-cases,
}
use diet_python.Prelude.Memᴰ
use diet_python.Scope.Cells.{insert_sorted, sort, drop_same, dedup}

insert_sorted-mem :
    (n x : String) (ms : List String) → Memᴰ x (insert_sorted n ms) ↔ Memᴰ x (n ∷ ms)
unfolding insert_sorted
insert_sorted-mem n x [] = (λ h. h, λ h. h)
insert_sorted-mem n x (m ∷ ms) = elim (Bool-cases (is_le (compare n m))) [
  | inl e ↦ rw e (λ h. h, λ h. h)
  | inr e ↦
      let rest = insert_sorted-mem n x ms in
      rw e (
        λ h. elim (Memᴰ.cases_cons h) [
          | inl f ↦ Memᴰ.tail (Memᴰ.head f)
          | inr t ↦ elim (Memᴰ.cases_cons (rest.0 t)) [
            | inl f ↦ Memᴰ.head f
            | inr u ↦ Memᴰ.tail (Memᴰ.tail u)
          ]
        ],
        λ h. elim (Memᴰ.cases_cons h) [
          | inl f ↦ Memᴰ.tail (rest.1 (Memᴰ.head f))
          | inr t ↦ elim (Memᴰ.cases_cons t) [
            | inl f ↦ Memᴰ.head f
            | inr u ↦ Memᴰ.tail (rest.1 (Memᴰ.tail u))
          ]
        ],
      )
]

pub sort-mem : (x : String) (ns : List String) → Memᴰ x (sort ns) ↔ Memᴰ x ns
unfolding sort
sort-mem x [] = (λ h. h, λ h. h)
sort-mem x (n ∷ ns) =
    let inserted = insert_sorted-mem n x (sort ns) in
    let rest = sort-mem x ns in
    (
      λ h. elim (Memᴰ.cases_cons (inserted.0 h)) [
        | inl f ↦ Memᴰ.head f
        | inr t ↦ Memᴰ.tail (rest.0 t)
      ],
      λ h. elim (Memᴰ.cases_cons h) [
        | inl f ↦ inserted.1 (Memᴰ.head f)
        | inr t ↦ inserted.1 (Memᴰ.tail (rest.1 t))
      ],
    )

drop_same-mem : (n x : String) (ms : List String) → Memᴰ x (drop_same n ms) ↔ Memᴰ x (n ∷ ms)
drop_same-mem n x [] = (λ h. h, λ h. h)
drop_same-mem n x (m ∷ ms) = elim (Bool-cases (str_eq n m)) [
  | inl e ↦
      let same : n ≡ m = (str_eq_iff n m).0 e in
      rw e (
        λ h. Memᴰ.tail h,
        λ h. elim (Memᴰ.cases_cons h) [ inl f ↦ Memᴰ.head (f ∙ same) | inr t ↦ t ],
      )
  | inr e ↦ rw e (λ h. h, λ h. h)
]

pub dedup-mem : (x : String) (ns : List String) → Memᴰ x (dedup ns) ↔ Memᴰ x ns
unfolding dedup
dedup-mem x [] = (λ h. h, λ h. h)
dedup-mem x (n ∷ ns) =
    let dropped = drop_same-mem n x (dedup ns) in
    let rest = dedup-mem x ns in
    (
      λ h. elim (Memᴰ.cases_cons (dropped.0 h)) [
        | inl f ↦ Memᴰ.head f
        | inr t ↦ Memᴰ.tail (rest.0 t)
      ],
      λ h. elim (Memᴰ.cases_cons h) [
        | inl f ↦ dropped.1 (Memᴰ.head f)
        | inr t ↦ dropped.1 (Memᴰ.tail (rest.1 t))
      ],
    )

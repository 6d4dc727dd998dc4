-- ===== src/CounterDump/Intern.antt =====
-- The table of strings (soac-eval/src/counter_dump.rs).
use diet_python.Prelude.{
  ℕ, zero, suc, ◌≡◌, refl, sym, ap, ◌∙◌, String, str_eq, str_eq_iff, some, List, [], ◌∷◌, ◌++◌,
  get_elem?, length, append_assoc, append-nil, Bool-cases, Option-cases, inl, inr, ok, subst,
}
use diet_python.CounterDump.{string_table_full, as_u32, StringTable, default_table, id_of, intern}
use diet_python.CounterDump.Strings.{and_then-ok, as_u32-ok, ok-pair}

-- The ids of the table are positions of the strings.
abbrev pub IsTable : StringTable → Type 0
IsTable t = (v : String) (id : ℕ) → id_of v t.ids ≡ some id → get_elem? t.strings id ≡ some v

pub default_table-IsTable : IsTable default_table
unfolding id_of
default_table-IsTable v id h = absurd (cc)

-- Strings are only added, at the end.
pub record Grown (ss ss' : List String) : Type 0 where
  pub added : List String
  pub kept : ss' ≡ ss ++ added

pub Grown-refl : (ss : List String) → Grown ss ss
Grown-refl ss = record { added = []; kept = sym (append-nil ss) }

pub Grown-trans : {ss ts us : List String} → Grown ss ts → Grown ts us → Grown ss us
Grown-trans {ss} g h = record {
  added = g.added ++ h.added;
  kept = h.kept ∙ ap (λ xs. xs ++ h.added) g.kept ∙ append_assoc ss g.added h.added;
}

get_elem?-append_left {ℓ} :
    {A : Type ℓ} (xs ys : List A) (i : ℕ) {x : A}
    → get_elem? xs i ≡ some x
    → get_elem? (xs ++ ys) i ≡ some x
get_elem?-append_left [] ys i h = absurd (cc)
get_elem?-append_left (x ∷ xs) ys zero h = h
get_elem?-append_left (x ∷ xs) ys (suc i) h = get_elem?-append_left xs ys i h

get_elem?-last {ℓ} :
    {A : Type ℓ} (xs : List A) (x : A) → get_elem? (xs ++ x ∷ []) (length xs) ≡ some x
get_elem?-last [] x = refl
get_elem?-last (y ∷ xs) x = get_elem?-last xs x

pub get_elem?-Grown :
    {ss ss' : List String}
    → Grown ss ss'
    → (i : ℕ) {s : String} → get_elem? ss i ≡ some s
    → get_elem? ss' i ≡ some s
get_elem?-Grown {ss} g i h = rw g.kept (get_elem?-append_left ss g.added i h)

-- What `intern` gives: the position of its string in a table that has grown.
pub record Interned (v : String) (t : StringTable) (id : ℕ) (t' : StringTable) : Type 0 where
  pub table : IsTable t'
  pub grown : Grown t.strings t'.strings
  pub at : get_elem? t'.strings id ≡ some v

pub intern-Interned :
    (v : String) (t : StringTable) {id : ℕ} {t' : StringTable}
    → IsTable t
    → intern v t ≡ ok (id, t')
    → Interned v t id t'
unfolding intern id_of
intern-Interned v t {id} {t'} table h = elim (Option-cases (id_of v t.ids)) [
  | inr (old, found) ↦
      let (number, same) = ok-pair (ok (old, t)) refl (rw (found, intern) at h) in
      subst (λ u. Interned v t id u) same
        (record {
          table = table;
          grown = Grown-refl t.strings;
          at = table v id (found ∙ ap some number);
        })
  | inl new ↦
      let (n, fits, rest) =
        and_then-ok (as_u32 string_table_full (length t.strings)) _ (rw (new, intern) at h) in
      let (here, below) = as_u32-ok string_table_full (length t.strings) fits in
      let made : StringTable = record { ids = (v, n) ∷ t.ids; strings = t.strings ++ v ∷ [] } in
      let (number, same) = ok-pair (ok (n, made)) refl rest in
      let last : get_elem? (t.strings ++ v ∷ []) n ≡ some v =
        rw (sym here) (get_elem?-last t.strings v) in
      subst (λ u. Interned v t id u) same
        (record {
          table = λ w k found. elim (Bool-cases (str_eq v w)) [
            | inl e ↦
                let first : some n ≡ some k = rw e at found in
                let which : n ≡ k = cc first in
                let name : v ≡ w = (str_eq_iff v w).0 e in rw (sym which, sym name) last
            | inr e ↦ get_elem?-append_left t.strings (v ∷ []) k (table w k (rw e at found))
          ];
          grown = record { added = v ∷ []; kept = refl };
          at = rw (sym number) last;
        })
]

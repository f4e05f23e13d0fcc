-- ===== src/Sort/Tests.antt =====
-- Sorting in src/sort.c on small values, with an insertion sort for the C library's.
use mathlib.Core.List.{Perm}
use streem.Base.{
  ℕ, Bool, false, none, some, List, [], ◌∷◌, ◌≡◌, refl, ltb, ◌==◌, ◌<◌, arith, inl, inr,
}
use streem.Value.{Value, FloatOps, int, str, owned, nil}
use streem.Sort.{Cmp, strm_cmp, above, str_cmp}
use streem.Sort.Order.{lex, str_cmp-lex}
use streem.Sort.Library.{insertion_sort, insertion_sort-Qsort}
use streem.Sort.Stream.{Buffer, empty_buffer, grown, iter_sort, finish_sort}
use streem.Sort.Room.{Room, iter_sort-Room}
use streem.Sort.Sorted.{FloatOrder, Ascending, sort_all, finish_sort-Ordered}

-- Patterns ordered as numbers, none of which is a NaN.
abbrev floats : FloatOps
floats = record { of_int = λ n. n; feq = λ a b. a == b; flt = ltb; fadd = λ a b. a }

abbrev no_nan : ℕ → Bool
no_nan f = false

order : FloatOrder floats no_nan
order = record {
  asym = λ a b p q e. ground (arith, e);
  le_trans = λ a b c p q r e f. ground (arith, e, f);
}

abbrev library : (A : Type 0) → (A → A → Cmp) → List A → List A
library A c xs = insertion_sort c xs

abbrev sample : List Value
sample = int 3 ∷ str (owned (97 ∷ [])) ∷ int 1 ∷ []

finish_sort-Ordered_example :
    (d : Buffer Value) × (sort_all empty_buffer sample ≡ some d)
    × Perm (finish_sort library floats none d) sample
    × Ascending floats (finish_sort library floats none d)
finish_sort-Ordered_example =
    finish_sort-Ordered library insertion_sort-Qsort floats no_nan order sample (omega arith)
      (inl (refl, refl), (inr (refl, refl), (inl (refl, refl), tt)))

iter_sort-Room_example :
    (0 < (grown (empty_buffer {A = Value})).capa)
    × ((d : Buffer Value) × (iter_sort empty_buffer (int 1) ≡ some d)
        × Room d
        × (d.buf ≡ int 1 ∷ []))
iter_sort-Room_example =
    iter_sort-Room empty_buffer (int 1) (omega arith, omega arith, omega arith, omega arith)
      (omega arith)

str_cmp-lex_example : str_cmp (97 ∷ []) (97 ∷ 98 ∷ []) ≡ lex (97 ∷ []) (97 ∷ 98 ∷ [])
str_cmp-lex_example = str_cmp-lex (97 ∷ []) (97 ∷ 98 ∷ [])

-- Two values that are no numbers or strings are each above the other.
both_above : (strm_cmp floats nil nil ≡ above) × (strm_cmp floats nil (int 1) ≡ above)
unfolding strm_cmp
both_above = (refl, refl)

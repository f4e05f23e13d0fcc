-- ===== src/Sort/Library.antt =====
-- What the C library says of `qsort`, and a sort that is so.
use mathlib.Core.List.{Perm}
use mathlib.Core.List.Perm
use streem.Base.{◌≡◌, true, List, [], ◌∷◌, All, arith, if_case, if_case_eq, if◌then◌else◌}
use streem.Sort.{Cmp, flip, at_most}

-- Sorted: no element is above a later one.
abbrev pub Ordered : {A : Type 0} → (A → A → Cmp) → List A → Type 0
Ordered c [] = Unit
Ordered c (x ∷ xs) = All (λ y. at_most (c x y) ≡ true) xs × Ordered c xs

-- A consistent comparison of the elements that have a property.
pub record Total {A : Type 0} (P : A → Type 0) (c : A → A → Cmp) : Type 0 where
  pub turned : (x y : A) → P x → P y → c y x ≡ flip (c x y)
  pub le_trans :
      (x y z : A)
      → P x
      → P y
      → P z
      → at_most (c x y) ≡ true
      → at_most (c y z) ≡ true
      → at_most (c x z) ≡ true

-- The elements are the ones that were there; where the comparison is consistent, they are sorted.
pub record Qsort (qsort : (A : Type 0) → (A → A → Cmp) → List A → List A) : Type 1 where
  pub permutes : {A : Type 0} (c : A → A → Cmp) (xs : List A) → Perm (qsort A c xs) xs
  pub sorts :
      {A : Type 0} (P : A → Type 0) (c : A → A → Cmp) (xs : List A)
      → Total P c
      → All P xs
      → Ordered c (qsort A c xs)

module _ {A : Type 0} (c : A → A → Cmp) where
  abbrev pub insert : A → List A → List A
  insert x [] = x ∷ []
  insert x (y ∷ ys) = let rest = insert x ys in if at_most (c x y) then x ∷ y ∷ ys else y ∷ rest

  abbrev pub insertion_sort : List A → List A
  insertion_sort [] = []
  insertion_sort (x ∷ xs) = insert x (insertion_sort xs)

  insert-Perm : (x : A) (ys : List A) → Perm (insert x ys) (x ∷ ys)
  insert-Perm x [] = Perm.refl _
  insert-Perm x (y ∷ ys) =
      if_case (λ zs. Perm zs (x ∷ y ∷ ys)) (at_most (c x y)) _ _ (Perm.refl _)
        (Perm.trans (Perm.cons y (insert-Perm x ys)) (Perm.swap x y ys))

  sort-Perm : (xs : List A) → Perm (insertion_sort xs) xs
  sort-Perm [] = Perm.refl _
  sort-Perm (x ∷ xs) = Perm.trans (insert-Perm x (insertion_sort xs)) (Perm.cons x (sort-Perm xs))

  All-insert : (Q : A → Type 0) (x : A) (ys : List A) → Q x → All Q ys → All Q (insert x ys)
  All-insert Q x [] q a = (q, tt)
  All-insert Q x (y ∷ ys) q a =
      if_case (All Q) (at_most (c x y)) (x ∷ y ∷ ys) (y ∷ insert x ys) (q, a)
        (a.0, All-insert Q x ys q a.1)

  All-sort : (Q : A → Type 0) (xs : List A) → All Q xs → All Q (insertion_sort xs)
  All-sort Q [] a = tt
  All-sort Q (x ∷ xs) a = All-insert Q x (insertion_sort xs) a.0 (All-sort Q xs a.1)

  module _ (P : A → Type 0) (t : Total P c) where
    below_later :
        (x y : A) (ys : List A)
        → P x
        → P y
        → All P ys
        → at_most (c x y) ≡ true
        → All (λ z. at_most (c y z) ≡ true) ys
        → All (λ z. at_most (c x z) ≡ true) ys
    below_later x y [] p q r e a = tt
    below_later x y (z ∷ ys) p q r e a =
        (t.le_trans x y z p q r.0 e a.0, below_later x y ys p q r.1 e a.1)

    insert-Ordered : (x : A) (ys : List A) → P x → All P ys → Ordered c ys → Ordered c (insert x ys)
    insert-Ordered x [] p q o = (tt, tt)
    insert-Ordered x (y ∷ ys) p q o =
        if_case_eq (Ordered c) (at_most (c x y)) (x ∷ y ∷ ys) (y ∷ insert x ys)
          (λ e. ((e, below_later x y ys p q.0 q.1 e o.0), o))
          (λ e.
            let f : at_most (c y x) ≡ true = ground (arith, t.turned x y p q.0) in
            (All-insert (λ z. at_most (c y z) ≡ true) x ys f o.0, insert-Ordered x ys p q.1 o.1))

    sort-Ordered : (xs : List A) → All P xs → Ordered c (insertion_sort xs)
    sort-Ordered [] a = tt
    sort-Ordered (x ∷ xs) a =
        insert-Ordered x (insertion_sort xs) a.0 (All-sort P xs a.1) (sort-Ordered xs a.1)

pub insertion_sort-Qsort : Qsort (λ A c xs. insertion_sort c xs)
insertion_sort-Qsort = record {
  permutes = λ c xs. sort-Perm c xs;
  sorts = λ P c xs t a. sort-Ordered c P t xs a;
}

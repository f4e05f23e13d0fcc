-- ===== src/Khash/Assoc.antt =====
-- A table as a list of pairs: an instance of the interface of src/khash.h, for the tests.
use streem.Base.{
  ◌≡◌, ◌≢◌, refl, Bool, none, some, List, [], ◌∷◌, if◌then◌else◌, arith, ◌==◌, Bool-cases, inl, inr,
  ℕ, ==_iff, ◌↔◌, bytes_eq, bytes_eq_iff, true,
}
use streem.Khash.{Khash, Put, present, added, Laws, lookup, Distinct}

abbrev pub same : ℕ → ℕ → Bool
same a b = a == b

module _ {K V : Type 0} (eq : K → K → Bool) (eq_iff : (a b : K) → (eq a b ≡ true) ↔ (a ≡ b))
    (blank : V) where
  eq_refl : (a : K) → eq a a ≡ true
  eq_refl a = (eq_iff a a).1 refl

  unfoldable pub assign : List (K × V) → K → V → List (K × V)
  assign [] k v = []
  assign ((j, w) ∷ m) k v = if eq j k then (j, v) ∷ m else (j, w) ∷ assign m k v

  unfoldable pub put : List (K × V) → K → Put × List (K × V)
  put m k = elim (lookup eq m k) [ none ↦ (added, (k, blank) ∷ m) | some v ↦ (present, m) ]

  unfoldable pub remove : List (K × V) → K → List (K × V)
  remove [] k = []
  remove ((j, v) ∷ m) k = if eq j k then remove m k else (j, v) ∷ remove m k

  unfoldable pub entries : List (K × V) → List (K × V)
  entries [] = []
  entries ((j, v) ∷ m) = (j, v) ∷ remove (entries m) j

  abbrev pub table_of : Khash (List (K × V)) K V
  table_of = record { init = []; get = lookup eq; put = put; assign = assign; entries = entries }

  lookup-remove :
      (m : List (K × V)) (j k : K)
      → lookup eq (remove m j) k ≡ (if eq j k then none else lookup eq m k)
  unfolding remove
  lookup-remove [] j k = ground arith
  lookup-remove ((i, v) ∷ m) j k =
      ground (arith, lookup-remove m j k, eq_iff i j, eq_iff i k, eq_iff j k)

  remove-Distinct : (m : List (K × V)) (j : K) → Distinct eq m → Distinct eq (remove m j)
  unfolding remove
  remove-Distinct [] j d = d
  remove-Distinct ((i, v) ∷ m) j d = elim (Bool-cases (eq i j)) [
    | inl e ↦ rw e (remove-Distinct m j d.1)
    | inr e ↦ rw e (ground (arith, lookup-remove m j i, d.0), remove-Distinct m j d.1)
  ]

  lookup-entries : (m : List (K × V)) (k : K) → lookup eq (entries m) k ≡ lookup eq m k
  unfolding entries
  lookup-entries [] k = refl
  lookup-entries ((i, v) ∷ m) k = ground (arith, lookup-entries m k, lookup-remove (entries m) i k)

  entries-Distinct : (m : List (K × V)) → Distinct eq (entries m)
  unfolding entries
  entries-Distinct [] = tt
  entries-Distinct ((i, v) ∷ m) = (
    ground (arith, lookup-remove (entries m) i i, eq_refl i),
    remove-Distinct (entries m) i (entries-Distinct m),
  )

  get-assign :
      (m : List (K × V)) (k j : K) (v : V)
      → lookup eq m k ≢ none
      → lookup eq (assign m k v) j ≡ (if eq k j then some v else lookup eq m j)
  unfolding assign
  get-assign [] k j v n = absurd (n refl)
  get-assign ((i, w) ∷ m) k j v n = elim (Bool-cases (eq i k)) [
    | inl e ↦ ground (arith, eq_iff i k)
    | inr e ↦
        ground (arith, eq_iff i k, eq_iff k j, eq_iff i j, get-assign m k j v (λ q. n (rw e q)))
  ]

  put-present : (m : List (K × V)) (k : K) (v : V) → lookup eq m k ≡ some v → put m k ≡ (present, m)
  unfolding put
  put-present m k v e = ground arith

  put-absent : (m : List (K × V)) (k : K) → lookup eq m k ≡ none → (put m k).0 ≡ added
  unfolding put
  put-absent m k e = ground arith

  pub laws_of : Laws eq table_of
  unfolding put
  laws_of = record {
    eq-≡ = λ k j. (eq_iff k j).0;
    get-init = λ k. refl;
    put-present = put-present;
    put-absent = λ t k e. inl (put-absent t k e);
    put-same = λ t k e. ground (arith, eq_refl k);
    put-other = λ t k j e. ground arith;
    get-assign = get-assign;
    lookup-entries = lookup-entries;
    entries-Distinct = entries-Distinct;
  }

-- With numbers for keys.
abbrev pub table : {V : Type 0} → V → Khash (List (ℕ × V)) ℕ V
table blank = table_of same ==_iff blank

pub laws : {V : Type 0} (blank : V) → Laws same (table blank)
laws blank = laws_of same ==_iff blank

-- With strings of bytes for keys.
abbrev pub names : {V : Type 0} → V → Khash (List (List ℕ × V)) (List ℕ) V
names blank = table_of bytes_eq bytes_eq_iff blank

pub names_laws : {V : Type 0} (blank : V) → Laws bytes_eq (names blank)
names_laws blank = laws_of bytes_eq bytes_eq_iff blank

-- ===== src/Random/Places.antt =====
-- Places of a list that are all different, and the elements at them.
use streem.Base.{
  ℕ, zero, suc, Option, some, List, [], ◌∷◌, ◌++◌, ◌≡◌, ◌≢◌, ◌<◌, ◌∙◌, refl, ap, arith, length, set,
  get_elem?, All,
}

-- No number stands twice in the list.
abbrev pub Distinct : List ℕ → Type 0
Distinct [] = Unit
Distinct (x ∷ xs) = All (λ y. x ≢ y) xs × Distinct xs

All-ne : (i : ℕ) (xs : List ℕ) → All (λ y. y < i) xs → All (λ y. y ≢ i) xs
All-ne i [] h = tt
All-ne i (x ∷ xs) h = (λ e. omega arith, All-ne i xs h.1)

module _ (P : ℕ → Type 0) where
  pub All-set : (xs : List ℕ) (r i : ℕ) → All P xs → P i → All P (set xs r i)
  All-set [] r i h p = tt
  All-set (x ∷ xs) zero i h p = (p, h.1)
  All-set (x ∷ xs) (suc r) i h p = (h.0, All-set xs r i h.1 p)

  pub All-snoc : (xs : List ℕ) (i : ℕ) → All P xs → P i → All P (xs ++ (i ∷ []))
  All-snoc [] i h p = (p, tt)
  All-snoc (x ∷ xs) i h p = (h.0, All-snoc xs i h.1 p)

pub All-weaken : (i : ℕ) (xs : List ℕ) → All (λ y. y < i) xs → All (λ y. y < suc i) xs
All-weaken i [] h = tt
All-weaken i (x ∷ xs) h = (omega (arith, h.0), All-weaken i xs h.1)

All-above : (i : ℕ) (xs : List ℕ) → All (λ y. y < i) xs → All (λ y. i ≢ y) xs
All-above i [] h = tt
All-above i (x ∷ xs) h = (λ e. omega (arith, h.0), All-above i xs h.1)

pub Distinct-set :
    (xs : List ℕ) (r i : ℕ) → All (λ y. y < i) xs → Distinct xs → Distinct (set xs r i)
Distinct-set [] r i h d = tt
Distinct-set (x ∷ xs) zero i h d = (All-above i xs h.1, d.1)
Distinct-set (x ∷ xs) (suc r) i h d =
    (All-set (λ y. x ≢ y) xs r i d.0 (λ e. omega (arith, h.0)), Distinct-set xs r i h.1 d.1)

pub Distinct-snoc :
    (xs : List ℕ) (i : ℕ) → All (λ y. y < i) xs → Distinct xs → Distinct (xs ++ (i ∷ []))
Distinct-snoc [] i h d = (tt, tt)
Distinct-snoc (x ∷ xs) i h d =
    (All-snoc (λ y. x ≢ y) xs i d.0 (λ e. omega (arith, h.0)), Distinct-snoc xs i h.1 d.1)

module _ {A : Type 0} where
  get-append :
      (vs : List A) (v : A) (j : ℕ) → j < length vs → get_elem? (vs ++ (v ∷ [])) j ≡ get_elem? vs j
  get-append [] v j h = absurd (omega arith)
  get-append (w ∷ vs) v zero h = refl
  get-append (w ∷ vs) v (suc j) h = get-append vs v j (omega arith)

  pub get-last : (vs : List A) (v : A) → get_elem? (vs ++ (v ∷ [])) (length vs) ≡ some v
  get-last [] v = refl
  get-last (w ∷ vs) v = get-last vs v

  -- The elements at these places.
  abbrev pub at : List A → List ℕ → List (Option A)
  at vs [] = []
  at vs (j ∷ js) = get_elem? vs j ∷ at vs js

  pub at-append :
      (vs : List A) (v : A) (js : List ℕ)
      → All (λ j. j < length vs) js
      → at (vs ++ (v ∷ [])) js ≡ at vs js
  at-append vs v [] h = refl
  at-append vs v (j ∷ js) h =
      ap (λ a. a ∷ at (vs ++ (v ∷ [])) js) (get-append vs v j h.0)
      ∙ ap (λ t. get_elem? vs j ∷ t) (at-append vs v js h.1)

  pub at-set :
      (vs : List A) (js : List ℕ) (r i : ℕ) → at vs (set js r i) ≡ set (at vs js) r (get_elem? vs i)
  at-set vs [] r i = refl
  at-set vs (j ∷ js) zero i = refl
  at-set vs (j ∷ js) (suc r) i = ap (λ t. get_elem? vs j ∷ t) (at-set vs js r i)

  pub at-snoc :
      (vs : List A) (js : List ℕ) (i : ℕ)
      → at vs (js ++ (i ∷ [])) ≡ at vs js ++ (get_elem? vs i ∷ [])
  at-snoc vs [] i = refl
  at-snoc vs (j ∷ js) i = ap (λ t. get_elem? vs j ∷ t) (at-snoc vs js i)

  pub length-at : (vs : List A) (js : List ℕ) → length (at vs js) ≡ length js
  length-at vs [] = refl
  length-at vs (j ∷ js) = ap suc (length-at vs js)

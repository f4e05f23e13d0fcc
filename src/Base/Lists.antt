-- ===== src/Base/Lists.antt =====
-- Lists measured and indexed by native numbers, under the library's names.
use mathlib.Core.Logic.{◌↔◌}
use Prim.Native.Nat.{ℕ, zero, suc, ◌+◌, ◌-◌, ◌≤◌, ◌<◌}
use mathlib.Core.Path.{◌≡◌, refl, ap}
use mathlib.Core.Bool.{Bool, true, false, ◌&&◌}
use mathlib.Core.List.{List, [], ◌∷◌, ◌++◌}
use mathlib.Core.Option.{Option, none, some}
use native.Mathlib.Omega.{arith}
use streem.Base.Tests.{if◌then◌else◌, ◌==◌, ==_iff}

module _ {ℓ} {A : Type ℓ} where
  abbrev pub length : List A → ℕ
  length [] = 0
  length (x ∷ xs) = suc (length xs)

  abbrev pub get_elem? : List A → ℕ → Option A
  get_elem? [] i = none
  get_elem? (x ∷ xs) zero = some x
  get_elem? (x ∷ xs) (suc i) = get_elem? xs i

  -- A write out of bounds changes nothing.
  abbrev pub set : List A → ℕ → A → List A
  set [] i v = []
  set (x ∷ xs) zero v = v ∷ xs
  set (x ∷ xs) (suc i) v = x ∷ set xs i v

  abbrev pub take : ℕ → List A → List A
  take zero xs = []
  take (suc n) [] = []
  take (suc n) (x ∷ xs) = x ∷ take n xs

  abbrev pub drop : ℕ → List A → List A
  drop zero xs = xs
  drop (suc n) [] = []
  drop (suc n) (x ∷ xs) = drop n xs

  abbrev pub replicate : ℕ → A → List A
  replicate zero a = []
  replicate (suc n) a = a ∷ replicate n a

  -- The elements that pass a test.
  abbrev pub filter : (A → Bool) → List A → List A
  filter p [] = []
  filter p (x ∷ xs) = if p x then x ∷ filter p xs else filter p xs

  abbrev pub flatten : List (List A) → List A
  flatten [] = []
  flatten (x ∷ xs) = x ++ flatten xs

  -- Every element has the property.
  abbrev pub All {κ} : (A → Type κ) → List A → Type κ
  All P [] = Unit
  All P (x ∷ xs) = P x × All P xs

  pub length-append : (xs ys : List A) → length (xs ++ ys) ≡ length xs + length ys
  length-append [] ys = omega arith
  length-append (x ∷ xs) ys = omega (arith, length-append xs ys)

  pub length-set : (xs : List A) (i : ℕ) (v : A) → length (set xs i v) ≡ length xs
  length-set [] i v = refl
  length-set (x ∷ xs) zero v = refl
  length-set (x ∷ xs) (suc i) v = ap suc (length-set xs i v)

  -- Writing at the first free place of a filled prefix extends it.
  pub append-snoc : (xs : List A) (x : A) (ys : List A) → (xs ++ (x ∷ [])) ++ ys ≡ xs ++ (x ∷ ys)
  append-snoc [] x ys = refl
  append-snoc (a ∷ xs) x ys = ap (λ t. a ∷ t) (append-snoc xs x ys)

-- The images that a partial function gives.
abbrev pub filter_map {ℓ κ} : {A : Type ℓ} {B : Type κ} → (A → Option B) → List A → List B
filter_map f [] = []
filter_map f (x ∷ xs) = elim (f x) [ none ↦ filter_map f xs | some y ↦ y ∷ filter_map f xs ]

-- Equality of byte sequences, as `memcmp` over two equal lengths.
abbrev pub bytes_eq : List ℕ → List ℕ → Bool
bytes_eq [] [] = true
bytes_eq [] (b ∷ bs) = false
bytes_eq (a ∷ as') [] = false
bytes_eq (a ∷ as') (b ∷ bs) = (a == b) && bytes_eq as' bs

pub bytes_eq_iff : (a b : List ℕ) → (bytes_eq a b ≡ true) ↔ (a ≡ b)
bytes_eq_iff [] [] = (λ e. refl, λ e. refl)
bytes_eq_iff [] (b ∷ t) = (λ e. ground arith, λ e. ground arith)
bytes_eq_iff (a ∷ s) [] = (λ e. ground arith, λ e. ground arith)
bytes_eq_iff (a ∷ s) (b ∷ t) = (
  λ e. ground (arith, bytes_eq_iff s t, ==_iff a b),
  λ e. ground (arith, bytes_eq_iff s t, ==_iff a b),
)

module _ {ℓ} {A : Type ℓ} where
  -- An element, or a default past the end.
  abbrev pub get_or : List A → ℕ → A → A
  get_or [] i d = d
  get_or (x ∷ xs) zero d = x
  get_or (x ∷ xs) (suc i) d = get_or xs i d

  pub take-set_snoc :
      (xs : List A) (i : ℕ) (v : A)
      → i < length xs
      → take (suc i) (set xs i v) ≡ take i xs ++ (v ∷ [])
  take-set_snoc [] i v h = absurd (omega arith)
  take-set_snoc (x ∷ xs) zero v h = refl
  take-set_snoc (x ∷ xs) (suc i) v h = ap (λ t. x ∷ t) (take-set_snoc xs i v (omega arith))

  pub take-set_last :
      (xs : List A) (i j : ℕ) (v : A)
      → i < length xs
      → suc i ≡ j
      → take j (set xs i v) ≡ take i xs ++ (v ∷ [])
  take-set_last xs i j v h e = rw (← e) (take-set_snoc xs i v h)

  pub length-take_le : (n : ℕ) (xs : List A) → n ≤ length xs → length (take n xs) ≡ n
  length-take_le zero xs h = refl
  length-take_le (suc n) [] h = absurd (omega arith)
  length-take_le (suc n) (x ∷ xs) h = ap suc (length-take_le n xs (omega arith))

  pub take_all : (n : ℕ) (xs : List A) → length xs ≤ n → take n xs ≡ xs
  take_all zero [] h = refl
  take_all zero (x ∷ xs) h = absurd (omega arith)
  take_all (suc n) [] h = refl
  take_all (suc n) (x ∷ xs) h = ap (λ t. x ∷ t) (take_all n xs (omega arith))

  pub set-append :
      (pre : List A) (a : A) (post : List A) (v : A) (i : ℕ)
      → i ≡ length pre
      → set (pre ++ (a ∷ post)) i v ≡ pre ++ (v ∷ post)
  set-append [] a post v i e = rw e refl
  set-append (p ∷ pre) a post v i e =
      rw e (ap (λ t. p ∷ t) (set-append pre a post v (length pre) refl))

  pub get_or-append :
      (pre : List A) (a b : A) (post : List A) (d : A) (i : ℕ)
      → i ≡ suc (length pre)
      → get_or (pre ++ (a ∷ b ∷ post)) i d ≡ b
  get_or-append [] a b post d i e = rw e refl
  get_or-append (p ∷ pre) a b post d i e =
      rw e (get_or-append pre a b post d (suc (length pre)) refl)

  pub take-append : (xs ys : List A) (n : ℕ) → n ≡ length xs → take n (xs ++ ys) ≡ xs
  take-append [] ys n e = rw e refl
  take-append (x ∷ xs) ys n e = rw e (ap (λ t. x ∷ t) (take-append xs ys (length xs) refl))

  pub drop-append : (xs ys : List A) (n : ℕ) → n ≤ length xs → drop n (xs ++ ys) ≡ drop n xs ++ ys
  drop-append xs ys zero h = refl
  drop-append [] ys (suc n) h = absurd (omega arith)
  drop-append (x ∷ xs) ys (suc n) h = drop-append xs ys n (omega arith)

  pub length-drop : (n : ℕ) (xs : List A) → length (drop n xs) ≡ length xs - n
  length-drop zero xs = omega arith
  length-drop (suc n) [] = omega arith
  length-drop (suc n) (x ∷ xs) = omega (arith, length-drop n xs)

  pub take-drop : (n : ℕ) (xs : List A) → take n xs ++ drop n xs ≡ xs
  take-drop zero xs = refl
  take-drop (suc n) [] = refl
  take-drop (suc n) (x ∷ xs) = ap (λ t. x ∷ t) (take-drop n xs)

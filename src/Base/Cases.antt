-- ===== src/Base/Cases.antt =====
-- What holds of every case of a test holds of the test.
use mathlib.Core.Bool.{Bool, true, false}
use mathlib.Core.Path.{◌≡◌, refl}
use mathlib.Core.List.{List, [], ◌∷◌}
use mathlib.Core.Option.{Option, none, some}
use streem.Base.Tests.{if◌then◌else◌}
use streem.Base.Word.{Status, ok, ng, abort}

module _ {A : Type 0} (P : A → Type 0) where
  pub status_case :
      (s : Status) (x y z : A) → P x → P y → P z → P (elim s [ ok ↦ x | ng ↦ y | abort ↦ z ])
  status_case ok x y z p q r = p
  status_case ng x y z p q r = q
  status_case abort x y z p q r = r

  pub bool_case : (b : Bool) (x y : A) → P x → P y → P (elim b [ true ↦ x | false ↦ y ])
  bool_case true x y p q = p
  bool_case false x y p q = q

  pub if_case : (b : Bool) (x y : A) → P x → P y → P (if b then x else y)
  if_case true x y p q = p
  if_case false x y p q = q

  pub option_case :
      {B : Type 0} (o : Option B) (x : A) (k : B → A)
      → P x
      → ((b : B) → P (k b))
      → P (elim o [ none ↦ x | some b ↦ k b ])
  option_case none x k p q = p
  option_case (some b) x k p q = q b

  -- Likewise, where each case knows which it is.
  pub option_case_eq :
      {B : Type 0} (o : Option B) (x : A) (k : B → A)
      → (o ≡ none → P x)
      → ((b : B) → o ≡ some b → P (k b))
      → P (elim o [ none ↦ x | some b ↦ k b ])
  option_case_eq none x k p q = p refl
  option_case_eq (some b) x k p q = q b refl

  pub if_case_eq :
      (b : Bool) (x y : A) → (b ≡ true → P x) → (b ≡ false → P y) → P (if b then x else y)
  if_case_eq true x y p q = p refl
  if_case_eq false x y p q = q refl

  pub list_case :
      {B : Type 0} (l : List B) (x : A) (k : B → List B → A)
      → P x
      → ((b : B) (bs : List B) → P (k b bs))
      → P (elim l [ [] ↦ x | b ∷ bs ↦ k b bs ])
  list_case [] x k p q = p
  list_case (b ∷ bs) x k p q = q b bs

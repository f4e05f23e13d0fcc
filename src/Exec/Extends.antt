-- ===== src/Exec/Extends.antt =====
-- Outcomes of src/exec.c that agree where the first has not run out of fuel.
use streem.Base.{
  Bool, true, false, Option, none, some, List, if◌then◌else◌, ◌≡◌, refl, Status, ok, ng, abort, ◌∙◌,
  arith,
}
use streem.Value.{Value}
use streem.Node.{Name, Node, Cases, plambda}
use streem.Exec.{Machine}
use streem.Exec.Eval.{lambda_kind, Res, Outcome, Items, with_res, with_items, then_ok}

-- What the first outcome is, unless its fuel ran out, the second is too.
abbrev pub Extends : {A : Type 0} → Option A → Option A → Type 0
Extends none o = Unit
Extends (some r) o = o ≡ some r

pub same : {A : Type 0} (o : Option A) → Extends o o
same none = tt
same (some r) = refl

pub extended : {A : Type 0} (o o' : Option A) (r : A) → o ≡ some r → Extends o o' → o' ≡ some r
extended none o' r e p = ground arith
extended (some x) o' r e p = p ∙ e

pub by_status :
    {A : Type 0} (s : Status) (x y z x' y' z' : Option A)
    → Extends x x'
    → Extends y y'
    → Extends z z'
    → Extends (elim s [ ok ↦ x | ng ↦ y | abort ↦ z ]) (elim s [ ok ↦ x' | ng ↦ y' | abort ↦ z' ])
by_status ok x y z x' y' z' p q r = p
by_status ng x y z x' y' z' p q r = q
by_status abort x y z x' y' z' p q r = r

pub by_bool :
    {A : Type 0} (s : Bool) (x y x' y' : Option A)
    → Extends x x'
    → Extends y y'
    → Extends (elim s [ true ↦ x | false ↦ y ]) (elim s [ true ↦ x' | false ↦ y' ])
by_bool true x y x' y' p q = p
by_bool false x y x' y' p q = q

pub by_if :
    {A : Type 0} (s : Bool) (x y x' y' : Option A)
    → Extends x x'
    → Extends y y'
    → Extends (if s then x else y) (if s then x' else y')
by_if true x y x' y' p q = p
by_if false x y x' y' p q = q

pub by_option :
    {A B : Type 0} (s : Option A) (x x' : Option B) (k k' : A → Option B)
    → Extends x x'
    → ((a : A) → Extends (k a) (k' a))
    → Extends (elim s [ none ↦ x | some a ↦ k a ]) (elim s [ none ↦ x' | some a ↦ k' a ])
by_option none x x' k k' p q = p
by_option (some a) x x' k k' p q = q a

pub by_kind :
    {A : Type 0} (n : Node) (f f' : List Name → Node → Option A) (g g' : Cases → Option A)
    (x : Option A)
    → ((ks : List Name) (b : Node) → Extends (f ks b) (f' ks b))
    → ((cs : Cases) → Extends (g cs) (g' cs))
    → Extends (lambda_kind n f g x) (lambda_kind n f' g' x)
by_kind (Node.lambda ks b) f f' g g' x p q = p ks b
by_kind (plambda cs) f f' g g' x p q = q cs
by_kind _ f f' g g' x p q = same x

-- What stands after an evaluation, where running out of fuel gives none.
pub bound_option :
    {A B : Type 0} (o o' : Option A) (k k' : A → Option B)
    → Extends o o'
    → ((a : A) → Extends (k a) (k' a))
    → Extends (elim o [ none ↦ none | some a ↦ k a ]) (elim o' [ none ↦ none | some a ↦ k' a ])
bound_option none o' k k' p q = tt
bound_option (some a) o' k k' p q = rw p (q a)

module _ {T : Type 0} where
  pub after_res :
      (o o' : Outcome T) (k k' : Res T → Outcome T)
      → Extends o o'
      → ((r : Res T) → Extends (k r) (k' r))
      → Extends (with_res o k) (with_res o' k')
  after_res none o' k k' e f = tt
  after_res (some r) o' k k' e f = rw e (f r)

  pub after_ok :
      (o o' : Outcome T) (k k' : Value → Machine T → Outcome T)
      → Extends o o'
      → ((v : Value) (m : Machine T) → Extends (k v m) (k' v m))
      → Extends (then_ok o k) (then_ok o' k')
  after_ok o o' k k' e f =
      after_res o o' _ _ e λ r. by_status r.status _ _ _ _ _ _ (f r.val r.machine) refl refl

  pub after_items :
      (o o' : Option (Items T)) (k k' : Items T → Outcome T)
      → Extends o o'
      → ((r : Items T) → Extends (k r) (k' r))
      → Extends (with_items o k) (with_items o' k')
  after_items none o' k k' e f = tt
  after_items (some r) o' k k' e f = rw e (f r)

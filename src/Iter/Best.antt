-- ===== src/Iter/Best.antt =====
-- The first best element of a list, for an order given by a test: what `min` and `max` look for.
use streem.Base.{
  ◌≡◌, refl, ◌∙◌, sym, ap, Bool, true, false, List, [], ◌∷◌, ◌++◌, All, append_assoc, Bool-cases,
  inl, inr,
}
use mathlib.Core.Path.{subst}
use streem.Value.{Value}

-- `lt x y`: x is better than y. Ties are allowed.
pub record IsOrder (lt : Value → Value → Bool) : Type 0 where
  pub asym : (x y : Value) → lt x y ≡ true → lt y x ≡ false
  pub neg_trans : (x y z : Value) → lt x y ≡ false → lt y z ≡ false → lt x z ≡ false

-- Every element before `b` is worse, and no element after it is better.
pub record IsBest (lt : Value → Value → Bool) (ys : List Value) (b : Value) : Type 0 where
  pub pre : List Value
  pub post : List Value
  pub split : ys ≡ pre ++ (b ∷ post)
  pub worse : All (λ y. lt b y ≡ true) pre
  pub no_better : All (λ y. lt y b ≡ false) post

All-append : (P : Value → Type 0) (xs ys : List Value) → All P xs → All P ys → All P (xs ++ ys)
All-append P [] ys h k = k
All-append P (x ∷ xs) ys h k = (h.0, All-append P xs ys h.1 k)

All-map : (P Q : Value → Type 0) (xs : List Value) → ((x : Value) → P x → Q x) → All P xs → All Q xs
All-map P Q [] f h = tt
All-map P Q (x ∷ xs) f h = (f x h.0, All-map P Q xs f h.1)

module _ (lt : Value → Value → Bool) (o : IsOrder lt) where
  -- An element that beats the best so far beats all that the best does not lose to.
  beats : (x b y : Value) → lt x b ≡ true → lt y b ≡ false → lt x y ≡ true
  beats x b y h k = elim (Bool-cases (lt x y)) [ inl e ↦ e | inr e ↦ cc (o.neg_trans x y b e k) ]

  pub IsBest-new :
      (ys : List Value) (b x : Value)
      → IsBest lt ys b
      → lt x b ≡ true
      → IsBest lt (ys ++ (x ∷ [])) x
  IsBest-new ys b x h better = record {
    pre = ys;
    post = [];
    split = refl;
    worse =
        subst (λ l. All (λ y. lt x y ≡ true) l) (sym h.split)
          (All-append _ h.pre (b ∷ h.post)
            (All-map _ _ h.pre (λ y p. beats x b y better (o.asym b y p)) h.worse)
            (better, All-map _ _ h.post (λ y p. beats x b y better p) h.no_better));
    no_better = tt;
  }

  pub IsBest-old :
      (ys : List Value) (b x : Value)
      → IsBest lt ys b
      → lt x b ≡ false
      → IsBest lt (ys ++ (x ∷ [])) b
  IsBest-old ys b x h not_better = record {
    pre = h.pre;
    post = h.post ++ (x ∷ []);
    split = ap (λ l. l ++ (x ∷ [])) h.split ∙ append_assoc h.pre (b ∷ h.post) (x ∷ []);
    worse = h.worse;
    no_better = All-append _ h.post (x ∷ []) h.no_better (not_better, tt);
  }

  pub IsBest-one : (x : Value) → IsBest lt (x ∷ []) x
  IsBest-one x = record { pre = []; post = []; split = refl; worse = tt; no_better = tt }

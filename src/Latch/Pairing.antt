-- ===== src/Latch/Pairing.antt =====
-- Which value of a latch of src/latch.c goes to which receiver.
use streem.Base.{
  ◌≡◌, refl, arith, List, [], ◌∷◌, ◌++◌, length, drop, append-nil, ◌⊎◌, inl, inr, sym, append-snoc,
  ap,
}
use streem.Value.{Value}
use streem.Core.{consumer}
use streem.Latch.{
  Latch, Use, push, receive, use_latch, use_all, latch_push, strm_latch_receive, latch_new,
}

abbrev pub zip : {R : Type 0} → List R → List Value → List (R × Value)
zip (r ∷ rs) (v ∷ vs) = (r, v) ∷ zip rs vs
zip _ _ = []

-- The values pushed, and the receivers that came.
abbrev pub pushed : {R : Type 0} → List (Use R) → List Value
pushed [] = []
pushed (push v ∷ us) = v ∷ pushed us
pushed (receive r ∷ us) = pushed us

abbrev pub received : {R : Type 0} → List (Use R) → List R
received [] = []
received (push v ∷ us) = received us
received (receive r ∷ us) = r ∷ received us

module _ {R : Type 0} where
  abbrev open_latch : List Value → List R → Latch R
  open_latch vs rs = record { mode = consumer; dq = vs; rq = rs }

  -- What a latch makes of the values and the receivers in its queues and to come.
  abbrev Paired : Latch R × List (R × Value) → List Value → List R → Type 0
  Paired p vs rs =
      (p.1 ≡ zip rs vs) × (p.0.dq ≡ drop (length rs) vs) × (p.0.rq ≡ drop (length vs) rs)

  same_lists :
      (p : Latch R × List (R × Value)) {vs vs' : List Value} {rs rs' : List R}
      → vs ≡ vs'
      → rs ≡ rs'
      → Paired p vs rs
      → Paired p vs' rs'
  same_lists p e e' q = rw (← e, ← e') q

  paired :
      (us : List (Use R)) (vs : List Value) (rs : List R)
      → (vs ≡ []) ⊎ (rs ≡ [])
      → Paired (use_all (open_latch vs rs) us) (vs ++ pushed us) (rs ++ received us)
  unfolding use_all use_latch latch_push strm_latch_receive
  paired us (v ∷ vs) (r ∷ rs) o = ground arith
  paired [] [] [] o = (refl, refl, refl)
  paired [] [] (r ∷ rs) o = (refl, refl, sym (append-nil (r ∷ rs)))
  paired [] (v ∷ vs) [] o = (refl, sym (append-nil (v ∷ vs)), refl)
  paired (push v ∷ us) vs [] o =
      same_lists (use_all (open_latch (vs ++ (v ∷ [])) []) us) (append-snoc vs v (pushed us)) refl
        (paired us (vs ++ (v ∷ [])) [] (inr refl))
  paired (push v ∷ us) [] (r ∷ rs) o =
      let (a, b, c) = paired us [] rs (inl refl) in (ap (λ l. (r, v) ∷ l) a, b, c)
  paired (receive r ∷ us) [] rs o =
      same_lists (use_all (open_latch [] (rs ++ (r ∷ []))) us) refl (append-snoc rs r (received us))
        (paired us [] (rs ++ (r ∷ [])) (inl refl))
  paired (receive r ∷ us) (v ∷ vs) [] o =
      let (a, b, c) = paired us vs [] (inr refl) in (ap (λ l. (r, v) ∷ l) a, b, c)

  -- A latch that is open, used in any order: the n-th value pushed goes to the n-th receiver that
  -- came, the values that no receiver came for are kept in order, and so are the receivers that no
  -- value came for.
  pub use_all-zip :
      (us : List (Use R))
      → let p = use_all latch_new us in
        (p.1 ≡ zip (received us) (pushed us))
        × (p.0.dq ≡ drop (length (received us)) (pushed us))
        × (p.0.rq ≡ drop (length (pushed us)) (received us))
  use_all-zip us = paired us [] [] (inl refl)

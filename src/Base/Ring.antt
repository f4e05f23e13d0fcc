-- ===== src/Base/Ring.antt =====
-- A ring in an array: the place that is written next holds the oldest element.
use Prim.Native.Nat.{ℕ, zero, suc, ◌+◌, ◌≤◌, ◌<◌}
use mathlib.Core.Path.{◌≡◌, refl, ap, ap₂, sym, ◌∙◌}
use mathlib.Core.Logic.{inl, inr}
use mathlib.Core.List.{List, [], ◌∷◌, ◌++◌, append_assoc, append-nil}
use native.Mathlib.Omega.{arith}
use streem.Base.Tests.{◌==◌, if◌then◌else◌, Bool-cases}
use streem.Base.Lists.{
  length, set, take, drop, length-set, take_all, take-set_last, drop-append, length-append,
}

module _ {A : Type 0} where
  -- The elements from the oldest on.
  abbrev pub view : ℕ → List A → List A
  view i buf = drop i buf ++ take i buf

  -- The place after i.
  abbrev pub ring_next : ℕ → List A → ℕ
  ring_next i buf = if i + 1 == length buf then 0 else i + 1

  drop-set : (buf : List A) (i : ℕ) (x : A) → drop (suc i) (set buf i x) ≡ drop (suc i) buf
  drop-set [] i x = refl
  drop-set (b ∷ buf) zero x = refl
  drop-set (b ∷ buf) (suc i) x = drop-set buf i x

  drop-view :
      (buf : List A) (i : ℕ) (t : List A)
      → i < length buf
      → drop 1 (drop i buf ++ t) ≡ drop (suc i) buf ++ t
  drop-view [] i t h = absurd (omega arith)
  drop-view (b ∷ buf) zero t h = refl
  drop-view (b ∷ buf) (suc i) t h = drop-view buf i t (omega arith)

  drop_all : (n : ℕ) (xs : List A) → length xs ≤ n → drop n xs ≡ []
  drop_all zero [] h = refl
  drop_all zero (x ∷ xs) h = absurd (omega arith)
  drop_all (suc n) [] h = refl
  drop_all (suc n) (x ∷ xs) h = drop_all n xs (omega arith)

  -- A write drops the oldest element, and is the newest.
  pub view-put :
      (buf : List A) (i : ℕ) (x : A)
      → i < length buf
      → view (ring_next i buf) (set buf i x) ≡ drop 1 (view i buf) ++ (x ∷ [])
  view-put buf i x h =
      let s : take (i + 1) (set buf i x) ≡ take i buf ++ (x ∷ []) =
        take-set_last buf i (i + 1) x h (omega arith) in
      let r : drop 1 (view i buf) ++ (x ∷ []) ≡ drop (suc i) buf ++ (take i buf ++ (x ∷ [])) =
        ap (λ t. t ++ (x ∷ [])) (drop-view buf i (take i buf) h)
        ∙ append_assoc (drop (suc i) buf) (take i buf) (x ∷ []) in
      let X = set buf i x in
      let last = take i buf ++ (x ∷ []) in
      let k : i + 1 ≡ suc i = omega arith in
      let d : drop (i + 1) X ≡ drop (suc i) buf = ap (λ n. drop n X) k ∙ drop-set buf i x in
      elim (Bool-cases (i + 1 == length buf)) [
        | inl e ↦
            let w : i + 1 ≡ length buf = ground (arith, e) in
            rw (e, ring_next)
              (append-nil X
                ∙ sym (take_all (i + 1) X (omega (arith, length-set buf i x)))
                ∙ s
                ∙ ap (λ t. t ++ last) (sym (drop_all (suc i) buf (omega arith)))
                ∙ sym r)
        | inr e ↦ rw (e, ring_next) (ap₂ (λ u v. u ++ v) d s ∙ sym r)
      ]

  pub ring_next_lt : (buf : List A) (i : ℕ) → i < length buf → ring_next i buf < length buf
  ring_next_lt buf i h = ground arith

  pub drop-drop_one : (n : ℕ) (xs : List A) → drop 1 (drop n xs) ≡ drop (suc n) xs
  drop-drop_one zero xs = refl
  drop-drop_one (suc n) [] = refl
  drop-drop_one (suc n) (x ∷ xs) = drop-drop_one n xs

  -- The last elements of a sequence that is as long as the ring and what was written, one on.
  pub window_next :
      (buf xs : List A) (x : A)
      → 0 < length buf
      → drop 1 (drop (length xs) (buf ++ xs)) ++ (x ∷ [])
        ≡ drop (suc (length xs)) (buf ++ (xs ++ (x ∷ [])))
  window_next buf xs x h =
      ap (λ t. t ++ (x ∷ [])) (drop-drop_one (length xs) (buf ++ xs))
      ∙ sym
          (drop-append (buf ++ xs) (x ∷ []) (suc (length xs)) (omega (arith, length-append buf xs)))
      ∙ ap (λ t. drop (suc (length xs)) t) (append_assoc buf xs (x ∷ []))
